-- ===== src/Wallet/Ledger/Deposits.antt =====
-- Deposits and manual adjustments are runs of the ledger.
use eurisko_final_proejct.Base.{
  ℕ, String, ◌≡◌, refl, none, some, false, inl, inr, Option-cases, Bool-cases, arith, ok, ==_refl,
}
use eurisko_final_proejct.Base.Int.{ℤ, pos, negsuc, ◌-ℤ◌, ◌+ℤ◌, ◌≤ℤ◌, ltb_ℤ, add_nonneg, abs}
use eurisko_final_proejct.Base.Store.{lookup, insert, lookup-insert}
use eurisko_final_proejct.Wallet.Data.{Wallet, Db, Call, Config}
use eurisko_final_proejct.Wallet.Transactions.{has_key, document}
use eurisko_final_proejct.Wallet.Service.{
  StripeDepositInput, ensure_wallet, deposited, deposit_record, credit_deposit, new_wallet, anyway,
  process_stripe_deposit,
}
use eurisko_final_proejct.Wallet.Adjustment.{
  set_balance, adjustment_record, adjust_balance, manual_adjustment, manual_key, adjustment_type,
}
use eurisko_final_proejct.Wallet.Outcomes.{
  ensure_wallet-found, ensure_wallet-missing, create-done, create-duplicate,
  find_one_and_update-done,
}
use eurisko_final_proejct.Wallet.Outcomes.Deposits.{
  credit_deposit-duplicate, credit_deposit-done, adjust_balance-missing, adjust_balance-negative,
  adjust_balance-done, process_stripe_deposit-repeated, process_stripe_deposit-first,
}
use eurisko_final_proejct.Wallet.Ledger.{signed}
use eurisko_final_proejct.Wallet.Ledger.Machine.{Ledger, IsReached}
use eurisko_final_proejct.Wallet.Ledger.Moves.{Reached-record, Reached-new_wallet, Reached-book}
use eurisko_final_proejct.Wallet.Ledger.Withdrawals.{with_lock-IsReached}

-- The credit, once the wallet is in place.
credit_held-IsReached :
    {a : Ledger} (c : Call) (input : StripeDepositInput) (db d : Db) (w : Wallet)
    → ensure_wallet input.user_id db ≡ (ok w, d)
    → lookup input.user_id d.wallets ≡ some w
    → lookup c.new_id d.transactions ≡ none
    → pos 0 ≤ℤ input.amount
    → IsReached a d
    → IsReached a (credit_deposit c input db).1
credit_held-IsReached c input db d w placed held fresh pays s =
    elim (Bool-cases (has_key input.idempotency_key d.transactions)) [
      | inl taken ↦
          rw (credit_deposit-duplicate c input db w d placed (create-duplicate c _ d taken)) s
      | inr free ↦
          rw
            (credit_deposit-done c input db w d _ _ placed (create-done c _ d free) (
              find_one_and_update-done input.user_id anyway (deposited input.amount c.now) _ held
                refl))
            (Reached-book c (deposited input.amount c.now) w
              (document c (deposit_record input w.balance)) (w.balance +ℤ input.amount) none held
              fresh refl
              (record { moved = refl; solvent = λ has. add_nonneg w.balance input.amount has pays })
              s)
    ]

pub credit_deposit-IsReached :
    {a : Ledger} (c : Call) (input : StripeDepositInput) (db : Db)
    → lookup c.new_id db.transactions ≡ none
    → pos 0 ≤ℤ input.amount
    → IsReached a db
    → IsReached a (credit_deposit c input db).1
credit_deposit-IsReached c input db fresh pays s =
    elim (Option-cases (lookup input.user_id db.wallets)) [
      | inl missing ↦
          credit_held-IsReached c input db
            (record db { wallets = insert input.user_id new_wallet db.wallets }) new_wallet
            (ensure_wallet-missing input.user_id db missing) (rw lookup-insert (rw ==_refl)) fresh
            pays (Reached-new_wallet input.user_id new_wallet missing refl s)
      | inr (w, held) ↦
          credit_held-IsReached c input db db w (ensure_wallet-found input.user_id db held) held
            fresh pays s
    ]

pub process_stripe_deposit-IsReached :
    {a : Ledger} (cfg : Config) (c : Call) (input : StripeDepositInput) (db : Db)
    → lookup c.new_id db.transactions ≡ none
    → pos 0 ≤ℤ input.amount
    → IsReached a db
    → IsReached a (process_stripe_deposit cfg c input db).1
process_stripe_deposit-IsReached cfg c input db fresh pays s =
    elim (Bool-cases (has_key input.idempotency_key db.transactions)) [
      | inl seen ↦ rw (process_stripe_deposit-repeated cfg c input db seen) s
      | inr first ↦ rw (process_stripe_deposit-first cfg c input db first) (
          with_lock-IsReached cfg c input.user_id (credit_deposit c input) db
            (λ d _ same sound. credit_deposit-IsReached c input d (rw same fresh) pays sound) s)
    ]

-- The type of an adjustment's record and its amount say the sign.
signed_adjustment : (amount : ℤ) → signed (adjustment_type amount) (abs amount) ≡ amount
unfolding ◌-ℤ◌
signed_adjustment (pos n) = ground arith
signed_adjustment (negsuc n) = ground arith

pub adjust_balance-IsReached :
    {a : Ledger} (c : Call) (user : ℕ) (amount : ℤ) (justification cms_user : String) (db : Db)
    → lookup c.new_id db.transactions ≡ none
    → has_key (manual_key c cms_user user) db.transactions ≡ false
    → IsReached a db
    → IsReached a (adjust_balance c user amount justification cms_user db).1
adjust_balance-IsReached c user amount justification cms_user db fresh free s =
    elim (Option-cases (lookup user db.wallets)) [
      | inl missing ↦ rw (adjust_balance-missing c user amount justification cms_user db missing) s
      | inr (w, held) ↦ elim (Bool-cases (ltb_ℤ (w.balance +ℤ amount) (pos 0))) [
        | inl low ↦
            rw (adjust_balance-negative c user amount justification cms_user db w held low) s
        | inr high ↦
            rw
              (adjust_balance-done c user amount justification cms_user db w _ _ held high refl
                (create-done c _ _ free))
              (Reached-record c.new_id (set_balance (w.balance +ℤ amount)) w
                (document c
                  (adjustment_record c user amount justification cms_user w (w.balance +ℤ amount)))
                held fresh refl
                (rw (signed_adjustment amount)
                  (record { moved = refl; solvent = λ _. ground arith }))
                s)
      ]
    ]

pub manual_adjustment-IsReached :
    {a : Ledger} (cfg : Config) (c : Call) (user : ℕ) (amount : ℤ) (justification cms_user : String)
    (db : Db)
    → lookup c.new_id db.transactions ≡ none
    → has_key (manual_key c cms_user user) db.transactions ≡ false
    → IsReached a db
    → IsReached a (manual_adjustment cfg c user amount justification cms_user db).1
unfolding manual_adjustment
manual_adjustment-IsReached cfg c user amount justification cms_user db fresh free s =
    with_lock-IsReached cfg c user (adjust_balance c user amount justification cms_user) db
      (λ d _ same sound.
        adjust_balance-IsReached c user amount justification cms_user d (rw same fresh)
          (rw same free) sound)
      s

pub ensure_wallet-IsReached :
    {a : Ledger} (user : ℕ) (db : Db) → IsReached a db → IsReached a (ensure_wallet user db).1
ensure_wallet-IsReached user db s = elim (Option-cases (lookup user db.wallets)) [
  | inl missing ↦
      rw (ensure_wallet-missing user db missing) (Reached-new_wallet user new_wallet missing refl s)
  | inr (w, held) ↦ rw (ensure_wallet-found user db held) s
]
