-- ===== src/Wallet/Outcomes/Endpoints.antt =====
-- All ends of a first call of the trading service's two endpoints.
use eurisko_final_proejct.Base.{
  ℕ, String, ◌≡◌, ◌⊎◌, refl, some, true, false, inl, inr, Option-cases, Bool-cases, ok, err, arith,
}
use eurisko_final_proejct.Base.Int.{ℤ, ◌-ℤ◌, ◌+ℤ◌, ◌≤ℤ◌, ltb_ℤ}
use eurisko_final_proejct.Base.Store.{lookup, adjust}
use eurisko_final_proejct.Wallet.Data.{Wallet, Db, Error, Call, Config}
use eurisko_final_proejct.Wallet.Transactions.{has_key}
use eurisko_final_proejct.Wallet.Lock.{release}
use eurisko_final_proejct.Wallet.Service.{covers, debited, anyway}
use eurisko_final_proejct.Wallet.Internal.{
  debit_order, deduct, deduct_key, credit_order, credit, credit_key, credited,
}
use eurisko_final_proejct.Wallet.Outcomes.{create-done, find_one_and_update-done, with_lock-cases}
use eurisko_final_proejct.Wallet.Outcomes.Trades.{
  debit_order-missing, debit_order-short, debit_order-done, deduct-first, credit_order-missing,
  credit_order-done, credit-first,
}

covered_of : (a b : ℤ) → ltb_ℤ b a ≡ false → a ≤ℤ b
covered_of a b h = ground arith

covers_covered : (a : ℤ) (w : Wallet) → ltb_ℤ w.balance a ≡ false → covers a w ≡ true
covers_covered a w h = ground arith

module _ (c : Call) (user : ℕ) (amount : ℤ) (key : String) (db : Db) where
  debit_order-cases :
      has_key key db.transactions ≡ false
      → let (r, after) = debit_order c user amount key db in
        ((e : Error) × (r ≡ err e) × (after.wallets ≡ db.wallets))
        ⊎ ((w : Wallet) × (lookup user db.wallets ≡ some w)
            × (amount ≤ℤ w.balance)
            × ((r ≡ ok (w.balance -ℤ amount))
                × (after.wallets ≡ adjust user (debited amount) db.wallets)))
  debit_order-cases free = elim (Option-cases (lookup user db.wallets)) [
    | inl missing ↦ inl (rw (debit_order-missing c user amount key db missing) (_, refl, refl))
    | inr (w, held) ↦ elim (Bool-cases (ltb_ℤ w.balance amount)) [
      | inl low ↦ inl (rw (debit_order-short c user amount key db w held low) (_, refl, refl))
      | inr enough ↦ inr (
        w,
        held,
        covered_of amount w.balance enough,
        rw
            (debit_order-done c user amount key db w _ _ held enough (create-done c _ db free) (
              find_one_and_update-done user (covers amount) (debited amount) _ held
                (covers_covered amount w enough)))
            (refl, refl),
      )
    ]
  ]

  credit_order-cases :
      has_key key db.transactions ≡ false
      → let (r, after) = credit_order c user amount key db in
        ((e : Error) × (r ≡ err e) × (after.wallets ≡ db.wallets))
        ⊎ ((w : Wallet) × (lookup user db.wallets ≡ some w)
            × ((r ≡ ok (w.balance +ℤ amount))
                × (after.wallets ≡ adjust user (credited amount) db.wallets)))
  credit_order-cases free = elim (Option-cases (lookup user db.wallets)) [
    | inl missing ↦ inl (rw (credit_order-missing c user amount key db missing) (_, refl, refl))
    | inr (w, held) ↦ inr (
      w,
      held,
      rw
          (credit_order-done c user amount key db w _ _ held (create-done c _ db free)
            (find_one_and_update-done user anyway (credited amount) _ held refl))
          (refl, refl),
    )
  ]

module _ (cfg : Config) (c : Call) (user : ℕ) (amount : ℤ) (order : String) (db : Db) where
  -- The first `deduct` of an order answers an error and changes no wallet, or takes exactly the amount
  -- from a wallet that covered it.
  pub deduct-cases :
      has_key (deduct_key order) db.transactions ≡ false
      → let (r, after) = deduct cfg c user amount order db in
        ((e : Error) × (r ≡ err e) × (after.wallets ≡ db.wallets))
        ⊎ ((w : Wallet) × (lookup user db.wallets ≡ some w)
            × (amount ≤ℤ w.balance)
            × ((r ≡ ok (w.balance -ℤ amount))
                × (after.wallets ≡ adjust user (debited amount) db.wallets)))
  unfolding release
  deduct-cases first =
      elim (with_lock-cases cfg c user (debit_order c user amount (deduct_key order)) db) [
        | inl busy ↦ inl (rw (deduct-first cfg c user amount order db first, busy) (_, refl, refl))
        | inr (locks, _, ran) ↦
            rw (deduct-first cfg c user amount order db first, ran)
              (debit_order-cases c user amount (deduct_key order) (record db { locks = locks })
                first)
      ]

  -- The first `credit` of an order answers an error and changes no wallet, or adds exactly the amount.
  pub credit-cases :
      has_key (credit_key order) db.transactions ≡ false
      → let (r, after) = credit cfg c user amount order db in
        ((e : Error) × (r ≡ err e) × (after.wallets ≡ db.wallets))
        ⊎ ((w : Wallet) × (lookup user db.wallets ≡ some w)
            × ((r ≡ ok (w.balance +ℤ amount))
                × (after.wallets ≡ adjust user (credited amount) db.wallets)))
  unfolding release
  credit-cases first =
      elim (with_lock-cases cfg c user (credit_order c user amount (credit_key order)) db) [
        | inl busy ↦ inl (rw (credit-first cfg c user amount order db first, busy) (_, refl, refl))
        | inr (locks, _, ran) ↦
            rw (credit-first cfg c user amount order db first, ran)
              (credit_order-cases c user amount (credit_key order) (record db { locks = locks })
                first)
      ]
