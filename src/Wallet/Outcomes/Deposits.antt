-- ===== src/Wallet/Outcomes/Deposits.antt =====
-- How the credit of a Stripe deposit and a manual adjustment end, inside the lock.
use eurisko_final_proejct.Base.{
  ℕ, String, ◌≡◌, none, some, [], ◌∷◌, ◌++◌, ok, err, true, false, arith,
}
use eurisko_final_proejct.Base.Int.{ℤ, pos, ◌+ℤ◌, ltb_ℤ}
use eurisko_final_proejct.Base.Store.{lookup, adjust}
use eurisko_final_proejct.Wallet.Data.{
  Wallet, Config, wallet_credited, Db, duplicate_key, wallet_not_found, negative_adjustment, Call,
}
use eurisko_final_proejct.Wallet.Transactions.{complete, create, has_key}
use eurisko_final_proejct.Wallet.Lock.{with_lock}
use eurisko_final_proejct.Wallet.Service.{
  process_stripe_deposit, StripeDepositInput, ensure_wallet, find_one_and_update, anyway, deposited,
  deposit_record, credit_deposit,
}
use eurisko_final_proejct.Wallet.Adjustment.{
  adjust_balance, adjustment_record, set_balance, to_cents,
}

module _ (c : Call) (input : StripeDepositInput) (db : Db) where
  -- `d` is the state with the wallet in place.
  pub credit_deposit-duplicate :
      (w : Wallet) (d : Db)
      → ensure_wallet input.user_id db ≡ (ok w, d)
      → create c (deposit_record input w.balance) d ≡ (err duplicate_key, d)
      → credit_deposit c input db ≡ (err duplicate_key, d)
  unfolding credit_deposit
  credit_deposit-duplicate w d e1 e2 = ground arith

  pub credit_deposit-done :
      (w : Wallet) (d d' d'' : Db)
      → ensure_wallet input.user_id db ≡ (ok w, d)
      → create c (deposit_record input w.balance) d ≡ (ok c.new_id, d')
      → find_one_and_update input.user_id anyway (deposited input.amount c.now) d'
        ≡ (ok (some (deposited input.amount c.now w)), d'')
      → credit_deposit c input db ≡ (
        ok tt,
        record d'' {
          transactions =
              adjust c.new_id (complete c (w.balance +ℤ input.amount) none) d''.transactions;
          events =
              d''.events
              ++ wallet_credited input.user_id "" "" input.amount
                  (w.balance +ℤ input.amount)
                  input.currency
                  c.new_id
                ∷ [];
        },
      )
  unfolding credit_deposit
  credit_deposit-done w d d' d'' e1 e2 e3 = ground arith

module _ (c : Call) (user : ℕ) (amount : ℤ) (justification cms_user : String) (db : Db) where
  pub adjust_balance-missing :
      lookup user db.wallets ≡ none
      → adjust_balance c user amount justification cms_user db ≡ (err wallet_not_found, db)
  unfolding adjust_balance
  adjust_balance-missing e = ground arith

  pub adjust_balance-negative :
      (w : Wallet)
      → lookup user db.wallets ≡ some w
      → ltb_ℤ (w.balance +ℤ amount) (pos 0) ≡ true
      → adjust_balance c user amount justification cms_user db ≡ (err negative_adjustment, db)
  unfolding adjust_balance
  adjust_balance-negative w e low = ground arith

  -- `d` is the state with the new balance, which is written before the record.
  pub adjust_balance-done :
      (w : Wallet) (d d' : Db)
      → lookup user db.wallets ≡ some w
      → ltb_ℤ (w.balance +ℤ amount) (pos 0) ≡ false
      → record db { wallets = adjust user (set_balance (w.balance +ℤ amount)) db.wallets } ≡ d
      → create c (adjustment_record c user amount justification cms_user w (w.balance +ℤ amount)) d
        ≡ (ok c.new_id, d')
      → adjust_balance c user amount justification cms_user db
        ≡ (ok (to_cents (w.balance +ℤ amount), c.new_id), d')
  unfolding adjust_balance
  adjust_balance-done w d d' e high written created = ground arith

-- A webhook that was processed before changes nothing.
pub process_stripe_deposit-repeated :
    (cfg : Config) (c : Call) (input : StripeDepositInput) (db : Db)
    → has_key input.idempotency_key db.transactions ≡ true
    → process_stripe_deposit cfg c input db ≡ (ok tt, db)
unfolding process_stripe_deposit
process_stripe_deposit-repeated cfg c input db seen = ground arith

pub process_stripe_deposit-first :
    (cfg : Config) (c : Call) (input : StripeDepositInput) (db : Db)
    → has_key input.idempotency_key db.transactions ≡ false
    → process_stripe_deposit cfg c input db
      ≡ with_lock cfg c input.user_id (credit_deposit c input) db
unfolding process_stripe_deposit
process_stripe_deposit-first cfg c input db first = ground arith
