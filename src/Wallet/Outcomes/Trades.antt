-- ===== src/Wallet/Outcomes/Trades.antt =====
-- How the debit and the credit of an order end, inside the lock.
use eurisko_final_proejct.Base.{ℕ, String, ◌≡◌, none, some, ok, err, true, false, arith}
use eurisko_final_proejct.Base.Int.{ℤ, ◌+ℤ◌, ◌-ℤ◌, ltb_ℤ}
use eurisko_final_proejct.Base.Store.{lookup, adjust}
use eurisko_final_proejct.Wallet.Data.{
  buy, sell, Wallet, Db, duplicate_key, wallet_not_found, insufficient_balance, Call, Config,
}
use eurisko_final_proejct.Wallet.Transactions.{has_key, complete, create}
use eurisko_final_proejct.Wallet.Lock.{with_lock}
use eurisko_final_proejct.Wallet.Service.{find_one_and_update, anyway, covers, debited}
use eurisko_final_proejct.Wallet.Internal.{
  deduct, credit, deduct_key, credit_key, current_balance, trade_record, debit_order, credit_order,
  credited,
}

module _ (c : Call) (user : ℕ) (amount : ℤ) (key : String) (db : Db) where
  pub debit_order-missing :
      lookup user db.wallets ≡ none → debit_order c user amount key db ≡ (err wallet_not_found, db)
  unfolding debit_order
  debit_order-missing e = ground arith

  pub credit_order-missing :
      lookup user db.wallets ≡ none → credit_order c user amount key db ≡ (err wallet_not_found, db)
  unfolding credit_order
  credit_order-missing e = ground arith

  pub debit_order-short :
      (w : Wallet)
      → lookup user db.wallets ≡ some w
      → ltb_ℤ w.balance amount ≡ true
      → debit_order c user amount key db ≡ (err insufficient_balance, db)
  unfolding debit_order
  debit_order-short w e low = ground arith

  pub debit_order-duplicate :
      (w : Wallet)
      → lookup user db.wallets ≡ some w
      → ltb_ℤ w.balance amount ≡ false
      → create c (trade_record buy user amount w key) db ≡ (err duplicate_key, db)
      → debit_order c user amount key db ≡ (err duplicate_key, db)
  unfolding debit_order
  debit_order-duplicate w e enough taken = ground arith

  pub credit_order-duplicate :
      (w : Wallet)
      → lookup user db.wallets ≡ some w
      → create c (trade_record sell user amount w key) db ≡ (err duplicate_key, db)
      → credit_order c user amount key db ≡ (err duplicate_key, db)
  unfolding credit_order
  credit_order-duplicate w e taken = ground arith

  pub debit_order-done :
      (w : Wallet) (d d' : Db)
      → lookup user db.wallets ≡ some w
      → ltb_ℤ w.balance amount ≡ false
      → create c (trade_record buy user amount w key) db ≡ (ok c.new_id, d)
      → find_one_and_update user (covers amount) (debited amount) d
        ≡ (ok (some (debited amount w)), d')
      → debit_order c user amount key db ≡ (
        ok (w.balance -ℤ amount),
        record d' {
          transactions = adjust c.new_id (complete c (w.balance -ℤ amount) none) d'.transactions;
        },
      )
  unfolding debit_order
  debit_order-done w d d' e enough created paid = ground arith

  pub credit_order-done :
      (w : Wallet) (d d' : Db)
      → lookup user db.wallets ≡ some w
      → create c (trade_record sell user amount w key) db ≡ (ok c.new_id, d)
      → find_one_and_update user anyway (credited amount) d ≡ (ok (some (credited amount w)), d')
      → credit_order c user amount key db ≡ (
        ok (w.balance +ℤ amount),
        record d' {
          transactions = adjust c.new_id (complete c (w.balance +ℤ amount) none) d'.transactions;
        },
      )
  unfolding credit_order
  credit_order-done w d d' e created paid = ground arith

module _ (cfg : Config) (c : Call) (user : ℕ) (amount : ℤ) (order : String) (db : Db) where
  -- A repeated call answers with the current balance, and moves nothing.
  pub deduct-repeated :
      has_key (deduct_key order) db.transactions ≡ true
      → deduct cfg c user amount order db ≡ current_balance user db
  unfolding deduct
  deduct-repeated seen = ground arith

  pub deduct-first :
      has_key (deduct_key order) db.transactions ≡ false
      → deduct cfg c user amount order db
        ≡ with_lock cfg c user (debit_order c user amount (deduct_key order)) db
  unfolding deduct
  deduct-first first = ground arith

  pub credit-repeated :
      has_key (credit_key order) db.transactions ≡ true
      → credit cfg c user amount order db ≡ current_balance user db
  unfolding credit
  credit-repeated seen = ground arith

  pub credit-first :
      has_key (credit_key order) db.transactions ≡ false
      → credit cfg c user amount order db
        ≡ with_lock cfg c user (credit_order c user amount (credit_key order)) db
  unfolding credit
  credit-first first = ground arith

pub current_balance-state : (user : ℕ) (db : Db) → (current_balance user db).1 ≡ db
current_balance-state user db = ground arith
