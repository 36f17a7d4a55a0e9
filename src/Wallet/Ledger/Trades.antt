-- ===== src/Wallet/Ledger/Trades.antt =====
-- The endpoints of the trading service are runs of the ledger.
use eurisko_final_proejct.Base.{
  ℕ, String, ◌≡◌, refl, none, true, false, inl, inr, Option-cases, Bool-cases, arith,
}
use eurisko_final_proejct.Base.Int.{ℤ, pos, ◌+ℤ◌, ◌-ℤ◌, ◌≤ℤ◌, ltb_ℤ, add_nonneg}
use eurisko_final_proejct.Base.Store.{lookup}
use eurisko_final_proejct.Wallet.Data.{buy, sell, Wallet, Db, Call, Config}
use eurisko_final_proejct.Wallet.Transactions.{has_key, document}
use eurisko_final_proejct.Wallet.Service.{anyway, covers, debited}
use eurisko_final_proejct.Wallet.Internal.{
  trade_record, debit_order, credit_order, credited, deduct, credit, deduct_key, credit_key,
}
use eurisko_final_proejct.Wallet.Outcomes.{create-done, find_one_and_update-done}
use eurisko_final_proejct.Wallet.Outcomes.Trades.{
  debit_order-missing, debit_order-short, debit_order-done, credit_order-missing, credit_order-done,
  deduct-first, deduct-repeated, credit-first, credit-repeated, current_balance-state,
}
use eurisko_final_proejct.Wallet.Ledger.Machine.{Ledger, IsReached}
use eurisko_final_proejct.Wallet.Ledger.Moves.{Reached-book}
use eurisko_final_proejct.Wallet.Ledger.Withdrawals.{debited-Pays, with_lock-IsReached}

pub covered : (amount balance : ℤ) → ltb_ℤ balance amount ≡ false → amount ≤ℤ balance
covered amount balance h = ground arith

pub covers_of_le : (amount : ℤ) (w : Wallet) → amount ≤ℤ w.balance → covers amount w ≡ true
covers_of_le amount w h = ground arith

pub debit_order-IsReached :
    {a : Ledger} (c : Call) (user : ℕ) (amount : ℤ) (key : String) (db : Db)
    → lookup c.new_id db.transactions ≡ none
    → has_key key db.transactions ≡ false
    → IsReached a db
    → IsReached a (debit_order c user amount key db).1
debit_order-IsReached c user amount key db fresh free s =
    elim (Option-cases (lookup user db.wallets)) [
      | inl missing ↦ rw (debit_order-missing c user amount key db missing) s
      | inr (w, held) ↦ elim (Bool-cases (ltb_ℤ w.balance amount)) [
        | inl low ↦ rw (debit_order-short c user amount key db w held low) s
        | inr enough ↦
            let paid : amount ≤ℤ w.balance = covered amount w.balance enough in
            rw
              (debit_order-done c user amount key db w _ _ held enough (create-done c _ db free) (
                find_one_and_update-done user (covers amount) (debited amount) _ held
                  (covers_of_le amount w paid)))
              (Reached-book c (debited amount) w (document c (trade_record buy user amount w key))
                (w.balance -ℤ amount) none held fresh refl (debited-Pays amount w paid) s)
      ]
    ]

pub credit_order-IsReached :
    {a : Ledger} (c : Call) (user : ℕ) (amount : ℤ) (key : String) (db : Db)
    → lookup c.new_id db.transactions ≡ none
    → has_key key db.transactions ≡ false
    → pos 0 ≤ℤ amount
    → IsReached a db
    → IsReached a (credit_order c user amount key db).1
credit_order-IsReached c user amount key db fresh free pays s =
    elim (Option-cases (lookup user db.wallets)) [
      | inl missing ↦ rw (credit_order-missing c user amount key db missing) s
      | inr (w, held) ↦
          rw
            (credit_order-done c user amount key db w _ _ held (create-done c _ db free)
              (find_one_and_update-done user anyway (credited amount) _ held refl))
            (Reached-book c (credited amount) w (document c (trade_record sell user amount w key))
              (w.balance +ℤ amount) none held fresh refl
              (record { moved = refl; solvent = λ has. add_nonneg w.balance amount has pays }) s)
    ]

pub deduct-IsReached :
    {a : Ledger} (cfg : Config) (c : Call) (user : ℕ) (amount : ℤ) (order : String) (db : Db)
    → lookup c.new_id db.transactions ≡ none
    → IsReached a db
    → IsReached a (deduct cfg c user amount order db).1
deduct-IsReached cfg c user amount order db fresh s =
    elim (Bool-cases (has_key (deduct_key order) db.transactions)) [
      | inl seen ↦
          rw (deduct-repeated cfg c user amount order db seen)
            (rw (current_balance-state user db) s)
      | inr first ↦ rw (deduct-first cfg c user amount order db first) (
          with_lock-IsReached cfg c user (debit_order c user amount (deduct_key order)) db
            (λ d _ same sound.
              debit_order-IsReached c user amount (deduct_key order) d (rw same fresh)
                (rw same first) sound)
            s)
    ]

pub credit-IsReached :
    {a : Ledger} (cfg : Config) (c : Call) (user : ℕ) (amount : ℤ) (order : String) (db : Db)
    → lookup c.new_id db.transactions ≡ none
    → pos 0 ≤ℤ amount
    → IsReached a db
    → IsReached a (credit cfg c user amount order db).1
credit-IsReached cfg c user amount order db fresh pays s =
    elim (Bool-cases (has_key (credit_key order) db.transactions)) [
      | inl seen ↦
          rw (credit-repeated cfg c user amount order db seen)
            (rw (current_balance-state user db) s)
      | inr first ↦ rw (credit-first cfg c user amount order db first) (
          with_lock-IsReached cfg c user (credit_order c user amount (credit_key order)) db
            (λ d _ same sound.
              credit_order-IsReached c user amount (credit_key order) d (rw same fresh)
                (rw same first) pays sound)
            s)
    ]
