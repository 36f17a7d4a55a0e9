-- ===== src/Wallet/Calls.antt =====
-- The calls that reach the wallet service, as steps of its state, and what every run of them keeps.
pub mod Tests
use eurisko_final_proejct.Base.{ℕ, String, ◌≡◌, ◌≢◌, refl, none, some, false}
use eurisko_final_proejct.Base.Int.{ℤ, pos, ◌≤ℤ◌}
use eurisko_final_proejct.Base.Store.{Store, lookup}
use eurisko_final_proejct.Redis.{Entry}
use eurisko_final_proejct.Wallet.Data.{
  pending, Wallet, Transaction, MemberContext, Db, Call, Config,
}
use eurisko_final_proejct.Wallet.Transactions.{has_key}
use eurisko_final_proejct.Wallet.Service.{
  StripeDepositInput, ensure_wallet, process_stripe_deposit, request_withdrawal, approve_withdrawal,
  reject_withdrawal,
}
use eurisko_final_proejct.Wallet.Adjustment.{manual_adjustment, manual_key}
use eurisko_final_proejct.Wallet.Internal.{deduct, credit}
use eurisko_final_proejct.Wallet.Ledger.{Agree, NonNegative, balance_of, net}
use eurisko_final_proejct.Wallet.Ledger.Machine.{Moves, here, ledger, IsReached}
use eurisko_final_proejct.Wallet.Ledger.Withdrawals.{
  approve_withdrawal-IsReached, reject_withdrawal-IsReached, request_withdrawal-IsReached,
}
use eurisko_final_proejct.Wallet.Ledger.Deposits.{
  ensure_wallet-IsReached, process_stripe_deposit-IsReached, manual_adjustment-IsReached,
}
use eurisko_final_proejct.Wallet.Ledger.Trades.{deduct-IsReached, credit-IsReached}
use eurisko_final_proejct.Wallet.Ledger.Invariants.{Moves-Agree, Moves-NonNegative, Moves-closed}

-- One call of a handler. Every `_id` that MongoDB gives is new; the amount of a deposit and of a credit
-- is not negative (the checkout's range check and `@IsPositive` of the internal DTO); the random part of
-- an adjustment's key has not been drawn before. Locks expire, and other processes take them.
pub data Step (db db' : Db) : Type 0 where
  get_balance : (user : ℕ) → db' ≡ (ensure_wallet user db).1 → Step db db'
  stripe_webhook :
      (cfg : Config) (c : Call) (input : StripeDepositInput)
      → lookup c.new_id db.transactions ≡ none
      → pos 0 ≤ℤ input.amount
      → db' ≡ (process_stripe_deposit cfg c input db).1
      → Step db db'
  withdraw :
      (cfg : Config) (c : Call) (m : MemberContext) (amount : ℤ)
      → lookup c.new_id db.transactions ≡ none
      → db' ≡ (request_withdrawal cfg c m amount db).1
      → Step db db'
  approve :
      (cfg : Config) (c : Call) (id : ℕ) (cms_user : String) (m : MemberContext)
      → db' ≡ (approve_withdrawal cfg c id cms_user m db).1
      → Step db db'
  decline :
      (c : Call) (id : ℕ) (reason cms_user : String) (m : MemberContext)
      → db' ≡ (reject_withdrawal c id reason cms_user m db).1
      → Step db db'
  manual_adjust :
      (cfg : Config) (c : Call) (user : ℕ) (amount : ℤ) (justification cms_user : String)
      → lookup c.new_id db.transactions ≡ none
      → has_key (manual_key c cms_user user) db.transactions ≡ false
      → db' ≡ (manual_adjustment cfg c user amount justification cms_user db).1
      → Step db db'
  internal_deduct :
      (cfg : Config) (c : Call) (user : ℕ) (amount : ℤ) (order : String)
      → lookup c.new_id db.transactions ≡ none
      → db' ≡ (deduct cfg c user amount order db).1
      → Step db db'
  internal_credit :
      (cfg : Config) (c : Call) (user : ℕ) (amount : ℤ) (order : String)
      → lookup c.new_id db.transactions ≡ none
      → pos 0 ≤ℤ amount
      → db' ≡ (credit cfg c user amount order db).1
      → Step db db'
  locks_change : (locks : Store Entry) → db' ≡ record db { locks = locks } → Step db db'

-- Any number of calls, one after the other.
pub data Steps (db : Db) : Db → Type 0 where
  start : Steps db db
  later : {mid end : Db} → Steps db mid → Step mid end → Steps db end

-- Every call of a handler, whether it answers or throws, is a run of the abstract ledger: no money moves
-- but together with the record that accounts for it.
pub Step-Moves : {db db' : Db} → Step db db' → Moves (ledger db) (ledger db')
Step-Moves {db} (get_balance user e) = rw e (ensure_wallet-IsReached user db here)
Step-Moves {db} (stripe_webhook cfg c input fresh pays e) =
    rw e (process_stripe_deposit-IsReached cfg c input db fresh pays here)
Step-Moves {db} (withdraw cfg c m amount fresh e) =
    rw e (request_withdrawal-IsReached cfg c m amount db fresh here)
Step-Moves {db} (approve cfg c id cms_user m e) =
    rw e (approve_withdrawal-IsReached cfg c id cms_user m db here)
Step-Moves {db} (decline c id reason cms_user m e) =
    rw e (reject_withdrawal-IsReached c id reason cms_user m db here)
Step-Moves {db} (manual_adjust cfg c user amount justification cms_user fresh free e) =
    rw e (manual_adjustment-IsReached cfg c user amount justification cms_user db fresh free here)
Step-Moves {db} (internal_deduct cfg c user amount order fresh e) =
    rw e (deduct-IsReached cfg c user amount order db fresh here)
Step-Moves {db} (internal_credit cfg c user amount order fresh pays e) =
    rw e (credit-IsReached cfg c user amount order db fresh pays here)
Step-Moves (locks_change locks e) = rw e here

-- After any calls every wallet holds exactly the completed credits less the completed debits of its
-- user's records, if that was so before.
pub Steps-Agree :
    {db db' : Db}
    → Steps db db'
    → Agree db.wallets db.transactions
    → Agree db'.wallets db'.transactions
Steps-Agree start h = h
Steps-Agree (later r s) h = Moves-Agree (Step-Moves s) (Steps-Agree r h)

-- After any calls no wallet is below zero, if none was before.
pub Steps-NonNegative :
    {db db' : Db} → Steps db db' → NonNegative db.wallets → NonNegative db'.wallets
Steps-NonNegative start h = h
Steps-NonNegative (later r s) h = Moves-NonNegative (Step-Moves s) (Steps-NonNegative r h)

-- A record that is completed or rejected is the same document after any calls: it is settled once.
pub Steps-closed :
    {db db' : Db} (id : ℕ) {t : Transaction}
    → Steps db db'
    → lookup id db.transactions ≡ some t
    → t.status ≢ pending
    → lookup id db'.transactions ≡ some t
Steps-closed id start found closed = found
Steps-closed id (later r s) found closed =
    Moves-closed id (Step-Moves s) (Steps-closed id r found closed) closed
