-- ===== src/Wallet/Ledger/Machine.antt =====
-- The abstract ledger that the service implements: a machine on wallets and records with five moves. A
-- record is closed once, in the same move as its payment if it has one.
use eurisko_final_proejct.Base.{ℕ, ◌≡◌, none, some}
use eurisko_final_proejct.Base.Int.{ℤ, pos, ◌+ℤ◌, ◌≤ℤ◌}
use eurisko_final_proejct.Base.Store.{Store, lookup, insert, adjust}
use eurisko_final_proejct.Wallet.Data.{
  TransactionStatus, pending, completed, rejected, Wallet, Transaction, Db,
}
use eurisko_final_proejct.Wallet.Ledger.{signed}

pub record Ledger : Type 0 where
  pub wallets : Store Wallet
  pub transactions : Store Transaction

abbrev pub ledger : Db → Ledger
ledger db = record { wallets = db.wallets; transactions = db.transactions }

-- A record is closed with a status, and keeps what an audit reads.
pub record Closes (status : TransactionStatus) (t u : Transaction) : Type 0 where
  pub closed : u.status ≡ status
  pub same_user : u.user_id ≡ t.user_id
  pub same_type : u.type_of ≡ t.type_of
  pub same_amount : u.amount ≡ t.amount
  pub same_before : u.balance_before ≡ t.balance_before
  pub same_key : u.idempotency_key ≡ t.idempotency_key

-- A wallet changes by an amount, and not from zero or more to below zero.
pub record Pays (d : ℤ) (w v : Wallet) : Type 0 where
  pub moved : v.balance ≡ w.balance +ℤ d
  pub solvent : pos 0 ≤ℤ w.balance → pos 0 ≤ℤ v.balance

pub data Move (a b : Ledger) : Type 0 where
  open_wallet :
      (user : ℕ) (w : Wallet)
      → lookup user a.wallets ≡ none
      → w.balance ≡ pos 0
      → b ≡ record a { wallets = insert user w a.wallets }
      → Move a b
  note :
      (id : ℕ) (t : Transaction)
      → lookup id a.transactions ≡ none
      → t.status ≡ pending
      → b ≡ record a { transactions = insert id t a.transactions }
      → Move a b
  refuse :
      (id : ℕ) (g : Transaction → Transaction) (t : Transaction)
      → lookup id a.transactions ≡ some t
      → t.status ≡ pending
      → Closes rejected t (g t)
      → b ≡ record a { transactions = adjust id g a.transactions }
      → Move a b
  pay :
      (id : ℕ) (f : Wallet → Wallet) (g : Transaction → Transaction) (w : Wallet) (t : Transaction)
      → lookup t.user_id a.wallets ≡ some w
      → lookup id a.transactions ≡ some t
      → t.status ≡ pending
      → Pays (signed t.type_of t.amount) w (f w)
      → Closes completed t (g t)
      → b ≡ record {
        wallets = adjust t.user_id f a.wallets;
        transactions = adjust id g a.transactions;
      }
      → Move a b
  book :
      (id : ℕ) (f : Wallet → Wallet) (w : Wallet) (t : Transaction)
      → lookup t.user_id a.wallets ≡ some w
      → lookup id a.transactions ≡ none
      → t.status ≡ completed
      → Pays (signed t.type_of t.amount) w (f w)
      → b ≡ record {
        wallets = adjust t.user_id f a.wallets;
        transactions = insert id t a.transactions;
      }
      → Move a b

-- Any number of moves.
pub data Moves (a : Ledger) : Ledger → Type 0 where
  here : Moves a a
  next : {b c : Ledger} → Moves a b → Move b c → Moves a c

-- What a handler has reached from a ledger.
abbrev pub Reached : Ledger → Store Wallet → Store Transaction → Type 0
Reached a ws ts = Moves a (record { wallets = ws; transactions = ts })

abbrev pub IsReached : Ledger → Db → Type 0
IsReached a db = Reached a db.wallets db.transactions
