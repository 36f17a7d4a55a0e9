-- ===== src/Wallet/Outcomes.antt =====
-- What the steps that the handlers share do, one lemma for each way that they end. With these the steps
-- stay shut in the proofs about a handler.
pub mod Withdrawals
pub mod Deposits
pub mod Trades
pub mod Endpoints
use eurisko_final_proejct.Base.{
  ℕ, ◌+◌, String, ◌>>=◌, ◌≡◌, ◌≢◌, refl, Option, none, some, true, false, Bool, Action, ok, err,
  arith, inl, inr, Option-cases, ◌⊎◌,
}
use eurisko_final_proejct.Base.Store.{Store, lookup, insert, adjust}
use eurisko_final_proejct.Redis.{Entry, set_nx, compare_del}
use eurisko_final_proejct.Wallet.Data.{
  Wallet, Transaction, Db, Call, Config, Error, wallet_locked, duplicate_key,
}
use eurisko_final_proejct.Wallet.Transactions.{CreateTransactionInput, create, document, has_key}
use eurisko_final_proejct.Wallet.Lock.{acquire, release, with_lock, ttl}
use eurisko_final_proejct.Wallet.Service.{find_one_and_update, ensure_wallet, new_wallet}

pub find_one_and_update-missing :
    (user : ℕ) (guard : Wallet → Bool) (f : Wallet → Wallet) (db : Db)
    → lookup user db.wallets ≡ none
    → find_one_and_update user guard f db ≡ (ok none, db)
unfolding find_one_and_update
find_one_and_update-missing user guard f db missing = rw (missing, find_one_and_update)

pub find_one_and_update-refused :
    (user : ℕ) (guard : Wallet → Bool) (f : Wallet → Wallet) (db : Db) {w : Wallet}
    → lookup user db.wallets ≡ some w
    → guard w ≡ false
    → find_one_and_update user guard f db ≡ (ok none, db)
unfolding find_one_and_update
find_one_and_update-refused user guard f db held no_match = rw (held, no_match, find_one_and_update)

pub find_one_and_update-done :
    (user : ℕ) (guard : Wallet → Bool) (f : Wallet → Wallet) (db : Db) {w : Wallet}
    → lookup user db.wallets ≡ some w
    → guard w ≡ true
    → find_one_and_update user guard f db
      ≡ (ok (some (f w)), record db { wallets = adjust user f db.wallets })
unfolding find_one_and_update
find_one_and_update-done user guard f db held fits = rw (held, fits, find_one_and_update)

pub ensure_wallet-found :
    (user : ℕ) (db : Db) {w : Wallet}
    → lookup user db.wallets ≡ some w
    → ensure_wallet user db ≡ (ok w, db)
unfolding ensure_wallet
ensure_wallet-found user db held = rw (held, ensure_wallet)

pub ensure_wallet-missing :
    (user : ℕ) (db : Db)
    → lookup user db.wallets ≡ none
    → ensure_wallet user db
      ≡ (ok new_wallet, record db { wallets = insert user new_wallet db.wallets })
unfolding ensure_wallet
ensure_wallet-missing user db missing = rw (missing, ensure_wallet)

pub create-duplicate :
    (c : Call) (input : CreateTransactionInput) (db : Db)
    → has_key input.idempotency_key db.transactions ≡ true
    → create c input db ≡ (err duplicate_key, db)
unfolding create
create-duplicate c input db taken = rw taken

pub create-done :
    (c : Call) (input : CreateTransactionInput) (db : Db)
    → has_key input.idempotency_key db.transactions ≡ false
    → create c input db ≡ (
      ok c.new_id,
      record db { transactions = insert c.new_id (document c input) db.transactions },
    )
unfolding create
create-done c input db free = rw free

pub acquire-held :
    (cfg : Config) (c : Call) (user : ℕ) (db : Db)
    → set_nx c.now user c.lock_token (ttl cfg) db.locks ≡ none
    → acquire cfg c user db ≡ (ok none, db)
unfolding acquire
acquire-held cfg c user db held = rw (held, acquire)

pub acquire-free :
    (cfg : Config) (c : Call) (user : ℕ) (db : Db) {locks : Store Entry}
    → set_nx c.now user c.lock_token (ttl cfg) db.locks ≡ some locks
    → acquire cfg c user db ≡ (ok (some c.lock_token), record db { locks = locks })
unfolding acquire
acquire-free cfg c user db free = rw (free, acquire)

-- The body runs with the lock's key set, or the handler answers 503 and changes nothing.
pub with_lock-cases :
    {A : Type 0} (cfg : Config) (c : Call) (user : ℕ) (body : Action Db Error A) (db : Db)
    → (with_lock cfg c user body db ≡ (err wallet_locked, db))
      ⊎ ((locks : Store Entry) × (set_nx c.now user c.lock_token (ttl cfg) db.locks ≡ some locks)
          × (with_lock cfg c user body db ≡ (
            (body (record db { locks = locks })).0,
            release c user c.lock_token (body (record db { locks = locks })).1,
          )))
unfolding with_lock
with_lock-cases cfg c user body db =
    elim (Option-cases (set_nx c.now user c.lock_token (ttl cfg) db.locks)) [
      | inl held ↦ inl (ground (arith, acquire-held cfg c user db held))
      | inr (locks, free) ↦ inr (locks, free, ground (arith, acquire-free cfg c user db free))
    ]
