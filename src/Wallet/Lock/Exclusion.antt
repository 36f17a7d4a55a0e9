-- ===== src/Wallet/Lock/Exclusion.antt =====
-- The wallet lock excludes a second holder, is always given back, and never frees another's lock.
use eurisko_final_proejct.Base.{ℕ, ◌+◌, String, ◌≡◌, ◌≢◌, ◌∙◌, none, some, Action, err, arith}
use eurisko_final_proejct.Base.Store.{lookup, insert, lookup-insert}
use eurisko_final_proejct.Redis.{Entry, get}
use eurisko_final_proejct.Redis.Laws.{
  set_nx-free, set_nx-held, get-compare_del, lookup-compare_del_ne, compare_del-other,
}
use eurisko_final_proejct.Wallet.Data.{Db, Error, wallet_locked, Call, Config}
use eurisko_final_proejct.Wallet.Lock.{acquire, release, with_lock, ttl}

module _ {A : Type 0} (cfg : Config) (c : Call) (user : ℕ) (body : Action Db Error A)
    (db : Db) where
  -- While somebody holds the user's lock, the handler answers 503 and changes nothing.
  pub with_lock-held :
      {e : Entry}
      → get c.now user db.locks ≡ some e
      → with_lock cfg c user body db ≡ (err wallet_locked, db)
  unfolding with_lock acquire
  with_lock-held held = ground (arith, set_nx-held c.now user c.lock_token (ttl cfg) db.locks held)

  -- The state in which the body runs.
  abbrev pub locked : Db
  locked = record db {
    locks = insert user (record { value = c.lock_token; expires_at = c.now + ttl cfg }) db.locks;
  }

  pub with_lock-free :
      get c.now user db.locks ≡ none
      → with_lock cfg c user body db
        ≡ ((body locked).0, release c user c.lock_token (body locked).1)
  unfolding with_lock acquire
  with_lock-free free = ground (arith, set_nx-free c.now user c.lock_token (ttl cfg) db.locks free)

  -- If the lock was free and the body leaves the locks alone, then afterwards the user's lock is free
  -- again, however the body ended, and no other user's lock has changed.
  pub with_lock-released :
      get c.now user db.locks ≡ none
      → (body locked).1.locks ≡ locked.locks
      → (get c.now user (with_lock cfg c user body db).1.locks ≡ none)
        × ((k : ℕ) → user ≢ k → lookup k (with_lock cfg c user body db).1.locks ≡ lookup k db.locks)
  unfolding release
  with_lock-released free kept = (
    rw (with_lock-free free) (rw kept (get-compare_del c.now user c.lock_token (ttl cfg) db.locks)),
    λ k ne. rw (with_lock-free free) (
        rw kept (
          lookup-compare_del_ne c.now user k c.lock_token _ ne
          ∙ ground (
            arith,
            lookup-insert user k (record { value = c.lock_token; expires_at = c.now + ttl cfg })
                db.locks,
          ))),
  )

-- A late release, after the lock has expired and another holder has it, frees nothing.
pub release-late :
    (c : Call) (user : ℕ) (token : String) (db : Db) {e : Entry}
    → get c.now user db.locks ≡ some e
    → e.value ≢ token
    → release c user token db ≡ db
unfolding release
release-late c user token db held other =
    ground (arith, compare_del-other c.now user token db.locks held other)
