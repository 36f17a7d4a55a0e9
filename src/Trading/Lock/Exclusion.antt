-- ===== src/Trading/Lock/Exclusion.antt =====
-- The member's lock: a handler runs at most once, under it, and gives it back.
use eurisko_final_proejct.Base.{ℕ, ◌+◌, ◌≡◌, ◌≢◌, none, some, Action, err, arith, ◌∙◌}
use eurisko_final_proejct.Base.Store.{lookup, insert, lookup-insert}
use eurisko_final_proejct.Redis.{Entry, get}
use eurisko_final_proejct.Redis.Laws.{
  set_nx-free, set_nx-held, get-compare_del, lookup-compare_del_ne,
}
use eurisko_final_proejct.Trading.Data.{Db, Error, operation_in_progress, Call}
use eurisko_final_proejct.Trading.Lock.{
  acquire_lock, release_lock, Pause, slept, try_lock, with_member_lock,
}

module _ {W : Type 0} (ttl : ℕ) (c : Call) (member : ℕ) (db : Db W) where
  -- The state in which the handler runs.
  abbrev pub locked : Db W
  locked = record db {
    locks = insert member (record { value = c.lock_token; expires_at = c.now + ttl }) db.locks;
  }

  pub acquire_lock-free :
      get c.now member db.locks ≡ none → acquire_lock ttl c member db ≡ (some c.lock_token, locked)
  unfolding acquire_lock
  acquire_lock-free free = ground (arith, set_nx-free c.now member c.lock_token ttl db.locks free)

  pub acquire_lock-held :
      {e : Entry} → get c.now member db.locks ≡ some e → acquire_lock ttl c member db ≡ (none, db)
  unfolding acquire_lock
  acquire_lock-held held = ground (arith, set_nx-held c.now member c.lock_token ttl db.locks held)

module _ {W A : Type 0} (ttl : ℕ) (pause : Pause W) (c : Call) (member : ℕ)
    (body : Call → Action (Db W) Error A) (db : Db W) where
  pub with_member_lock-free :
      get c.now member db.locks ≡ none
      → with_member_lock ttl pause c member body db ≡ (
        (body c (locked ttl c member db)).0,
        release_lock c member c.lock_token (body c (locked ttl c member db)).1,
      )
  unfolding with_member_lock try_lock
  with_member_lock-free free = ground (arith, acquire_lock-free ttl c member db free)

  -- A lock that another call holds at all three tries, 200 and 400 ms apart, ends in a conflict: the
  -- handler is not run, and the state is what the others made of it meanwhile.
  pub with_member_lock-conflict :
      {e1 e2 e3 : Entry}
      → get c.now member db.locks ≡ some e1
      → get (c.now + 200) member (pause 200 db).locks ≡ some e2
      → get (c.now + 200 + 400) member (pause 400 (pause 200 db)).locks ≡ some e3
      → with_member_lock ttl pause c member body db
        ≡ (err operation_in_progress, pause 600 (pause 400 (pause 200 db)))
  unfolding with_member_lock try_lock
  with_member_lock-conflict h1 h2 h3 = ground (
    arith,
    acquire_lock-held ttl c member db h1,
    acquire_lock-held ttl (slept 200 c) member (pause 200 db) h2,
    acquire_lock-held ttl (slept 400 (slept 200 c)) member (pause 400 (pause 200 db)) h3,
  )

  -- If the lock was free and the handler leaves the locks alone, then afterwards the member's lock is free
  -- again, however the handler ended, and no other member's lock has changed.
  pub with_member_lock-released :
      get c.now member db.locks ≡ none
      → (body c (locked ttl c member db)).1.locks ≡ (locked ttl c member db).locks
      → (get c.now member (with_member_lock ttl pause c member body db).1.locks ≡ none)
        × ((k : ℕ)
            → member ≢ k
            → lookup k (with_member_lock ttl pause c member body db).1.locks ≡ lookup k db.locks)
  unfolding release_lock
  with_member_lock-released free kept = (
    rw (with_member_lock-free free)
        (rw kept (get-compare_del c.now member c.lock_token ttl db.locks)),
    λ k ne. rw (with_member_lock-free free) (
        rw kept (
          lookup-compare_del_ne c.now member k c.lock_token _ ne
          ∙ ground (
            arith,
            lookup-insert member k (record { value = c.lock_token; expires_at = c.now + ttl })
                db.locks,
          ))),
  )
