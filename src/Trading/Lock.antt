-- ===== src/Trading/Lock.antt =====
-- apps/trading-service/src/modules/lock/lock.service.ts, with `acquireLock` and `releaseLock` of
-- modules/cache/cache.service.ts: one lock for each member, asked for at most three times.
pub mod Exclusion
use eurisko_final_proejct.Base.{ℕ, zero, suc, ◌+◌, ◌*◌, String, Option, none, some, ok, err, Action}
use eurisko_final_proejct.Redis.{set_nx, compare_del}
use eurisko_final_proejct.Trading.Data.{Db, Error, operation_in_progress, Call}

abbrev pub max_retries : ℕ
max_retries = 3

abbrev pub retry_delay_ms : ℕ
retry_delay_ms = 200

-- What the rest of the system does to the state while a call sleeps.
abbrev pub Pause : Type 0 → Type 0
Pause W = ℕ → Db W → Db W

-- A call after a sleep.
abbrev pub slept : ℕ → Call → Call
slept ms c = record c { now = c.now + ms }

module _ {W : Type 0} where
  -- The token, or null if another call holds the lock.
  unfoldable pub acquire_lock : ℕ → Call → ℕ → Db W → Option String × Db W
  acquire_lock ttl c member db = elim (set_nx c.now member c.lock_token ttl db.locks) [
    | some locks ↦ (some c.lock_token, record db { locks = locks })
    | none ↦ (none, db)
  ]

  unfoldable pub release_lock : Call → ℕ → String → Db W → Db W
  release_lock c member token db = record db { locks = compare_del c.now member token db.locks }

  -- The loop: `left` tries remain, `attempt` have failed. The call comes back with the time it is then.
  unfoldable pub try_lock : ℕ → Pause W → ℕ → ℕ → Call → ℕ → Db W → (Option String × Call) × Db W
  try_lock ttl pause zero attempt c member db = ((none, c), db)
  try_lock ttl pause (suc left) attempt c member db =
      let (token, db') = acquire_lock ttl c member db in
      let ms = retry_delay_ms * suc attempt in
      let rest = try_lock ttl pause left (suc attempt) (slept ms c) member (pause ms db') in
      elim token [ some t ↦ ((some t, c), db') | none ↦ rest ]

  abbrev pub with_token :
      {A : Type 0}
      → ℕ
      → (Call → Action (Db W) Error A)
      → Option String × Call
      → Action (Db W) Error A
  with_token member body (none, c) db = (err operation_in_progress, db)
  with_token member body (some token, c) db =
      let (r, db') = body c db in (r, release_lock c member token db')

  unfoldable pub with_member_lock :
      {A : Type 0} → ℕ → Pause W → Call → ℕ → (Call → Action (Db W) Error A) → Action (Db W) Error A
  with_member_lock ttl pause c member body db =
      let (tried, db') = try_lock ttl pause max_retries 0 c member db in
      with_token member body tried db'
