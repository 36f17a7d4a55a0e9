-- ===== src/Wallet/Lock.antt =====
-- apps/wallet-service/src/modules/lock/lock.service.ts: one lock for each user's wallet.
pub mod Exclusion
pub mod Tests
use mathlib.Core.Option.{get_or}
use eurisko_final_proejct.Base.{
  ℕ, ◌+◌, ◌*◌, ◌/◌, String, Option, none, some, ok, err, Action, ◌>>=◌,
}
use eurisko_final_proejct.Redis.{set_nx, compare_del}
use eurisko_final_proejct.Wallet.Data.{Db, Error, wallet_locked, Call, Config}

-- `Math.ceil(this.ttlMs / 1000)` seconds, in milliseconds; 5000 where it is not configured.
abbrev pub ttl : Config → ℕ
ttl cfg = (get_or cfg.lock_ttl_ms 5000 + 999) / 1000 * 1000

-- The token, or null under contention.
unfoldable pub acquire : Config → Call → ℕ → Action Db Error (Option String)
acquire cfg c user db = elim (set_nx c.now user c.lock_token (ttl cfg) db.locks) [
  | some locks ↦ (ok (some c.lock_token), record db { locks = locks })
  | none ↦ (ok none, db)
]

unfoldable pub release : Call → ℕ → String → Db → Db
release c user token db = record db { locks = compare_del c.now user token db.locks }

-- `try { return await fn(); } finally { release }`
abbrev pub with_token :
    {A : Type 0} → Call → ℕ → Option String → Action Db Error A → Action Db Error A
with_token c user none body db = (err wallet_locked, db)
with_token c user (some token) body db = let (r, db') = body db in (r, release c user token db')

unfoldable pub with_lock : {A : Type 0} → Config → Call → ℕ → Action Db Error A → Action Db Error A
with_lock cfg c user body = do token ← acquire cfg c user; with_token c user token body
