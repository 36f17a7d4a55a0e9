-- ===== src/Redis.antt =====
-- The Redis commands that the lock services call: `SET key value NX` with an expiry, and the script
-- that deletes a key only if it holds the caller's value (RELEASE_SCRIPT of
-- apps/wallet-service/src/modules/lock/lock.service.ts and `releaseLock` of
-- apps/trading-service/src/modules/cache/cache.service.ts). Times are in milliseconds; a key that has
-- expired counts as absent.
pub mod Laws
use text.Mathlib.Text.{◌==◌ as str_eq}
use eurisko_final_proejct.Base.{
  ℕ, ◌+◌, String, Bool, true, false, Option, none, some, leb, if◌then◌else◌,
}
use eurisko_final_proejct.Base.Store.{Store, lookup, insert, erase}

pub record Entry : Type 0 where
  pub value : String
  pub expires_at : ℕ

-- What `GET` sees at a time.
unfoldable pub get : ℕ → ℕ → Store Entry → Option Entry
get now key redis = elim (lookup key redis) [
  | none ↦ none
  | some e ↦ if leb e.expires_at now then none else some e
]

-- `SET key value NX` with a time to live: the new contents, if the key was free.
unfoldable pub set_nx : ℕ → ℕ → String → ℕ → Store Entry → Option (Store Entry)
unfolding get
set_nx now key value ttl redis = elim (get now key redis) [
  | none ↦ some (insert key (record { value = value; expires_at = now + ttl }) redis)
  | some _ ↦ none
]

-- The release script: `GET` and `DEL` in one step.
unfoldable pub compare_del : ℕ → ℕ → String → Store Entry → Store Entry
unfolding get
compare_del now key value redis = elim (get now key redis) [
  | none ↦ redis
  | some e ↦ if str_eq e.value value then erase key redis else redis
]
