-- ===== src/Redis/Laws.antt =====
-- What a lock's key goes through: free, set by one holder, free again. Other keys are not touched.
use text.Mathlib.TextEquality.{eq_iff}
use eurisko_final_proejct.Base.{◌≤◌, ℕ, ◌+◌, String, ◌≡◌, ◌≢◌, refl, none, some, arith}
use eurisko_final_proejct.Base.Store.{Store, lookup, insert, lookup-insert, lookup-erase}
use eurisko_final_proejct.Redis.{Entry, get, set_nx, compare_del}

-- A free key is set.
pub set_nx-free :
    (now key : ℕ) (value : String) (ttl : ℕ) (redis : Store Entry)
    → get now key redis ≡ none
    → set_nx now key value ttl redis
      ≡ some (insert key (record { value = value; expires_at = now + ttl }) redis)
unfolding set_nx
set_nx-free now key value ttl redis free = rw (free, set_nx)

-- A key that another holder has set is refused until it expires.
pub set_nx-held :
    (now key : ℕ) (value : String) (ttl : ℕ) (redis : Store Entry) {e : Entry}
    → get now key redis ≡ some e
    → set_nx now key value ttl redis ≡ none
unfolding set_nx
set_nx-held now key value ttl redis held = rw (held, set_nx)

-- The script frees the key of the holder that runs it.
pub get-compare_del :
    (now key : ℕ) (value : String) (ttl : ℕ) (redis : Store Entry)
    → get now key (
        compare_del now key value
          (insert key (record { value = value; expires_at = now + ttl }) redis))
      ≡ none
unfolding get compare_del
get-compare_del now key value ttl redis = ground (
  arith,
  (eq_iff value value).1 refl,
  lookup-insert key key (record { value = value; expires_at = now + ttl }) redis,
  lookup-erase key key (insert key (record { value = value; expires_at = now + ttl }) redis),
)

-- The script leaves a key alone that holds another value, such as that of the next holder.
pub compare_del-other :
    (now key : ℕ) (value : String) (redis : Store Entry) {e : Entry}
    → get now key redis ≡ some e
    → e.value ≢ value
    → compare_del now key value redis ≡ redis
unfolding compare_del
compare_del-other now key value redis {e} held other = ground (arith, eq_iff e.value value)

-- Neither command touches another key.
pub lookup-compare_del_ne :
    (now key k : ℕ) (value : String) (redis : Store Entry)
    → key ≢ k
    → lookup k (compare_del now key value redis) ≡ lookup k redis
unfolding compare_del
lookup-compare_del_ne now key k value redis ne = ground (arith, lookup-erase key k redis)

-- The freed key stays free.
pub get-compare_del_later :
    (now now' key : ℕ) (value : String) (ttl : ℕ) (redis : Store Entry)
    → now ≤ now'
    → get now' key (
        compare_del now key value
          (insert key (record { value = value; expires_at = now + ttl }) redis))
      ≡ none
unfolding get compare_del
get-compare_del_later now now' key value ttl redis order = ground (
  arith,
  (eq_iff value value).1 refl,
  lookup-insert key key (record { value = value; expires_at = now + ttl }) redis,
  lookup-erase key key (insert key (record { value = value; expires_at = now + ttl }) redis),
)
