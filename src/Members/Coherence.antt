-- ===== src/Members/Coherence.antt =====
-- Every cached profile is the stored one, and a profile that is read is the stored one.
use eurisko_final_proejct.Base.{
  ℕ, ◌≡◌, refl, none, some, List, [], ◌∷◌, ok, arith, inl, inr, Bool-cases, Option-cases, ◌==◌, ap,
}
use eurisko_final_proejct.Base.Store.{lookup, insert, lookup-insert, lookup-adjust, lookup-erase}
use eurisko_final_proejct.Members.{
  Member, Event, Db, get_profile, MemberRegisteredEvent, created, renamed, as_suspended, as_active,
  with_kyc, member_suspended, member_activated, member_kyc_updated,
}
use eurisko_final_proejct.Members.Changes.{
  touched, Effect, nothing, caching, renaming, suspending, activating, deciding, registering,
  get_profile-hit, get_profile-miss,
}
use eurisko_final_proejct.Members.Calls.{reading, Steps, start, later, Step-Effect}

abbrev pub Coherent : Db → Type 0
Coherent db =
    (user : ℕ) (m : Member) → lookup user db.profiles ≡ some m → lookup user db.members ≡ some m

touched-Coherent :
    (user : ℕ) (f : Member → Member) (news : List Event) (db : Db)
    → Coherent db
    → Coherent (touched user f news db)
touched-Coherent user f news db cached j m e = elim (Bool-cases (user == j)) [
  | inl same ↦ absurd (ground (arith, e, same, lookup-erase user j db.profiles))
  | inr other ↦
      let kept : lookup j db.members ≡ some m =
        cached j m (ground (arith, e, other, lookup-erase user j db.profiles)) in
      ground (arith, other, lookup-adjust user j f db.members, kept)
]

cache_stored :
    (user : ℕ) (db : Db) {m : Member}
    → lookup user db.members ≡ some m
    → Coherent db
    → Coherent (record db { profiles = insert user m db.profiles })
cache_stored user db {m} held cached j n e = elim (Bool-cases (user == j)) [
  | inl same ↦ ground (arith, e, same, lookup-insert user j m db.profiles, held)
  | inr other ↦ cached j n (ground (arith, e, other, lookup-insert user j m db.profiles))
]

register-Coherent :
    (now : ℕ) (e : MemberRegisteredEvent) (db : Db)
    → lookup e.user_id db.members ≡ none
    → Coherent db
    → Coherent (record db { members = insert e.user_id (created now e) db.members })
register-Coherent now e db free cached j m hit =
    let held = cached j m hit in
    ground (arith, held, free, lookup-insert e.user_id j (created now e) db.members)

Effect-Coherent : {a b : Db} → Effect a b → Coherent a → Coherent b
Effect-Coherent nothing cached = cached
Effect-Coherent {a} (caching user held) cached = cache_stored user a held cached
Effect-Coherent {a} (renaming user name held) cached =
    touched-Coherent user (renamed name) [] a cached
Effect-Coherent {a} (suspending user reason held free) cached =
    touched-Coherent user (as_suspended reason) (member_suspended user reason ∷ []) a cached
Effect-Coherent {a} (activating user held done) cached =
    touched-Coherent user as_active (member_activated user ∷ []) a cached
Effect-Coherent {a} (deciding user kyc reason held) cached =
    touched-Coherent user (with_kyc kyc) (member_kyc_updated user kyc reason ∷ []) a cached
Effect-Coherent {a} (registering now e free) cached = register-Coherent now e a free cached

Steps-Coherent : {a b : Db} → Steps a b → Coherent a → Coherent b
Steps-Coherent start cached = cached
Steps-Coherent (later before step) cached =
    Effect-Coherent (Step-Effect step) (Steps-Coherent before cached)

-- If every cached profile is the stored one, then after any calls of the user service, in any order, a
-- read of a stored member answers with the member as it is stored, and every cached profile still is
-- the stored one.
pub get_profile_stored :
    (user : ℕ) (a b : Db) (m : Member)
    → Coherent a
    → Steps a b
    → lookup user b.members ≡ some m
    → ((get_profile user b).0 ≡ ok m) × Coherent (get_profile user b).1
get_profile_stored user a b m cached steps held =
    let cached' = Steps-Coherent steps cached in
    (
      elim (Option-cases (lookup user b.profiles)) [
        | inl miss ↦ rw (get_profile-miss user b {m = m} miss held) refl
        | inr (n, hit) ↦
            let same : n ≡ m = ground (arith, cached' user n hit, held) in
            rw (get_profile-hit user b {m = n} hit) (ap (λ x. ok x) same)
      ],
      Effect-Coherent (Step-Effect (reading user)) cached',
    )
