-- ===== src/Members/Calls.antt =====
-- The calls of the user service as steps, each of which implements the specification.
use text.Mathlib.Text.{◌==◌ as str_eq}
use eurisko_final_proejct.Base.{
  ℕ, String, ◌≡◌, refl, true, false, not, ◌&&◌, Option, none, [], ◌∷◌, arith, inl, inr, Bool,
  Bool-cases, Option-cases, ◌==◌, ◌||◌,
}
use eurisko_final_proejct.Base.Store.{Store, lookup}
use eurisko_final_proejct.Members.{
  Member, KycStatus, kyc_pending, Db, is_suspended, is_rejected, is_given, get_profile,
  update_profile, suspend_member, unsuspend_member, update_kyc, MemberRegisteredEvent, is_duplicate,
  handle_registered,
}
use eurisko_final_proejct.Members.Changes.{
  Effect, nothing, renaming, suspending, activating, deciding, registering, get_profile-Effect,
  suspend_member-done, suspend_member-again, unsuspend_member-done, unsuspend_member-refused,
  update_profile-done, update_kyc-done, update_kyc-refused, missing_member,
}

module _ (user : ℕ) (db : Db) where
  suspend_member-Effect : (reason : Option String) → Effect db (suspend_member user reason db).1
  suspend_member-Effect reason = elim (Option-cases (lookup user db.members)) [
    | inl missing ↦ rw (missing_member user db missing reason none kyc_pending).0 nothing
    | inr (m, held) ↦ elim (Bool-cases (is_suspended m.status)) [
      | inl done ↦ rw (suspend_member-again user db held reason done) nothing
      | inr free ↦
          rw (suspend_member-done user db held reason free) (suspending user reason held free)
    ]
  ]

  unsuspend_member-Effect : Effect db (unsuspend_member user db).1
  unsuspend_member-Effect = elim (Option-cases (lookup user db.members)) [
    | inl missing ↦ rw (missing_member user db missing none none kyc_pending).1 nothing
    | inr (m, held) ↦ elim (Bool-cases (is_suspended m.status)) [
      | inl done ↦ rw (unsuspend_member-done user db held done) (activating user held done)
      | inr free ↦ rw (unsuspend_member-refused user db held free) nothing
    ]
  ]

  update_profile-Effect : (name : Option String) → Effect db (update_profile user name db).1
  update_profile-Effect name = elim (Option-cases (lookup user db.members)) [
    | inl missing ↦ rw (missing_member user db missing none name kyc_pending).2 nothing
    | inr (m, held) ↦ rw (update_profile-done user db held name) (renaming user name held)
  ]

  update_kyc-Effect :
      (kyc : KycStatus) (reason : Option String) → Effect db (update_kyc user kyc reason db).1
  update_kyc-Effect kyc reason = elim (Option-cases (lookup user db.members)) [
    | inl missing ↦ rw (missing_member user db missing reason none kyc).3 nothing
    | inr (m, held) ↦ elim (Bool-cases (is_rejected kyc && not (is_given reason))) [
      | inl refused ↦ rw (update_kyc-refused user db kyc reason refused) nothing
      | inr fine ↦ rw (update_kyc-done user db held kyc reason fine) (deciding user kyc reason held)
    ]
  ]

or_right : (a b : Bool) → (a || b) ≡ false → b ≡ false
or_right true b e = absurd (ground (arith, e))
or_right false b e = e

unused_id :
    (e : MemberRegisteredEvent) (ms : Store Member)
    → is_duplicate e ms ≡ false
    → lookup e.user_id ms ≡ none
unfolding is_duplicate lookup
unused_id e [] free = refl
unused_id e ((id, m) ∷ ms) free = elim (Bool-cases (id == e.user_id)) [
  | inl same ↦ absurd (ground (arith, same, free))
  | inr other ↦ ground (
    arith,
    other,
    unused_id e ms (
        or_right (id == e.user_id || (str_eq m.email e.email || str_eq m.national_id e.national_id))
          (is_duplicate e ms) free),
  )
]

handle_registered-Effect :
    (now : ℕ) (e : MemberRegisteredEvent) (db : Db) → Effect db (handle_registered now e db)
unfolding handle_registered
handle_registered-Effect now e db = elim (Bool-cases (is_duplicate e db.members)) [
  | inl seen ↦ rw seen nothing
  | inr free ↦ rw free (registering now e (unused_id e db.members free))
]

-- The calls, at any time and with any arguments.
pub data Step (db : Db) : Db → Type 0 where
  reading : (user : ℕ) → Step db (get_profile user db).1
  naming : (user : ℕ) (name : Option String) → Step db (update_profile user name db).1
  suspending_ : (user : ℕ) (reason : Option String) → Step db (suspend_member user reason db).1
  unsuspending : (user : ℕ) → Step db (unsuspend_member user db).1
  judging :
      (user : ℕ) (kyc : KycStatus) (reason : Option String)
      → Step db (update_kyc user kyc reason db).1
  receiving : (now : ℕ) (e : MemberRegisteredEvent) → Step db (handle_registered now e db)

pub data Steps : Db → Db → Type 0 where
  start : {db : Db} → Steps db db
  later : {a b c : Db} → Steps a b → Step b c → Steps a c

pub Step-Effect : {a b : Db} → Step a b → Effect a b
Step-Effect {a} (reading user) = get_profile-Effect user a
Step-Effect {a} (naming user name) = update_profile-Effect user a name
Step-Effect {a} (suspending_ user reason) = suspend_member-Effect user a reason
Step-Effect {a} (unsuspending user) = unsuspend_member-Effect user a
Step-Effect {a} (judging user kyc reason) = update_kyc-Effect user a kyc reason
Step-Effect {a} (receiving now e) = handle_registered-Effect now e a
