-- ===== src/Members/Changes.antt =====
-- What a call of the user service may do to its state: the specification that every handler implements.
use eurisko_final_proejct.Base.{
  ℕ, String, ◌≡◌, true, false, not, ◌&&◌, Option, none, some, List, [], ◌∷◌, ◌++◌, ok, err, arith,
  inl, inr, Bool-cases, Option-cases, append_nil,
}
use eurisko_final_proejct.Base.Store.{lookup, insert, adjust, erase}
use eurisko_final_proejct.Members.{
  Member, KycStatus, Event, member_suspended, member_activated, member_kyc_updated, Db,
  is_suspended, is_rejected, is_given, get_profile, renamed, update_profile, as_suspended,
  as_active, with_kyc, suspend_member, unsuspend_member, update_kyc, MemberRegisteredEvent, created,
  member_not_found, already_suspended, not_suspended, reason_required,
}

-- A stored member is changed and the cached one deleted, and messages follow.
abbrev pub touched : ℕ → (Member → Member) → List Event → Db → Db
touched user f news db = record {
  members = adjust user f db.members;
  profiles = erase user db.profiles;
  events = db.events ++ news;
}

pub data Effect (db : Db) : Db → Type 0 where
  nothing : Effect db db
  caching :
      (user : ℕ) {m : Member}
      → lookup user db.members ≡ some m
      → Effect db (record db { profiles = insert user m db.profiles })
  renaming :
      (user : ℕ) (name : Option String) {m : Member}
      → lookup user db.members ≡ some m
      → Effect db (touched user (renamed name) [] db)
  suspending :
      (user : ℕ) (reason : Option String) {m : Member}
      → lookup user db.members ≡ some m
      → is_suspended m.status ≡ false
      → Effect db (touched user (as_suspended reason) (member_suspended user reason ∷ []) db)
  activating :
      (user : ℕ) {m : Member}
      → lookup user db.members ≡ some m
      → is_suspended m.status ≡ true
      → Effect db (touched user as_active (member_activated user ∷ []) db)
  deciding :
      (user : ℕ) (kyc : KycStatus) (reason : Option String) {m : Member}
      → lookup user db.members ≡ some m
      → Effect db (touched user (with_kyc kyc) (member_kyc_updated user kyc reason ∷ []) db)
  registering :
      (now : ℕ) (e : MemberRegisteredEvent)
      → lookup e.user_id db.members ≡ none
      → Effect db (record db { members = insert e.user_id (created now e) db.members })

module _ (user : ℕ) (db : Db) where
  pub get_profile-hit :
      {m : Member} → lookup user db.profiles ≡ some m → get_profile user db ≡ (ok m, db)
  unfolding get_profile
  get_profile-hit hit = ground (arith, hit)

  pub get_profile-miss :
      {m : Member}
      → lookup user db.profiles ≡ none
      → lookup user db.members ≡ some m
      → get_profile user db ≡ (ok m, record db { profiles = insert user m db.profiles })
  unfolding get_profile
  get_profile-miss miss held = ground (arith, miss, held)

  pub get_profile-missing :
      lookup user db.profiles ≡ none
      → lookup user db.members ≡ none
      → get_profile user db ≡ (err member_not_found, db)
  unfolding get_profile
  get_profile-missing miss missing = ground (arith, miss, missing)

  pub get_profile-Effect : Effect db (get_profile user db).1
  get_profile-Effect = elim (Option-cases (lookup user db.profiles)) [
    | inr (m, hit) ↦ rw (get_profile-hit {m = m} hit) nothing
    | inl miss ↦ elim (Option-cases (lookup user db.members)) [
      | inl missing ↦ rw (get_profile-missing miss missing) nothing
      | inr (m, held) ↦ rw (get_profile-miss {m = m} miss held) (caching user held)
    ]
  ]

  module _ {m : Member} (held : lookup user db.members ≡ some m) where
    pub suspend_member-done :
        (reason : Option String)
        → is_suspended m.status ≡ false
        → suspend_member user reason db ≡ (
          ok (as_suspended reason m),
          touched user (as_suspended reason) (member_suspended user reason ∷ []) db,
        )
    unfolding suspend_member
    suspend_member-done reason free = ground (arith, held, free)

    pub suspend_member-again :
        (reason : Option String)
        → is_suspended m.status ≡ true
        → suspend_member user reason db ≡ (err already_suspended, db)
    unfolding suspend_member
    suspend_member-again reason done = ground (arith, held, done)

    pub unsuspend_member-done :
        is_suspended m.status ≡ true
        → unsuspend_member user db
          ≡ (ok (as_active m), touched user as_active (member_activated user ∷ []) db)
    unfolding unsuspend_member
    unsuspend_member-done done = ground (arith, held, done)

    pub unsuspend_member-refused :
        is_suspended m.status ≡ false → unsuspend_member user db ≡ (err not_suspended, db)
    unfolding unsuspend_member
    unsuspend_member-refused free = ground (arith, held, free)

    pub update_profile-done :
        (name : Option String)
        → update_profile user name db ≡ (ok (renamed name m), touched user (renamed name) [] db)
    unfolding update_profile
    update_profile-done name = ground (arith, held, append_nil db.events)

    pub update_kyc-done :
        (kyc : KycStatus) (reason : Option String)
        → (is_rejected kyc && not (is_given reason)) ≡ false
        → update_kyc user kyc reason db ≡ (
          ok (with_kyc kyc m),
          touched user (with_kyc kyc) (member_kyc_updated user kyc reason ∷ []) db,
        )
    unfolding update_kyc
    update_kyc-done kyc reason fine = ground (arith, held, fine)

  module _ (missing : lookup user db.members ≡ none) where
    -- Without the member, every call answers that there is none.
    pub missing_member :
        (reason name : Option String) (kyc : KycStatus)
        → (suspend_member user reason db ≡ (err member_not_found, db))
          × (unsuspend_member user db ≡ (err member_not_found, db))
          × (update_profile user name db ≡ (err member_not_found, db))
          × ((update_kyc user kyc reason db).1 ≡ db)
    unfolding suspend_member unsuspend_member update_profile update_kyc
    missing_member reason name kyc = (
      ground (arith, missing),
      ground (arith, missing),
      ground (arith, missing),
      elim (Bool-cases (is_rejected kyc && not (is_given reason))) [
        | inl refused ↦ ground (arith, refused)
        | inr fine ↦ ground (arith, fine, missing)
      ],
    )

  pub update_kyc-refused :
      (kyc : KycStatus) (reason : Option String)
      → (is_rejected kyc && not (is_given reason)) ≡ true
      → update_kyc user kyc reason db ≡ (err reason_required, db)
  unfolding update_kyc
  update_kyc-refused kyc reason refused = ground (arith, refused)
