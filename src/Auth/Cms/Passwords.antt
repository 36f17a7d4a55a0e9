-- ===== src/Auth/Cms/Passwords.antt =====
-- A new member of the staff, from the temporary password to an own one.
use eurisko_final_proejct.Base.{
  ℕ, String, ◌≡◌, ◌≢◌, ◌↔◌, refl, Bool, true, false, none, some, [], ◌∷◌, ◌++◌, ok, is_ok, arith,
  inl, inr, Bool-cases, ap, ◌∙◌, ◌==◌,
}
use eurisko_final_proejct.Base.Store.{Store, lookup, insert, adjust, lookup-insert_self}
use eurisko_final_proejct.Auth.Cms.{
  CmsUser, Db, Library, Call, CreateCmsUserDto, find_one, with_email, active_with_email,
  with_new_password, new_cms_user, login, create_user, change_password, cms_provisioned,
}

-- bcrypt compares what it reads of two texts, which is at most 72 bytes.
pub record BcryptLaws (lib : Library) : Type 0 where
  pub seen : String → String
  pub compare-hash_iff :
      (a salt b : String) → (lib.compare a (lib.hash salt b) ≡ true) ↔ (seen a ≡ seen b)

reads_differ :
    (lib : Library) (laws : BcryptLaws lib) (a salt b : String)
    → laws.seen a ≢ laws.seen b
    → lib.compare a (lib.hash salt b) ≡ false
reads_differ lib laws a salt b differ = elim (Bool-cases (lib.compare a (lib.hash salt b))) [
  | inl same ↦ absurd (differ ((laws.compare-hash_iff a salt b).0 same))
  | inr other ↦ other
]

find_one-insert :
    (email k : ℕ) (new : CmsUser) (us : Store CmsUser)
    → find_one (with_email email) us ≡ none
    → lookup k us ≡ none
    → active_with_email email new ≡ true
    → find_one (active_with_email email) (insert k new us) ≡ some (k, new)
unfolding find_one lookup insert
find_one-insert email k new [] free fresh fits = ground (arith, fits)
find_one-insert email k new ((j, u) ∷ us) free fresh fits = elim (Bool-cases (j == k)) [
  | inl same ↦ absurd (ground (arith, same, fresh))
  | inr other ↦ elim (Bool-cases (with_email email u)) [
    | inl hit ↦ absurd (ground (arith, hit, free))
    | inr miss ↦ ground (
      arith,
      other,
      miss,
      find_one-insert email k new us (ground (arith, miss, free)) (ground (arith, other, fresh))
          fits,
    )
  ]
]

find_one-adjust :
    (filter : CmsUser → Bool) (k : ℕ) (f : CmsUser → CmsUser) (us : Store CmsUser) {u : CmsUser}
    → find_one filter us ≡ some (k, u)
    → lookup k us ≡ some u
    → filter (f u) ≡ true
    → find_one filter (adjust k f us) ≡ some (k, f u)
unfolding find_one lookup adjust
find_one-adjust filter k f [] found held fits = absurd (ground arith)
find_one-adjust filter k f ((j, v) ∷ us) {u} found held fits = elim (Bool-cases (j == k)) [
  | inl same ↦
      let it : v ≡ u = ground (arith, same, held) in
      let fits' : filter (f v) ≡ true = rw it fits in ground (arith, same, fits', ap f it)
  | inr other ↦ elim (Bool-cases (filter v)) [
    | inl hit ↦ absurd (ground (arith, hit, found, other))
    | inr miss ↦ ground (
      arith,
      other,
      miss,
      find_one-adjust filter k f us {u = u} (ground (arith, miss, found))
          (ground (arith, other, held)) fits,
    )
  ]
]

module _ (lib : Library) (c : Call) where
  login-found :
      (email : ℕ) (password : String) (db : Db) {id : ℕ} {u : CmsUser}
      → find_one (active_with_email (lib.to_lower email)) db.users ≡ some (id, u)
      → (is_ok (login lib c email password db).0 ≡ lib.compare password u.password_hash)
        × ((login lib c email password db).1 ≡ db)
  unfolding login
  login-found email password db {id} {u} found =
      elim (Bool-cases (lib.compare password u.password_hash)) [
        | inl same ↦ (ground (arith, found, same), ground (arith, found, same))
        | inr other ↦ (ground (arith, found, other), ground (arith, found, other))
      ]

  -- The state after a creation.
  abbrev pub provisioned : CreateCmsUserDto → ℕ → Db → Db
  provisioned dto creator db = record {
    users = insert c.new_id (new_cms_user lib c dto creator) db.users;
    events =
        db.events
        ++ cms_provisioned c.new_id (lib.to_lower dto.email) dto.full_name dto.role
            c.temporary_password
          ∷ [];
  }

  create_user-done :
      (dto : CreateCmsUserDto) (creator : ℕ) (db : Db)
      → find_one (with_email (lib.to_lower dto.email)) db.users ≡ none
      → create_user lib c dto creator db ≡ (ok c.new_id, provisioned dto creator db)
  unfolding create_user
  create_user-done dto creator db free = ground (arith, free)

  change_password-done :
      (id : ℕ) (current new : String) (db : Db) {u : CmsUser}
      → lookup id db.users ≡ some u
      → lib.compare current u.password_hash ≡ true
      → change_password lib c id current new db ≡ (
        ok tt,
        record db { users = adjust id (with_new_password (lib.hash c.salt new)) db.users },
      )
  unfolding change_password
  change_password-done id current new db held same = ground (arith, held, same)

-- A user created with an unused email and a new id can log in with the temporary password; after the
-- change to an own password that bcrypt reads differently, the own password logs in and the temporary
-- one does not.
pub create_user_then_change_password :
    (lib : Library) (c c1 c2 : Call) (dto : CreateCmsUserDto) (creator : ℕ) (own : String) (db : Db)
    (laws : BcryptLaws lib)
    → find_one (with_email (lib.to_lower dto.email)) db.users ≡ none
    → lookup c.new_id db.users ≡ none
    → laws.seen c.temporary_password ≢ laws.seen own
    → let (r, db1) = create_user lib c dto creator db in
      let (s, db2) = change_password lib c1 c.new_id c.temporary_password own db1 in
      (r ≡ ok c.new_id)
      × (is_ok (login lib c2 dto.email c.temporary_password db1).0 ≡ true)
      × (s ≡ ok tt)
      × (is_ok (login lib c2 dto.email own db2).0 ≡ true)
      × (is_ok (login lib c2 dto.email c.temporary_password db2).0 ≡ false)
create_user_then_change_password lib c c1 c2 dto creator own db laws free fresh differ =
    let email = lib.to_lower dto.email in
    let new = new_cms_user lib c dto creator in
    let db1 = provisioned lib c dto creator db in
    let set = with_new_password (lib.hash c1.salt own) in
    let held = lookup-insert_self c.new_id new db.users in
    let found1 = find_one-insert email c.new_id new db.users free fresh (ground arith) in
    let found2 =
      find_one-adjust (active_with_email email) c.new_id set db1.users found1 held (ground arith) in
    let temp = (laws.compare-hash_iff c.temporary_password c.salt c.temporary_password).1 refl in
    let db2 : Db = record db1 { users = adjust c.new_id set db1.users } in
    let refused = reads_differ lib laws c.temporary_password c1.salt own differ in
    rw
      (
        create_user-done lib c dto creator db free,
        change_password-done lib c1 c.new_id c.temporary_password own db1 held temp,
      )
      (
        refl,
        (login-found lib c2 dto.email c.temporary_password db1 found1).0 ∙ temp,
        refl,
        (login-found lib c2 dto.email own db2 found2).0
            ∙ (laws.compare-hash_iff own c1.salt own).1 refl,
        (login-found lib c2 dto.email c.temporary_password db2 found2).0 ∙ refused,
      )
