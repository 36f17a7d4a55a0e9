-- ===== src/Auth/Cms/Administrators.antt =====
-- The staff never loses its last active administrator, whatever the calls.
use eurisko_final_proejct.Base.{
  ℕ, ◌+◌, ◌≤◌, String, ◌≡◌, ◌≢◌, Bool, true, false, ◌&&◌, none, some, [], ◌∷◌, ok, err, arith, inl,
  inr, Bool-cases, Option-cases, ◌==◌, leb, if◌then◌else◌, subst,
}
use eurisko_final_proejct.Base.Store.{Store, lookup, insert, adjust}
use eurisko_final_proejct.Auth.Cms.{
  CmsUser, Db, Library, Call, CreateCmsUserDto, is_administrator, find_one, count_documents,
  active_administrator, deactivated, with_new_password, deactivate_user, new_cms_user, create_user,
  change_password, super_admin, seed_super_admin, own_account, user_not_found, last_administrator,
  with_email,
}

-- 1 if the test holds, and 0 otherwise.
abbrev one_if : Bool → ℕ
one_if b = if b then 1 else 0

count-insert :
    (filter : CmsUser → Bool) (k : ℕ) (new : CmsUser) (us : Store CmsUser)
    → lookup k us ≡ none
    → count_documents filter (insert k new us) ≡ count_documents filter us + one_if (filter new)
unfolding lookup insert count_documents
count-insert filter k new [] fresh = ground arith
count-insert filter k new ((j, u) ∷ us) fresh = elim (Bool-cases (j == k)) [
  | inl same ↦ absurd (ground (arith, same, fresh))
  | inr other ↦ ground (arith, other, count-insert filter k new us (ground (arith, other, fresh)))
]

count-adjust :
    (filter : CmsUser → Bool) (k : ℕ) (f : CmsUser → CmsUser) (us : Store CmsUser) {u : CmsUser}
    → lookup k us ≡ some u
    → count_documents filter (adjust k f us) + one_if (filter u)
      ≡ count_documents filter us + one_if (filter (f u))
unfolding lookup adjust count_documents
count-adjust filter k f [] held = absurd (ground arith)
count-adjust filter k f ((j, v) ∷ us) {u} held = elim (Bool-cases (j == k)) [
  | inl same ↦
      let it : v ≡ u = ground (arith, same, held) in
      subst
        (λ (w : CmsUser).
          count_documents filter (adjust k f ((j, v) ∷ us)) + one_if (filter w)
          ≡ count_documents filter ((j, v) ∷ us) + one_if (filter (f w)))
        it (ground (arith, same))
  | inr other ↦
      ground (arith, other, count-adjust filter k f us {u = u} (ground (arith, other, held)))
]

-- There is an active administrator.
abbrev pub Administered : Db → Type 0
Administered db = 1 ≤ count_documents active_administrator db.users

module _ (id requesting : ℕ) (db : Db) where
  deactivate_user-own : id ≡ requesting → deactivate_user id requesting db ≡ (err own_account, db)
  unfolding deactivate_user
  deactivate_user-own same = ground (arith, same)

  deactivate_user-missing :
      id ≢ requesting
      → lookup id db.users ≡ none
      → deactivate_user id requesting db ≡ (err user_not_found, db)
  unfolding deactivate_user
  deactivate_user-missing other missing = ground (arith, missing)

  module _ {u : CmsUser} where
    deactivate_user-last :
        id ≢ requesting
        → lookup id db.users ≡ some u
        → (is_administrator u.role && leb (count_documents active_administrator db.users) 1) ≡ true
        → deactivate_user id requesting db ≡ (err last_administrator, db)
    unfolding deactivate_user
    deactivate_user-last other held last = ground (arith, held, last)

    deactivate_user-done :
        id ≢ requesting
        → lookup id db.users ≡ some u
        → (is_administrator u.role && leb (count_documents active_administrator db.users) 1) ≡ false
        → deactivate_user id requesting db
          ≡ (ok tt, record db { users = adjust id deactivated db.users })
    unfolding deactivate_user
    deactivate_user-done other held more = ground (arith, held, more)

  deactivate_user-Administered : Administered db → Administered (deactivate_user id requesting db).1
  deactivate_user-Administered some_ = elim (Bool-cases (id == requesting)) [
    | inl same ↦ rw (deactivate_user-own (ground (arith, same))) some_
    | inr other ↦
        let ne : id ≢ requesting = ground (arith, other) in
        elim (Option-cases (lookup id db.users)) [
          | inl missing ↦ rw (deactivate_user-missing ne missing) some_
          | inr (u, held) ↦
              elim (Bool-cases (
                is_administrator u.role && leb (count_documents active_administrator db.users) 1)) [
                  | inl last ↦ rw (deactivate_user-last {u = u} ne held last) some_
                  | inr more ↦ rw (deactivate_user-done {u = u} ne held more) (
                      ground (
                        arith,
                        more,
                        some_,
                        count-adjust active_administrator id deactivated db.users {u = u} held,
                      ))
                ]
        ]
  ]

module _ (lib : Library) (c : Call) where
  create_user-Administered :
      (dto : CreateCmsUserDto) (creator : ℕ) (db : Db)
      → lookup c.new_id db.users ≡ none
      → Administered db
      → Administered (create_user lib c dto creator db).1
  unfolding create_user
  create_user-Administered dto creator db fresh some_ =
      elim (Option-cases (find_one (with_email (lib.to_lower dto.email)) db.users)) [
        | inl free ↦ ground (
          arith,
          free,
          some_,
          count-insert active_administrator c.new_id (new_cms_user lib c dto creator) db.users
              fresh,
        )
        | inr (u, taken) ↦ ground (arith, taken, some_)
      ]

  change_password-Administered :
      (id : ℕ) (current new : String) (db : Db)
      → Administered db
      → Administered (change_password lib c id current new db).1
  unfolding change_password
  change_password-Administered id current new db some_ = elim (Option-cases (lookup id db.users)) [
    | inl missing ↦ ground (arith, missing, some_)
    | inr (u, held) ↦ elim (Bool-cases (lib.compare current u.password_hash)) [
      | inl same ↦ ground (
        arith,
        held,
        same,
        some_,
        count-adjust active_administrator id (with_new_password (lib.hash c.salt new)) db.users
            {u = u} held,
      )
      | inr other ↦ ground (arith, held, other, some_)
    ]
  ]

  -- What seeding does: nothing if there is an administrator, and else a new active one.
  seed_super_admin-skipped :
      (email : ℕ) (password : String) (db : Db)
      → 1 ≤ count_documents (λ u. is_administrator u.role) db.users
      → seed_super_admin lib c email password db ≡ (ok tt, db)
  unfolding seed_super_admin
  seed_super_admin-skipped email password db some_ = ground (arith, some_)

  seed_super_admin-done :
      (email : ℕ) (password : String) (db : Db)
      → count_documents (λ u. is_administrator u.role) db.users ≡ 0
      → find_one (with_email (lib.to_lower email)) db.users ≡ none
      → seed_super_admin lib c email password db
        ≡ (ok tt, record db { users = insert c.new_id (super_admin lib c email password) db.users })
  unfolding seed_super_admin
  seed_super_admin-done email password db none_ free = ground (arith, none_, free)

-- The calls of the service that change its state; a new document's id is new.
pub data Step (lib : Library) : Db → Db → Type 0 where
  creating :
      (c : Call) (dto : CreateCmsUserDto) (creator : ℕ) {db : Db}
      → lookup c.new_id db.users ≡ none
      → Step lib db (create_user lib c dto creator db).1
  deactivating : (id requesting : ℕ) {db : Db} → Step lib db (deactivate_user id requesting db).1
  changing :
      (c : Call) (id : ℕ) (current new : String) {db : Db}
      → Step lib db (change_password lib c id current new db).1

pub data Steps (lib : Library) : Db → Db → Type 0 where
  start : {db : Db} → Steps lib db db
  later : {a b d : Db} → Steps lib a b → Step lib b d → Steps lib a d

Step-Administered : {lib : Library} {a b : Db} → Step lib a b → Administered a → Administered b
Step-Administered {lib} (creating c dto creator {db} fresh) some_ =
    create_user-Administered lib c dto creator db fresh some_
Step-Administered (deactivating id requesting {db}) some_ =
    deactivate_user-Administered id requesting db some_
Step-Administered {lib} (changing c id current new {db}) some_ =
    change_password-Administered lib c id current new db some_

Steps-Administered : {lib : Library} {a b : Db} → Steps lib a b → Administered a → Administered b
Steps-Administered start some_ = some_
Steps-Administered (later before step) some_ =
    Step-Administered step (Steps-Administered before some_)

-- If the staff has no administrator, nobody in it has the seed's email, and the seed's id is new, then
-- seeding creates an active administrator, seeding again changes nothing, and after any later calls of the service, in any order, there still is an
-- active administrator.
pub seed_super_admin-Administered :
    (lib : Library) (c again : Call) (email email' : ℕ) (password password' : String)
    (db after : Db)
    → count_documents (λ u. is_administrator u.role) db.users ≡ 0
    → find_one (with_email (lib.to_lower email)) db.users ≡ none
    → lookup c.new_id db.users ≡ none
    → Steps lib (seed_super_admin lib c email password db).1 after
    → let seeded = (seed_super_admin lib c email password db).1 in
      (seed_super_admin lib again email' password' seeded ≡ (ok tt, seeded)) × Administered after
seed_super_admin-Administered lib c again email email' password password' db after none_ free fresh
      steps =
    let new = super_admin lib c email password in
    let e = seed_super_admin-done lib c email password db none_ free in
    let counted = count-insert (λ u. is_administrator u.role) c.new_id new db.users fresh in
    let seeded : Administered (seed_super_admin lib c email password db).1 =
      rw e (ground (arith, count-insert active_administrator c.new_id new db.users fresh)) in
    (
      rw e (seed_super_admin-skipped lib again email' password' _ (ground (arith, counted))),
      Steps-Administered steps seeded,
    )
