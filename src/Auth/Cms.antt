-- ===== src/Auth/Cms.antt =====
-- apps/auth-service/src/modules/cms-auth/cms-auth.service.ts: the accounts of the staff, each by its id.
-- Hashing and signing are parameters, and so is `toLowerCase` on emails, which are numbers here.
pub mod Administrators
pub mod Passwords
pub mod Tests
use eurisko_final_proejct.Base.{
  ℕ, ◌+◌, suc, String, Bool, true, false, not, ◌&&◌, Option, none, some, List, [], ◌∷◌, ◌++◌,
  Action, ok, err, ◌>>=◌, ◌>>◌, pure, throw, gets, or_throw, throw_if, modify, ltb, leb, ◌==◌,
  is_some, if◌then◌else◌,
}
use eurisko_final_proejct.Base.Store.{Store, lookup, insert, adjust}

pub data CmsRole : Type 0 where
  administrator analyst support_agent : CmsRole

-- `CmsUser`
pub record CmsUser : Type 0 where
  pub email : ℕ
  pub full_name : String
  pub role : CmsRole
  pub password_hash : String
  pub must_change_password : Bool
  pub is_active : Bool
  pub created_by_user_id : Option ℕ
  pub created_at : ℕ

-- `CmsJwtPayload`
pub record CmsJwtPayload : Type 0 where
  pub sub : ℕ
  pub email : ℕ
  pub role : CmsRole

-- The message `notification.cms.provisioned`.
pub data Event : Type 0 where
  cms_provisioned :
      (user_id email : ℕ) (name : String) (role : CmsRole) (temporary_password : String) → Event

pub record Db : Type 0 where
  pub users : Store CmsUser
  pub events : List Event

pub data CmsError : Type 0 where
  invalid_credentials email_taken user_not_found own_account last_administrator : CmsError
  wrong_password duplicate_email : CmsError

-- `bcrypt.hash` with its salt, `bcrypt.compare`, `jwtService.sign` at a time, and `toLowerCase`.
pub record Library : Type 0 where
  pub hash : String → String → String
  pub compare : String → String → Bool
  pub sign : ℕ → CmsJwtPayload → String
  pub to_lower : ℕ → ℕ

-- What one call draws from outside: the clock, a salt, the `_id` of a new user, the random password.
pub record Call : Type 0 where
  pub now : ℕ
  pub salt : String
  pub new_id : ℕ
  pub temporary_password : String

pub record CreateCmsUserDto : Type 0 where
  pub email : ℕ
  pub full_name : String
  pub role : CmsRole

abbrev pub is_administrator : CmsRole → Bool
is_administrator administrator = true
is_administrator _ = false

-- `findOne` of a filter, with the id.
unfoldable pub find_one : (CmsUser → Bool) → Store CmsUser → Option (ℕ × CmsUser)
find_one filter [] = none
find_one filter ((id, u) ∷ us) =
    let rest = find_one filter us in if filter u then some (id, u) else rest

-- `countDocuments` of a filter.
unfoldable pub count_documents : (CmsUser → Bool) → Store CmsUser → ℕ
count_documents filter [] = 0
count_documents filter ((_, u) ∷ us) =
    let rest = count_documents filter us in if filter u then suc rest else rest

abbrev pub active_administrator : CmsUser → Bool
active_administrator u = is_administrator u.role && u.is_active

abbrev pub with_email : ℕ → CmsUser → Bool
with_email email u = u.email == email

abbrev pub active_with_email : ℕ → CmsUser → Bool
active_with_email email u = with_email email u && u.is_active

abbrev pub deactivated : CmsUser → CmsUser
deactivated u = record u { is_active = false }

abbrev pub with_new_password : String → CmsUser → CmsUser
with_new_password hash u = record u { password_hash = hash; must_change_password = false }

abbrev pub find_by_id : ℕ → Action Db CmsError (Option CmsUser)
find_by_id id = gets (λ db. lookup id db.users)

unfoldable pub get_user_by_id : ℕ → Action Db CmsError CmsUser
get_user_by_id id = do or_throw (← find_by_id id) user_not_found

-- The last active administrator stays.
unfoldable pub deactivate_user : ℕ → ℕ → Action Db CmsError (Unit {0})
deactivate_user id requesting = do
  throw_if (id == requesting) own_account
  user ← or_throw (← find_by_id id) user_not_found
  admins ← gets (λ db. count_documents active_administrator db.users)
  throw_if (is_administrator user.role && leb admins 1) last_administrator
  modify (λ db. record db { users = adjust id deactivated db.users })

-- `find({ isActive: true })`, as a filter.
abbrev pub listed : CmsUser → Bool
listed u = u.is_active

module _ (lib : Library) where
  abbrev pub new_cms_user : Call → CreateCmsUserDto → ℕ → CmsUser
  new_cms_user c dto creator = record {
    email = lib.to_lower dto.email;
    full_name = dto.full_name;
    role = dto.role;
    password_hash = lib.hash c.salt c.temporary_password;
    must_change_password = true;
    is_active = true;
    created_by_user_id = some creator;
    created_at = c.now;
  }

  unfoldable pub login : Call → ℕ → String → Action Db CmsError (String × ℕ × CmsUser)
  login c email password = do
    found ← gets (λ db. find_one (active_with_email (lib.to_lower email)) db.users)
    user ← or_throw found invalid_credentials
    throw_if (not (lib.compare password user.1.password_hash)) invalid_credentials
    pure (
      lib.sign c.now (record { sub = user.0; email = user.1.email; role = user.1.role }),
      user.0,
      user.1,
    )

  unfoldable pub create_user : Call → CreateCmsUserDto → ℕ → Action Db CmsError ℕ
  create_user c dto creator = do
    existing ← gets (λ db. find_one (with_email (lib.to_lower dto.email)) db.users)
    throw_if (is_some existing) email_taken
    modify (λ db. record db { users = insert c.new_id (new_cms_user c dto creator) db.users })
    modify (λ db. record db {
      events =
          db.events
          ++ cms_provisioned c.new_id (lib.to_lower dto.email) dto.full_name dto.role
              c.temporary_password
            ∷ [];
    })
    pure c.new_id

  unfoldable pub change_password : Call → ℕ → String → String → Action Db CmsError (Unit {0})
  change_password c id current new = do
    user ← or_throw (← find_by_id id) user_not_found
    throw_if (not (lib.compare current user.password_hash)) wrong_password
    modify
        (λ db. record db { users = adjust id (with_new_password (lib.hash c.salt new)) db.users })

  -- `seedSuperAdmin`, with the email and the password of the environment.
  abbrev pub super_admin : Call → ℕ → String → CmsUser
  super_admin c email password = record {
    email = lib.to_lower email;
    full_name = "Omar Al-Admin";
    role = administrator;
    password_hash = lib.hash c.salt password;
    must_change_password = false;
    is_active = true;
    created_by_user_id = none;
    created_at = c.now;
  }

  -- The unique index on the email refuses a second document with it, by an error that is not caught.
  abbrev pub seed : Call → ℕ → String → Bool → Action Db CmsError (Unit {0})
  seed c email password true = pure tt
  seed c email password false = do
    taken ← gets (λ db. find_one (with_email (lib.to_lower email)) db.users)
    throw_if (is_some taken) duplicate_email
    modify (λ db. record db { users = insert c.new_id (super_admin c email password) db.users })

  unfoldable pub seed_super_admin : Call → ℕ → String → Action Db CmsError (Unit {0})
  seed_super_admin c email password = do
    admins ← gets (λ db. count_documents (λ u. is_administrator u.role) db.users)
    seed c email password (ltb 0 admins)
