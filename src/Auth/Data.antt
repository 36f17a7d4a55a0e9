-- ===== src/Auth/Data.antt =====
-- apps/auth-service/src/database/schemas/user.schema.ts, the enumerations and constants of
-- common/constants, and `calculateAge` of utils/auth.util.ts. Emails and ids are only compared, so they
-- are numbers; the users stand by their email, which is unique.
use eurisko_final_proejct.Base.{
  ℕ, String, Bool, true, ◌&&◌, ◌||◌, Option, none, some, [], ◌∷◌, ltb, ◌==◌, if◌then◌else◌,
}
use eurisko_final_proejct.Base.Int.{ℤ, pos, sub_ℕ, ◌-ℤ◌}
use eurisko_final_proejct.Base.Store.{Store}

pub data UserStatus : Type 0 where
  active suspended pending_verification : UserStatus

-- A calendar date.
pub record Date : Type 0 where
  pub year : ℕ
  pub month : ℕ
  pub day : ℕ

-- A user, found by the email.
pub record User : Type 0 where
  pub id : ℕ
  pub national_id : String
  pub full_name : String
  pub date_of_birth : Date
  pub password_hash : String
  pub status : UserStatus
  pub email_verified : Bool
  pub suspension_reason : Option String
  pub refresh_token_hash : Option String

abbrev pub activated : String → User → User
activated hash u = record u { password_hash = hash; email_verified = true; status = active }

abbrev pub min_member_age : ℤ
min_member_age = pos 18

-- `monthDiff < 0 || (monthDiff === 0 && today.getDate() < dateOfBirth.getDate())`
abbrev pub before_birthday : Date → Date → Bool
before_birthday birth today =
    ltb today.month birth.month || (today.month == birth.month && ltb today.day birth.day)

unfoldable pub calculate_age : Date → Date → ℤ
calculate_age birth today =
    let age = sub_ℕ today.year birth.year in
    if before_birthday birth today then age -ℤ pos 1 else age

-- `findById`, with the email.
unfoldable pub find_user : ℕ → Store User → Option (ℕ × User)
find_user id [] = none
find_user id ((e, u) ∷ us) = let rest = find_user id us in if u.id == id then some (e, u) else rest

-- `findByIdAndUpdate`, and `save` of a document that was read.
unfoldable pub update_user : ℕ → (User → User) → Store User → Store User
update_user id f [] = []
update_user id f ((e, u) ∷ us) =
    let rest = update_user id f us in if u.id == id then (e, f u) ∷ us else (e, u) ∷ rest
