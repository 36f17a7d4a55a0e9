-- ===== src/Auth/Accounts.antt =====
-- apps/auth-service/src/modules/auth/auth-service.service.ts: registration, login, the sessions and the
-- password reset, with modules/token/token.service.ts. Hashing (bcrypt) and signing (JWT) are parameters.
pub mod Registration
pub mod Tests
use text.Mathlib.Text.{◌==◌ as str_eq}
use eurisko_final_proejct.Base.{
  ℕ, String, Bool, true, false, not, ◌||◌, Option, none, some, List, [], ◌∷◌, ◌++◌, Result, ok, err,
  Action, ◌>>=◌, ◌>>◌, pure, throw, gets, or_throw, throw_if, modify, ◌==◌, if◌then◌else◌,
}
use eurisko_final_proejct.Base.Int.{ltb_ℤ}
use eurisko_final_proejct.Base.Store.{Store, lookup, insert}
use eurisko_final_proejct.Auth.Data.{
  Date, User, UserStatus, active, suspended, pending_verification, min_member_age, calculate_age,
  find_user, update_user,
}
use eurisko_final_proejct.Auth.Otp.{
  Otp, Error, OtpPurpose, email_verification, password_reset, create_and_send, validate,
  set_password, was_verified,
}

-- `JwtPayload`, as far as it is read.
pub record JwtPayload : Type 0 where
  pub sub : ℕ
  pub email : ℕ

-- `bcrypt.hash` with its salt, `bcrypt.compare`, `jwtService.sign` for the two kinds of token at a time, and
-- `jwtService.verifyAsync` at a time.
pub record Crypto : Type 0 where
  pub hash_password : String → String → String
  pub compare_password : String → String → Bool
  pub sign_access : ℕ → JwtPayload → String
  pub sign_refresh : ℕ → JwtPayload → String
  pub verify : ℕ → String → Option JwtPayload

pub record TokenPair : Type 0 where
  pub access_token : String
  pub refresh_token : String

-- The messages `notification.otp.send` and `member.registered`.
pub data Event : Type 0 where
  otp_sent : (user_id email : ℕ) (name otp : String) (expires_in_minutes : ℕ) → Event
  member_registered :
      (user_id : ℕ) (full_name : String) (email : ℕ) (national_id : String) (date_of_birth : Date)
      → Event

pub record Db : Type 0 where
  pub users : Store User
  pub otps : List Otp
  pub events : List Event

-- The exceptions; those of the codes come from the code service.
pub data AccountError : Type 0 where
  email_taken national_id_taken too_young no_such_user already_verified : AccountError
  invalid_credentials email_not_verified invalid_refresh_token session_not_found : AccountError
  token_reuse_detected account_suspended : AccountError
  suspended_because : Option String → AccountError
  otp_error : Error → AccountError

-- What one call draws from outside: the clock, the date, a code, a salt, the `_id` of a new user.
pub record Call : Type 0 where
  pub now : ℕ
  pub today : Date
  pub code : String
  pub salt : String
  pub new_id : ℕ
  pub otp_minutes : ℕ

pub record RegisterDto : Type 0 where
  pub full_name : String
  pub email : ℕ
  pub national_id : String
  pub date_of_birth : Date

-- `findOne({ $or: [{ email }, { nationalId }] })`
unfoldable pub find_either : ℕ → String → Store User → Option (ℕ × User)
find_either email national_id [] = none
find_either email national_id ((e, u) ∷ us) =
    let rest = find_either email national_id us in
    if e == email || str_eq u.national_id national_id then some (e, u) else rest

-- The two tests of the document that was found.
abbrev pub taken : ℕ → String → Option (ℕ × User) → Option AccountError
taken email national_id none = none
taken email national_id (some (e, u)) =
    if e == email
    then some email_taken
    else if str_eq u.national_id national_id
    then some national_id_taken
    else none

abbrev pub new_user : Call → RegisterDto → User
new_user c dto = record {
  id = c.new_id;
  national_id = dto.national_id;
  full_name = dto.full_name;
  date_of_birth = dto.date_of_birth;
  password_hash = "PENDING";
  status = pending_verification;
  email_verified = false;
  suspension_reason = none;
  refresh_token_hash = none;
}

abbrev pub refuse : Option AccountError → Action Db AccountError (Unit {0})
refuse none = pure tt
refuse (some e) = throw e

-- `createAndSend`, with its message.
abbrev pub send_code : Call → ℕ → User → OtpPurpose → Action Db AccountError (Unit {0})
send_code c email u purpose = modify (λ db. record db {
  otps = create_and_send c.now c.otp_minutes c.code u.id purpose db.otps;
  events = db.events ++ otp_sent u.id email u.full_name c.code c.otp_minutes ∷ [];
})

-- `otpService.validate`
unfoldable pub validate_code : Call → ℕ → String → OtpPurpose → Action Db AccountError (Unit {0})
validate_code c user code purpose db =
    let (r, otps) = validate c.now user code purpose db.otps in
    elim r [
      | ok _ ↦ (ok tt, record db { otps = otps })
      | err e ↦ (err (otp_error e), record db { otps = otps })
    ]

unfoldable pub register : Call → RegisterDto → Action Db AccountError (Unit {0})
register c dto = do
  existing ← gets (λ db. find_either dto.email dto.national_id db.users)
  refuse (taken dto.email dto.national_id existing)
  throw_if (ltb_ℤ (calculate_age dto.date_of_birth c.today) min_member_age) too_young
  modify (λ db. record db { users = insert dto.email (new_user c dto) db.users })
  send_code c dto.email (new_user c dto) email_verification

abbrev pub find_by_email : ℕ → Action Db AccountError (Option User)
find_by_email email = gets (λ db. lookup email db.users)

unfoldable pub verify_otp : Call → ℕ → String → Action Db AccountError (Unit {0})
verify_otp c email code = do
  user ← or_throw (← find_by_email email) no_such_user
  validate_code c user.id code email_verification

abbrev pub resend_to : Call → ℕ → Option User → Action Db AccountError (Unit {0})
resend_to c email none = pure tt
resend_to c email (some user) = do
  throw_if user.email_verified already_verified
  send_code c email user email_verification

unfoldable pub resend_otp : Call → ℕ → Action Db AccountError (Unit {0})
resend_otp c email = do resend_to c email (← find_by_email email)

module _ (crypto : Crypto) where
  -- `setPassword`: the change of the user, then the message.
  unfoldable pub activate : Call → ℕ → String → String → Action Db AccountError (Unit {0})
  activate c email code password db =
      let hash = crypto.hash_password c.salt password in
      let (r, users) = set_password c.now email code hash db.otps db.users in
      elim r [
        | err e ↦ (err (otp_error e), record db { users = users })
        | ok _ ↦ (ok tt, record db { users = users; events = db.events ++ registered users })
      ]
    where
      registered : Store User → List Event
      registered users = elim (lookup email users) [
        | none ↦ []
        | some u ↦ member_registered u.id u.full_name email u.national_id u.date_of_birth ∷ []
      ]
