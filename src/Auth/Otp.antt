-- ===== src/Auth/Otp.antt =====
-- apps/auth-service/src/modules/otp/otp.service.ts, and `setPassword` of
-- modules/auth/auth-service.service.ts. The documents stand newest first, which is the order of
-- `sort({ createdAt: -1 })`; times are in milliseconds; the code and the password's hash come from outside.
pub mod Flow
pub mod Tests
use text.Mathlib.Text.{◌==◌ as str_eq}
use eurisko_final_proejct.Base.{
  ℕ, ◌+◌, ◌*◌, String, Bool, true, false, not, ◌&&◌, ◌||◌, Option, none, some, List, [], ◌∷◌, map,
  Result, ok, err, leb, ltb, ◌==◌, if◌then◌else◌,
}
use eurisko_final_proejct.Base.Store.{Store, lookup, insert}
use eurisko_final_proejct.Auth.Data.{User, activated}

pub data OtpPurpose : Type 0 where
  email_verification password_reset : OtpPurpose

abbrev pub same_purpose : OtpPurpose → OtpPurpose → Bool
same_purpose email_verification email_verification = true
same_purpose password_reset password_reset = true
same_purpose _ _ = false

-- `OtpVerification`
pub record Otp : Type 0 where
  pub user_id : ℕ
  pub code : String
  pub purpose : OtpPurpose
  pub used : Bool
  pub expires_at : ℕ
  pub created_at : ℕ

pub data Error : Type 0 where
  no_pending_otp already_used otp_expired incorrect_code user_not_found not_verified : Error

-- `{ userId, purpose }`
abbrev pub is_for : ℕ → OtpPurpose → Otp → Bool
is_for user purpose o = o.user_id == user && same_purpose o.purpose purpose

abbrev pub use_up : Otp → Otp
use_up o = record o { used = true }

-- `updateMany({ userId, purpose, used: false }, { used: true })`
abbrev pub supersede : ℕ → OtpPurpose → Otp → Otp
supersede user purpose o = if is_for user purpose o && not o.used then use_up o else o

abbrev pub ms_per_minute : ℕ
ms_per_minute = 60_000

abbrev pub new_otp : ℕ → ℕ → String → ℕ → OtpPurpose → Otp
new_otp now minutes code user purpose = record {
  user_id = user;
  code = code;
  purpose = purpose;
  used = false;
  expires_at = now + minutes * ms_per_minute;
  created_at = now;
}

unfoldable pub create_and_send : ℕ → ℕ → String → ℕ → OtpPurpose → List Otp → List Otp
create_and_send now minutes code user purpose otps =
    new_otp now minutes code user purpose ∷ map (supersede user purpose) otps

-- `findOne({ userId, purpose }).sort({ createdAt: -1 })`
unfoldable pub latest : ℕ → OtpPurpose → List Otp → Option Otp
latest user purpose [] = none
latest user purpose (o ∷ os) =
    let rest = latest user purpose os in if is_for user purpose o then some o else rest

-- `otp.used = true; otp.save()` of that document.
unfoldable pub use_latest : ℕ → OtpPurpose → List Otp → List Otp
use_latest user purpose [] = []
use_latest user purpose (o ∷ os) =
    let rest = use_latest user purpose os in
    if is_for user purpose o then use_up o ∷ os else o ∷ rest

abbrev pub check : ℕ → String → Otp → Option Error
check now code o =
    if o.used
    then some already_used
    else if ltb o.expires_at now
    then some otp_expired
    else if str_eq o.code code
    then none
    else some incorrect_code

unfoldable pub validate : ℕ → ℕ → String → OtpPurpose → List Otp → Result Error Otp × List Otp
validate now user code purpose otps = elim (latest user purpose otps) [
  | none ↦ (err no_pending_otp, otps)
  | some o ↦ elim (check now code o) [
    | some e ↦ (err e, otps)
    | none ↦ (ok (use_up o), use_latest user purpose otps)
  ]
]

-- 15 minutes. `createdAt >= now - window` is written with the window on the other side.
abbrev pub grace_ms : ℕ
grace_ms = 15 * ms_per_minute

abbrev pub counts_as_verified : ℕ → ℕ → String → OtpPurpose → Otp → Bool
counts_as_verified now user code purpose o =
    is_for user purpose o && (o.used && (str_eq o.code code && leb now (o.created_at + grace_ms)))

unfoldable pub was_verified : ℕ → ℕ → String → OtpPurpose → List Otp → Bool
was_verified now user code purpose [] = false
was_verified now user code purpose (o ∷ os) =
    counts_as_verified now user code purpose o || was_verified now user code purpose os

-- `setPassword`, with the users by their email.
unfoldable pub set_password :
    ℕ → ℕ → String → String → List Otp → Store User → Result Error (Unit {0}) × Store User
set_password now email code hash otps users = elim (lookup email users) [
  | none ↦ (err user_not_found, users)
  | some u ↦
      if was_verified now u.id code email_verification otps
      then (ok tt, insert email (activated hash u) users)
      else (err not_verified, users)
]
