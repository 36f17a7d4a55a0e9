-- ===== src/Auth/Sessions.antt =====
-- The sessions of apps/auth-service/src/modules/auth/auth-service.service.ts (login, rotation, logout,
-- password reset) and modules/token/token.service.ts.
pub mod Rotation
pub mod Access
pub mod Reuse
pub mod Reset
pub mod Tests
use eurisko_final_proejct.Base.{
  ℕ, String, Bool, true, false, not, Option, none, some, Action, ok, err, ◌>>=◌, ◌>>◌, pure, throw,
  gets, or_throw, throw_if, modify, if◌then◌else◌,
}
use eurisko_final_proejct.Base.Store.{lookup}
use eurisko_final_proejct.Auth.Data.{
  User, UserStatus, active, suspended, pending_verification, find_user, update_user,
}
use eurisko_final_proejct.Auth.Otp.{password_reset}
use eurisko_final_proejct.Auth.Accounts.{
  JwtPayload, Crypto, TokenPair, Db, AccountError, Call, find_by_email, send_code, validate_code,
  invalid_credentials, email_not_verified, suspended_because, invalid_refresh_token,
  session_not_found, token_reuse_detected, account_suspended, no_such_user,
}

abbrev pub is_suspended : UserStatus → Bool
is_suspended suspended = true
is_suspended _ = false

abbrev pub with_refresh_hash : Option String → User → User
with_refresh_hash hash u = record u { refresh_token_hash = hash }

abbrev pub with_password : String → User → User
with_password hash u = record u { password_hash = hash }

abbrev pub write_user : ℕ → (User → User) → Action Db AccountError (Unit {0})
write_user id f = modify (λ db. record db { users = update_user id f db.users })

-- `revokeRefreshToken`
unfoldable pub revoke_refresh_token : ℕ → Action Db AccountError (Unit {0})
revoke_refresh_token id = write_user id (with_refresh_hash none)

unfoldable pub logout : ℕ → Action Db AccountError (Unit {0})
logout id = revoke_refresh_token id

abbrev pub forgot : Call → ℕ → Option User → Action Db AccountError (Unit {0})
forgot c email none = pure tt
forgot c email (some user) = send_code c email user password_reset

unfoldable pub forgot_password : Call → ℕ → Action Db AccountError (Unit {0})
forgot_password c email = do forgot c email (← find_by_email email)

module _ (crypto : Crypto) where
  abbrev pub payload_of : ℕ → ℕ → JwtPayload
  payload_of id email = record { sub = id; email = email }

  abbrev pub token_pair : Call → ℕ → ℕ → TokenPair
  token_pair c id email = record {
    access_token = crypto.sign_access c.now (payload_of id email);
    refresh_token = crypto.sign_refresh c.now (payload_of id email);
  }

  -- `issueTokenPair`: the hash of the new refresh token replaces the old one.
  unfoldable pub issue_token_pair : Call → ℕ → ℕ → Action Db AccountError TokenPair
  issue_token_pair c id email = do
    write_user id (
        with_refresh_hash
          (some (crypto.hash_password c.salt (token_pair c id email).refresh_token)))
    pure (token_pair c id email)

  unfoldable pub login : Call → ℕ → String → Action Db AccountError (TokenPair × User)
  login c email password = do
    user ← or_throw (← find_by_email email) invalid_credentials
    throw_if (not user.email_verified) email_not_verified
    throw_if (is_suspended user.status) (suspended_because user.suspension_reason)
    throw_if (not (crypto.compare_password password user.password_hash)) invalid_credentials
    tokens ← issue_token_pair c user.id email
    pure (tokens, user)

  -- `user?.refreshTokenHash`, with the user.
  abbrev pub session_of : Option (ℕ × User) → Option (ℕ × User × String)
  session_of none = none
  session_of (some (email, u)) = elim u.refresh_token_hash [
    | none ↦ none
    | some hash ↦ some (email, u, hash)
  ]

  -- A token that does not match revokes the session before the exception.
  abbrev pub reject_reuse : Bool → ℕ → Action Db AccountError (Unit {0})
  reject_reuse true id = pure tt
  reject_reuse false id = revoke_refresh_token id >> throw token_reuse_detected

  unfoldable pub refresh : Call → String → Action Db AccountError TokenPair
  refresh c token = do
    payload ← or_throw (crypto.verify c.now token) invalid_refresh_token
    found ← gets (λ db. find_user payload.sub db.users)
    session ← or_throw (session_of found) session_not_found
    reject_reuse (crypto.compare_password token session.2) session.1.id
    throw_if (is_suspended session.1.status) account_suspended
    issue_token_pair c session.1.id session.0

  unfoldable pub reset_password : Call → ℕ → String → String → Action Db AccountError (Unit {0})
  reset_password c email code new_password = do
    user ← or_throw (← find_by_email email) no_such_user
    validate_code c user.id code password_reset
    write_user user.id (with_password (crypto.hash_password c.salt new_password))
    revoke_refresh_token user.id
