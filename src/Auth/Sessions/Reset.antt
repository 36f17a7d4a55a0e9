-- ===== src/Auth/Sessions/Reset.antt =====
-- The password reset: the code is used, the new password counts, and the sessions are closed.
use eurisko_final_proejct.Base.{
  ℕ, String, ◌≡◌, refl, true, not, none, some, ok, err, arith, inl, inr, Bool-cases, ap, ◌&&◌,
  is_ok, ◌∙◌, [], ◌∷◌, ◌==◌,
}
use eurisko_final_proejct.Base.Store.{Store, lookup}
use eurisko_final_proejct.Auth.Data.{User, find_user, update_user}
use eurisko_final_proejct.Auth.Otp.{Otp, password_reset, latest, check, use_latest}
use eurisko_final_proejct.Auth.Otp.Flow.{validate-accepted}
use eurisko_final_proejct.Auth.Accounts.{
  JwtPayload, Crypto, Db, Call, session_not_found, validate_code,
}
use eurisko_final_proejct.Auth.Sessions.{
  with_refresh_hash, with_password, revoke_refresh_token, refresh, reset_password, login,
  is_suspended,
}
use eurisko_final_proejct.Auth.Sessions.Rotation.{refresh-closed, find_user-update_user}
use eurisko_final_proejct.Auth.Sessions.Access.{CryptoLaws, may_log_in, login_gated}

find_user-id :
    (id : ℕ) (users : Store User) {e : ℕ} {u : User} → find_user id users ≡ some (e, u) → u.id ≡ id
unfolding find_user
find_user-id id [] found = absurd (ground arith)
find_user-id id ((d, v) ∷ users) {e} {u} found = elim (Bool-cases (v.id == id)) [
  | inl hit ↦
      let it : v ≡ u = ground (arith, hit, found) in
      let same : v.id ≡ u.id = ap (λ x. x.id) it in ground (arith, hit, same)
  | inr miss ↦ find_user-id id users {e = e} {u = u} (ground (arith, miss, found))
]

-- A change of a user by the id is seen by the email.
lookup-update_user :
    (id email : ℕ) (f : User → User) (users : Store User) {u : User}
    → lookup email users ≡ some u
    → find_user id users ≡ some (email, u)
    → lookup email (update_user id f users) ≡ some (f u)
unfolding lookup update_user find_user
lookup-update_user id email f [] known named = absurd (ground arith)
lookup-update_user id email f ((e, v) ∷ users) {u} known named = elim (Bool-cases (e == email)) [
  | inl same ↦
      let it : v ≡ u = ground (arith, same, known) in
      let mine : v.id ≡ id = ap (λ x. x.id) it ∙ find_user-id id ((e, v) ∷ users) named in
      ground (arith, same, mine, ap f it)
  | inr other ↦ elim (Bool-cases (v.id == id)) [
    | inl hit ↦ absurd (ground (arith, hit, named, other))
    | inr miss ↦
        let rest =
          lookup-update_user id email f users {u = u} (ground (arith, other, known))
            (ground (arith, miss, named)) in
        ground (arith, other, miss, rest)
  ]
]

module _ (crypto : Crypto) (c : Call) (email : ℕ) (code new_password : String) (db : Db)
    (u : User) where
  -- The user after the reset.
  abbrev pub reset_user : User
  reset_user = record u {
    password_hash = crypto.hash_password c.salt new_password;
    refresh_token_hash = none;
  }

  abbrev pub reset_db : Db
  reset_db = record db {
    users =
        update_user u.id (with_refresh_hash none)
          (update_user u.id (with_password (crypto.hash_password c.salt new_password)) db.users);
    otps = use_latest u.id password_reset db.otps;
  }

  validate_code-accepted :
      {o : Otp}
      → latest u.id password_reset db.otps ≡ some o
      → check c.now code o ≡ none
      → validate_code c u.id code password_reset db
        ≡ (ok tt, record db { otps = use_latest u.id password_reset db.otps })
  unfolding validate_code
  validate_code-accepted {o} found passed =
      ground (arith, validate-accepted c.now u.id code password_reset db.otps {p = o} found passed)

  reset_password-done :
      {o : Otp}
      → lookup email db.users ≡ some u
      → latest u.id password_reset db.otps ≡ some o
      → check c.now code o ≡ none
      → reset_password crypto c email code new_password db ≡ (ok tt, reset_db)
  unfolding reset_password revoke_refresh_token
  reset_password-done {o} known found passed =
      ground (arith, known, validate_code-accepted {o = o} found passed)

  -- Resetting the password of a known member whose id names them, with the code that was sent last for
  -- it and is unused and in time: the code is used; the member has the new password and no session. In
  -- the state that it leaves, an exchange of any refresh token of the member is refused, for want of a
  -- session, and changes nothing; and a login of the member with the new password succeeds exactly if
  -- the email is verified and the account is not suspended.
  pub reset_password_settled :
      (o : Otp) (c' : Call)
      → CryptoLaws crypto
      → lookup email db.users ≡ some u
      → find_user u.id db.users ≡ some (email, u)
      → latest u.id password_reset db.otps ≡ some o
      → check c.now code o ≡ none
      → let (r, after) = reset_password crypto c email code new_password db in
        (r ≡ ok tt)
        × (after.otps ≡ use_latest u.id password_reset db.otps)
        × (lookup email after.users ≡ some reset_user)
        × ((token : String) (payload : JwtPayload)
            → crypto.verify c'.now token ≡ some payload
            → payload.sub ≡ u.id
            → refresh crypto c' token after ≡ (err session_not_found, after))
        × (is_ok (login crypto c' email new_password after).0
            ≡ (u.email_verified && not (is_suspended u.status)))
  reset_password_settled o c' laws known named found passed =
      let hash = crypto.hash_password c.salt new_password in
      let known1 = lookup-update_user u.id email (with_password hash) db.users known named in
      let named1 = find_user-update_user u.id (with_password hash) db.users (λ v. refl) named in
      let known2 = lookup-update_user u.id email (with_refresh_hash none) _ known1 named1 in
      let named2 = find_user-update_user u.id (with_refresh_hash none) _ (λ v. refl) named1 in
      rw (reset_password-done {o = o} known found passed) (
        refl,
        refl,
        known2,
        λ token payload valid self.
            refresh-closed crypto c' reset_db token {payload = payload} {email = email}
              {u = reset_user} valid (rw self named2) refl,
        (login_gated crypto c' email new_password reset_db reset_user known2).0
            ∙ new_password_passes ((laws.compare-hash_iff new_password c.salt new_password).1 refl),
      )
    where
      new_password_passes :
          crypto.compare_password new_password (crypto.hash_password c.salt new_password) ≡ true
          → may_log_in crypto c' email new_password reset_db reset_user
            ≡ (u.email_verified && not (is_suspended u.status))
      new_password_passes same = ground (arith, same)
