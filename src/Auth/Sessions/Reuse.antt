-- ===== src/Auth/Sessions/Reuse.antt =====
-- A refresh token that has been replaced.
use eurisko_final_proejct.Base.{ℕ, ◌+◌, ◌<◌, String, ◌≡◌, refl, false, some, ok}
use eurisko_final_proejct.Auth.Data.{User, find_user}
use eurisko_final_proejct.Auth.Accounts.{Crypto, Db, Call}
use eurisko_final_proejct.Auth.Sessions.{
  is_suspended, with_refresh_hash, payload_of, token_pair, refresh,
}
use eurisko_final_proejct.Auth.Sessions.Rotation.{issued, refresh-accepted, find_user-update_user}
use eurisko_final_proejct.Auth.Sessions.Access.{CryptoLaws, refresh_life_ms}

module _ (crypto : Crypto) (c c' : Call) (db : Db) (email signed : ℕ) (salt : String)
    (u : User) where
  -- The token that the user was given at a time.
  abbrev pub old_token : String
  old_token = crypto.sign_refresh signed (payload_of crypto u.id email)

  -- The user after the first exchange.
  abbrev renewed : User
  renewed =
      with_refresh_hash
        (some (crypto.hash_password c.salt (token_pair crypto c u.id email).refresh_token)) u

  -- A user that is not suspended exchanges the refresh token of the session, and then the same token,
  -- which has been replaced, once more, both before it expires: both exchanges succeed, since bcrypt
  -- does not read as far as the tokens of a user differ. The reuse is not detected.
  pub refresh_stale :
      CryptoLaws crypto
      → find_user u.id db.users ≡ some (email, u)
      → u.refresh_token_hash ≡ some (crypto.hash_password salt old_token)
      → is_suspended u.status ≡ false
      → c.now < signed + refresh_life_ms
      → c'.now < signed + refresh_life_ms
      → let (r, after) = refresh crypto c old_token db in
        (r ≡ ok (token_pair crypto c u.id email))
        × ((refresh crypto c' old_token after).0 ≡ ok (token_pair crypto c' u.id email))
  refresh_stale laws named stored allowed fresh still_fresh =
      let payload = payload_of crypto u.id email in
      let valid = laws.verify-sign_refresh signed c.now payload fresh in
      let valid' = laws.verify-sign_refresh signed c'.now payload still_fresh in
      let first =
        refresh-accepted crypto c db old_token {payload = payload} {email = email} {u = u}
          (crypto.hash_password salt old_token) valid named stored
          ((laws.compare-hash_iff old_token salt old_token).1 refl) allowed in
      let hash = crypto.hash_password c.salt (token_pair crypto c u.id email).refresh_token in
      let named' : find_user u.id (issued crypto c db u.id email).users ≡ some (email, renewed) =
        find_user-update_user u.id (with_refresh_hash (some hash)) db.users (λ v. refl) named in
      let second =
        refresh-accepted crypto c' (issued crypto c db u.id email) old_token {payload = payload}
          {email = email} {u = renewed} hash valid' named' refl
          ((laws.compare-hash_iff old_token c.salt (token_pair crypto c u.id email).refresh_token).1
            (laws.refresh_start signed c.now payload))
          allowed in
      rw (first, second) (refl, refl)
