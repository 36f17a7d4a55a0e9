-- ===== src/Auth/Sessions/Rotation.antt =====
-- Which refresh tokens open a session: the one that was issued last, and what becomes of an older one.
use eurisko_final_proejct.Base.{
  ℕ, String, ◌≡◌, refl, true, false, none, some, ok, err, arith, inl, inr, Bool-cases, [], ◌∷◌,
  ◌==◌,
}
use eurisko_final_proejct.Base.Store.{Store}
use eurisko_final_proejct.Auth.Data.{User, find_user, update_user}
use eurisko_final_proejct.Auth.Accounts.{
  JwtPayload, Crypto, Db, Call, session_not_found, token_reuse_detected,
}
use eurisko_final_proejct.Auth.Sessions.{
  is_suspended, with_refresh_hash, revoke_refresh_token, token_pair, issue_token_pair, refresh,
}

pub find_user-update_user :
    (id : ℕ) (f : User → User) (users : Store User) {e : ℕ} {u : User}
    → ((v : User) → (f v).id ≡ v.id)
    → find_user id users ≡ some (e, u)
    → find_user id (update_user id f users) ≡ some (e, f u)
unfolding find_user update_user
find_user-update_user id f [] same found = absurd (ground arith)
find_user-update_user id f ((d, v) ∷ users) {e} {u} same found = elim (Bool-cases (v.id == id)) [
  | inl hit ↦ ground (arith, hit, same v)
  | inr miss ↦
      ground
        (arith, miss, find_user-update_user id f users {e = e} {u = u} same (ground (arith, miss)))
]

module _ (crypto : Crypto) (c : Call) (db : Db) where
  abbrev pub issued : ℕ → ℕ → Db
  issued id email = record db {
    users =
        update_user id
          (with_refresh_hash
            (some (crypto.hash_password c.salt (token_pair crypto c id email).refresh_token)))
          db.users;
  }

  pub issue_token_pair-done :
      (id email : ℕ)
      → issue_token_pair crypto c id email db ≡ (ok (token_pair crypto c id email), issued id email)
  unfolding issue_token_pair
  issue_token_pair-done id email = refl

  module _ (token : String) {payload : JwtPayload} {email : ℕ} {u : User} where
    pub refresh-accepted :
        (hash : String)
        → crypto.verify c.now token ≡ some payload
        → find_user payload.sub db.users ≡ some (email, u)
        → u.refresh_token_hash ≡ some hash
        → crypto.compare_password token hash ≡ true
        → is_suspended u.status ≡ false
        → refresh crypto c token db ≡ (ok (token_pair crypto c u.id email), issued u.id email)
    unfolding refresh
    refresh-accepted hash valid found kept same allowed =
        ground (arith, valid, found, kept, same, allowed, issue_token_pair-done u.id email)

    pub refresh-reused :
        (hash : String)
        → crypto.verify c.now token ≡ some payload
        → find_user payload.sub db.users ≡ some (email, u)
        → u.refresh_token_hash ≡ some hash
        → crypto.compare_password token hash ≡ false
        → refresh crypto c token db ≡ (
          err token_reuse_detected,
          record db { users = update_user u.id (with_refresh_hash none) db.users },
        )
    unfolding refresh revoke_refresh_token
    refresh-reused hash valid found kept other = ground (arith, valid, found, kept, other)

    pub refresh-closed :
        crypto.verify c.now token ≡ some payload
        → find_user payload.sub db.users ≡ some (email, u)
        → u.refresh_token_hash ≡ none
        → refresh crypto c token db ≡ (err session_not_found, db)
    unfolding refresh
    refresh-closed valid found closed = ground (arith, valid, found, closed)
