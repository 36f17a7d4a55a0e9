-- ===== src/Auth/Sessions/Access.antt =====
-- Who may log in, and what a login leaves.
use eurisko_final_proejct.Base.{
  ℕ, zero, suc, ◌+◌, ◌<◌, String, ◌≡◌, ◌↔◌, refl, Bool, true, false, not, ◌&&◌, some, ok, is_ok,
  arith, inl, inr, Bool-cases, sym, ◌∙◌, ◌⊎◌,
}
use eurisko_final_proejct.Base.Store.{lookup}
use eurisko_final_proejct.Auth.Data.{User, find_user}
use eurisko_final_proejct.Auth.Accounts.{JwtPayload, Crypto, Db, Call}
use eurisko_final_proejct.Auth.Sessions.{
  is_suspended, with_refresh_hash, payload_of, token_pair, login, refresh,
}
use eurisko_final_proejct.Auth.Sessions.Rotation.{
  issued, issue_token_pair-done, refresh-accepted, find_user-update_user,
}

-- `expiresIn: '7d'`, in milliseconds.
abbrev pub refresh_life_ms : ℕ
refresh_life_ms = 604_800_000

abbrev pub first_chars : ℕ → String → String
first_chars zero s = ""
first_chars (suc n) String.[] = ""
first_chars (suc n) (String.◌∷◌ c s) = String.◌∷◌ c (first_chars n s)

-- The part of a text that bcrypt reads: 72 bytes, for texts of which each character is a byte.
abbrev pub seen : String → String
seen = first_chars 72

-- What the libraries document. bcrypt compares what it reads of two texts. A refresh token is verified,
-- with the payload that was signed, until it expires. A token is the base64 text of its header, which
-- is always the same, and then that of its payload, which begins with the user's id and the time comes
-- later: 72 characters reach into the id.
pub record CryptoLaws (crypto : Crypto) : Type 0 where
  pub compare-hash_iff :
      (a salt b : String)
      → (crypto.compare_password a (crypto.hash_password salt b) ≡ true) ↔ (seen a ≡ seen b)
  pub refresh_start :
      (signed signed' : ℕ) (payload : JwtPayload)
      → seen (crypto.sign_refresh signed payload) ≡ seen (crypto.sign_refresh signed' payload)
  pub verify-sign_refresh :
      (signed now : ℕ) (payload : JwtPayload)
      → now < signed + refresh_life_ms
      → crypto.verify now (crypto.sign_refresh signed payload) ≡ some payload

module _ (crypto : Crypto) (c : Call) (email : ℕ) (password : String) (db : Db) (u : User) where
  -- The three tests of a login.
  abbrev pub may_log_in : Bool
  may_log_in =
      u.email_verified
      && (not (is_suspended u.status) && crypto.compare_password password u.password_hash)

  pub login-accepted :
      lookup email db.users ≡ some u
      → may_log_in ≡ true
      → login crypto c email password db
        ≡ (ok (token_pair crypto c u.id email, u), issued crypto c db u.id email)
  unfolding login
  login-accepted known passed =
      ground (arith, known, passed, issue_token_pair-done crypto c db u.id email)

  login-refused :
      lookup email db.users ≡ some u
      → may_log_in ≡ false
      → (is_ok (login crypto c email password db).0 ≡ false)
        × ((login crypto c email password db).1 ≡ db)
  unfolding login
  login-refused known failed = (ground (arith, known, failed), ground (arith, known, failed))

  -- A known member's login succeeds exactly if the email is verified, the account is not suspended and
  -- the password matches; then the answer has the user and a new pair of tokens; otherwise nothing
  -- changes.
  pub login_gated :
      lookup email db.users ≡ some u
      → (is_ok (login crypto c email password db).0 ≡ may_log_in)
        × (((may_log_in ≡ true)
              × ((login crypto c email password db).0 ≡ ok (token_pair crypto c u.id email, u)))
            ⊎ ((may_log_in ≡ false) × ((login crypto c email password db).1 ≡ db)))
  login_gated known = elim (Bool-cases may_log_in) [
    | inl passed ↦ rw (login-accepted known passed) (sym passed, inl (passed, refl))
    | inr failed ↦
        let (no_answer, same) = login-refused known failed in
        (no_answer ∙ sym failed, inr (failed, same))
  ]

-- Whoever logs in can go on: within 7 days, the refresh token of a login that was accepted is exchanged
-- for a new pair, if the user's id names the user and nothing has changed since.
pub login_then_refresh :
    (crypto : Crypto) (c c' : Call) (email : ℕ) (password : String) (db : Db) (u : User)
    → CryptoLaws crypto
    → lookup email db.users ≡ some u
    → find_user u.id db.users ≡ some (email, u)
    → may_log_in crypto c email password db u ≡ true
    → c'.now < c.now + refresh_life_ms
    → let (r, after) = login crypto c email password db in
      (r ≡ ok (token_pair crypto c u.id email, u))
      × ((refresh crypto c' (token_pair crypto c u.id email).refresh_token after).0
          ≡ ok (token_pair crypto c' u.id email))
login_then_refresh crypto c c' email password db u laws known named passed in_time =
    let pair = token_pair crypto c u.id email in
    let hash = crypto.hash_password c.salt pair.refresh_token in
    let open_ =
      find_user-update_user u.id (with_refresh_hash (some hash)) db.users (λ v. refl) named in
    let again =
      refresh-accepted crypto c' (issued crypto c db u.id email) pair.refresh_token hash
        (laws.verify-sign_refresh c.now c'.now (payload_of crypto u.id email) in_time) open_ refl
        ((laws.compare-hash_iff pair.refresh_token c.salt pair.refresh_token).1 refl)
        (not_suspended passed) in
    rw (login-accepted crypto c email password db u known passed, again) (refl, refl)
  where
    not_suspended : may_log_in crypto c email password db u ≡ true → is_suspended u.status ≡ false
    not_suspended p = ground (arith, p)
