-- ===== src/Auth/Sessions/Tests.antt =====
-- Sessions with tokens that are plain texts: a token spells its time, its user and the user's email in
-- unary, and a hash is the text itself.
use text.Mathlib.Text.{◌==◌ as str_eq}
use text.Mathlib.TextEquality.{eq_iff}
use Prim.Native.Char.{Char, code}
use eurisko_final_proejct.Base.{
  ℕ, zero, suc, ◌+◌, String, true, false, ◌≡◌, ◌⊎◌, refl, ap, ◌∙◌, some, none, [], ◌∷◌, ok, err,
  is_ok, arith, ◌==◌, if◌then◌else◌,
}
use eurisko_final_proejct.Base.Store.{lookup}
use eurisko_final_proejct.Auth.Data.{User, active, find_user}
use eurisko_final_proejct.Auth.Otp.{password_reset, create_and_send, latest, use_latest, new_otp}
use eurisko_final_proejct.Auth.Accounts.{JwtPayload, Crypto, Db, Call, session_not_found}
use eurisko_final_proejct.Auth.Sessions.{token_pair, login, refresh, reset_password}
use eurisko_final_proejct.Auth.Sessions.Access.{
  CryptoLaws, seen, may_log_in, login_gated, login_then_refresh,
}
use eurisko_final_proejct.Auth.Sessions.Reuse.{refresh_stale}
use eurisko_final_proejct.Auth.Sessions.Reset.{reset_password_settled, reset_user}

abbrev repeat : Char → ℕ → String → String
repeat c zero tail = tail
repeat c (suc n) tail = String.◌∷◌ c (repeat c n tail)

abbrev tally : Char → String → ℕ
tally c String.[] = 0
tally c (String.◌∷◌ d s) = let rest = tally c s in if code d == code c then suc rest else rest

abbrev time_mark : Char
time_mark = "t"

abbrev user_mark : Char
user_mark = "u"

abbrev email_mark : Char
email_mark = "e"

-- As in a JWT, what does not change comes first.
abbrev header_mark : Char
header_mark = "h"

abbrev dated : ℕ → JwtPayload → String
dated now p = repeat time_mark now (repeat user_mark p.sub (repeat email_mark p.email ""))

abbrev spell : ℕ → JwtPayload → String
spell now p = repeat header_mark 72 (dated now p)

abbrev pub plain : Crypto
plain = record {
  hash_password = λ salt s. s;
  compare_password = λ a b. str_eq (seen a) (seen b);
  sign_access = spell;
  sign_refresh = spell;
  verify = λ now s. some (record { sub = tally user_mark s; email = tally email_mark s });
}

tally_same : (c : Char) (n : ℕ) (s : String) → tally c (repeat c n s) ≡ n + tally c s
tally_same c zero s = omega arith
tally_same c (suc n) s = ground (arith, tally_same c n s)

tally_other :
    (c d : Char) (n : ℕ) (s : String)
    → (code d == code c) ≡ false
    → tally c (repeat d n s) ≡ tally c s
tally_other c d zero s ne = refl
tally_other c d (suc n) s ne = ground (arith, ne, tally_other c d n s ne)

spelled_user : (now : ℕ) (p : JwtPayload) → tally user_mark (spell now p) ≡ p.sub
spelled_user now p =
    tally_other user_mark header_mark 72 (dated now p) refl
    ∙ tally_other user_mark time_mark now (repeat user_mark p.sub (repeat email_mark p.email ""))
        refl
    ∙ tally_same user_mark p.sub (repeat email_mark p.email "")
    ∙ ap (λ n. p.sub + n) (tally_other user_mark email_mark p.email "" refl)
    ∙ omega arith

spelled_email : (now : ℕ) (p : JwtPayload) → tally email_mark (spell now p) ≡ p.email
spelled_email now p =
    tally_other email_mark header_mark 72 (dated now p) refl
    ∙ tally_other email_mark time_mark now (repeat user_mark p.sub (repeat email_mark p.email ""))
        refl
    ∙ tally_other email_mark user_mark p.sub (repeat email_mark p.email "") refl
    ∙ tally_same email_mark p.email ""
    ∙ omega arith

pub plain_laws : CryptoLaws plain
plain_laws = record {
  compare-hash_iff = λ a salt b. eq_iff (seen a) (seen b);
  refresh_start = λ signed signed' p. refl;
  verify-sign_refresh =
      λ signed now p in_time. rw (spelled_user signed p, spelled_email signed p) refl;
}

abbrev someone : User
someone = record {
  id = 1;
  national_id = "N-1";
  full_name = "Someone";
  date_of_birth = record { year = 1990; month = 5; day = 17 };
  password_hash = "secret";
  status = active;
  email_verified = true;
  suspension_reason = none;
  refresh_token_hash = none;
}

abbrev pub at : ℕ → Call
at now = record {
  now = now;
  today = record { year = 2026; month = 5; day = 17 };
  code = "123456";
  salt = "";
  new_id = 1;
  otp_minutes = 10;
}

abbrev db : Db
db = record {
  users = (2, someone) ∷ [];
  otps = create_and_send 3 10 "123456" 1 password_reset [];
  events = [];
}

login_gated_example :
    (is_ok (login plain (at 1) 2 "secret" db).0 ≡ true)
    × (((may_log_in plain (at 1) 2 "secret" db someone ≡ true)
          × ((login plain (at 1) 2 "secret" db).0 ≡ ok (token_pair plain (at 1) 1 2, someone)))
        ⊎ ((may_log_in plain (at 1) 2 "secret" db someone ≡ false)
            × ((login plain (at 1) 2 "secret" db).1 ≡ db)))
unfolding lookup
login_gated_example = login_gated plain (at 1) 2 "secret" db someone refl

login_then_refresh_run :
    let (r, after) = login plain (at 1) 2 "secret" db in
    (r ≡ ok (token_pair plain (at 1) 1 2, someone))
    × ((refresh plain (at 5) (token_pair plain (at 1) 1 2).refresh_token after).0
        ≡ ok (token_pair plain (at 5) 1 2))
unfolding lookup find_user
login_then_refresh_run =
    login_then_refresh plain (at 1) (at 5) 2 "secret" db someone plain_laws refl refl refl
      (omega arith)

abbrev first_token : String
first_token = spell 1 (record { sub = 1; email = 2 })

-- The user and the state after a login at time 1.
abbrev logged_in : User
logged_in = record someone { refresh_token_hash = some first_token }

abbrev open_db : Db
open_db = record db { users = (2, logged_in) ∷ [] }

abbrev payload : JwtPayload
payload = record { sub = 1; email = 2 }

-- The replacement is another text.
replaced : str_eq first_token (token_pair plain (at 5) 1 2).refresh_token ≡ false
replaced = refl

refresh_stale_example :
    let (r, after) = refresh plain (at 5) first_token open_db in
    (r ≡ ok (token_pair plain (at 5) 1 2))
    × ((refresh plain (at 6) first_token after).0 ≡ ok (token_pair plain (at 6) 1 2))
unfolding find_user
refresh_stale_example =
    refresh_stale plain (at 5) (at 6) open_db 2 1 "" logged_in plain_laws refl refl refl
      (omega arith) (omega arith)

reset_password_settled_example :
    let (r, after) = reset_password plain (at 4) 2 "123456" "other" open_db in
    (r ≡ ok tt)
    × (after.otps ≡ use_latest 1 password_reset db.otps)
    × (lookup 2 after.users ≡ some (reset_user plain (at 4) 2 "123456" "other" open_db logged_in))
    × ((token : String) (p : JwtPayload)
        → plain.verify 5 token ≡ some p
        → p.sub ≡ 1
        → refresh plain (at 5) token after ≡ (err session_not_found, after))
    × (is_ok (login plain (at 5) 2 "other" after).0 ≡ true)
unfolding lookup find_user latest create_and_send
reset_password_settled_example =
    reset_password_settled plain (at 4) 2 "123456" "other" open_db logged_in
      (new_otp 3 10 "123456" 1 password_reset) (at 5) plain_laws refl refl refl refl
