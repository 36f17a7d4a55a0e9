-- ===== src/Auth/Accounts/Registration.antt =====
-- Registration: who may register, and the way from the registration to the first login.

use text.Mathlib.TextEquality.{eq_iff}
use eurisko_final_proejct.Base.{
  ℕ, ◌+◌, ◌*◌, ◌<◌, ◌≤◌, String, ◌≡◌, ◌↔◌, ◌⊎◌, refl, true, false, none, some, [], ◌∷◌, ◌++◌, ok,
  err, is_ok, arith, ap, ◌∙◌,
}
use eurisko_final_proejct.Base.Int.{ltb_ℤ, ◌-ℤ◌}
use eurisko_final_proejct.Base.Store.{lookup, insert, lookup-insert_self}
use eurisko_final_proejct.Auth.Data.{Date, User, active, activated, calculate_age, min_member_age}
use eurisko_final_proejct.Auth.Otp.{
  Otp, email_verification, create_and_send, validate, use_up, new_otp, grace_ms, ms_per_minute,
  set_password,
}
use eurisko_final_proejct.Auth.Otp.Flow.{create_and_send-validate, set_password_verified}
use eurisko_final_proejct.Auth.Accounts.{
  Crypto, Db, Call, RegisterDto, otp_sent, find_either, new_user, register, verify_otp,
  validate_code, activate, too_young,
}
use eurisko_final_proejct.Auth.Sessions.{login}
use eurisko_final_proejct.Auth.Sessions.Access.{CryptoLaws, login_gated}

-- The eighteenth birthday has come.
abbrev pub Adult : Date → Date → Type 0
Adult birth today =
    (birth.year + 18 < today.year)
    ⊎ ((birth.year + 18 ≡ today.year)
        × ((birth.month < today.month) ⊎ ((birth.month ≡ today.month) × (birth.day ≤ today.day))))

-- The age in whole years that the code computes passes the test for 18 exactly when the eighteenth
-- birthday, whose month and day are those of the birth, has come.
pub calculate_age_iff :
    (birth today : Date)
    → (ltb_ℤ (calculate_age birth today) min_member_age ≡ false) ↔ Adult birth today
unfolding calculate_age ◌-ℤ◌
calculate_age_iff birth today = (λ e. ground (arith, e), λ a. ground (arith, a))

module _ (c : Call) (dto : RegisterDto) (db : Db) where
  -- The state after a registration that was accepted.
  abbrev pub registered : Db
  registered = record db {
    users = insert dto.email (new_user c dto) db.users;
    otps = create_and_send c.now c.otp_minutes c.code c.new_id email_verification db.otps;
    events = db.events ++ otp_sent c.new_id dto.email dto.full_name c.code c.otp_minutes ∷ [];
  }

  register-done :
      find_either dto.email dto.national_id db.users ≡ none
      → ltb_ℤ (calculate_age dto.date_of_birth c.today) min_member_age ≡ false
      → register c dto db ≡ (ok tt, registered)
  unfolding register
  register-done free old = ground (arith, free, old)

  register-young :
      find_either dto.email dto.national_id db.users ≡ none
      → ltb_ℤ (calculate_age dto.date_of_birth c.today) min_member_age ≡ true
      → register c dto db ≡ (err too_young, db)
  unfolding register
  register-young free young = ground (arith, free, young)

module _ (crypto : Crypto) (c : Call) (email : ℕ) (code password : String) (db : Db) where
  -- `setPassword` writes what the code service's model of it writes, and keeps the codes.
  activate-users :
      (set_password c.now email code (crypto.hash_password c.salt password) db.otps db.users).0
        ≡ ok tt
      → ((activate crypto c email code password db).0 ≡ ok tt)
        × ((activate crypto c email code password db).1.users
            ≡ (set_password c.now email code
                (crypto.hash_password c.salt password)
                db.otps
                db.users).1)
  unfolding activate
  activate-users done = ground (arith, done)

verify_otp-users :
    (c : Call) (email : ℕ) (code : String) (db : Db) {u : User} {o : Otp}
    → lookup email db.users ≡ some u
    → (validate c.now u.id code email_verification db.otps).0 ≡ ok o
    → verify_otp c email code db
      ≡ (ok tt, record db { otps = (validate c.now u.id code email_verification db.otps).1 })
unfolding verify_otp validate_code
verify_otp-users c email code db known accepted = ground (arith, known, accepted)

-- From the registration to the first login. Somebody whose email and national id no account has and who is
-- 18 registers; gives the code that was sent before it expires; sets a password with the code within 15
-- minutes of its creation; then the account is active and verified, with the given national id, and a
-- login with the password succeeds.
pub register_then_login :
    (crypto : Crypto) (c1 c2 c3 c4 : Call) (dto : RegisterDto) (password : String) (db : Db)
    → CryptoLaws crypto
    → find_either dto.email dto.national_id db.users ≡ none
    → Adult dto.date_of_birth c1.today
    → c2.now ≤ c1.now + c1.otp_minutes * ms_per_minute
    → c3.now ≤ c1.now + grace_ms
    → let (r1, db1) = register c1 dto db in
      let (r2, db2) = verify_otp c2 dto.email c1.code db1 in
      let (r3, db3) = activate crypto c3 dto.email c1.code password db2 in
      (r1 ≡ ok tt)
      × (r2 ≡ ok tt)
      × (r3 ≡ ok tt)
      × ((u : User) × (lookup dto.email db3.users ≡ some u)
          × (u.status ≡ active)
          × (u.email_verified ≡ true)
          × (u.national_id ≡ dto.national_id))
      × (is_ok (login crypto c4 dto.email password db3).0 ≡ true)
register_then_login crypto c1 c2 c3 c4 dto password db laws free old in_time soon =
    let u = new_user c1 dto in
    let db1 = registered c1 dto db in
    let known = lookup-insert_self dto.email u db.users in
    let sent = new_otp c1.now c1.otp_minutes c1.code c1.new_id email_verification in
    let accepted : (validate c2.now u.id c1.code email_verification db1.otps).0 ≡ ok (use_up sent) =
      create_and_send-validate c1.now c2.now c1.otp_minutes c1.new_id c1.code c1.code
        email_verification db.otps in_time
      ∙ rw ((eq_iff c1.code c1.code).1 refl) refl in
    let hash = crypto.hash_password c3.salt password in
    let set =
      set_password_verified c2.now c3.now dto.email c1.code hash db1.otps db1.users u (use_up sent)
        known accepted soon in
    let step2 = verify_otp-users c2 dto.email c1.code db1 known accepted in
    let step3 = activate-users crypto c3 dto.email c1.code password _ set.0 in
    rw (register-done c1 dto db free ((calculate_age_iff dto.date_of_birth c1.today).1 old), step2)
      (
        refl,
        refl,
        step3.0,
        (activated hash u, ap (lookup dto.email) step3.1 ∙ set.1, refl, refl, refl),
        (login_gated crypto c4 dto.email password _ (activated hash u)
              (ap (lookup dto.email) step3.1 ∙ set.1)).0
            ∙ (laws.compare-hash_iff password c3.salt password).1 refl,
      )
