-- ===== src/Auth/Accounts/Tests.antt =====
-- A registration, from the form to the first login.
use eurisko_final_proejct.Base.{◌≡◌, ◌↔◌, refl, some, inr, ok, is_ok, true, false, [], arith}
use eurisko_final_proejct.Base.Int.{ltb_ℤ}
use eurisko_final_proejct.Base.Store.{lookup}
use eurisko_final_proejct.Auth.Data.{User, active, calculate_age, min_member_age}
use eurisko_final_proejct.Auth.Accounts.{
  RegisterDto, Db, find_either, register, verify_otp, activate,
}
use eurisko_final_proejct.Auth.Accounts.Registration.{Adult, calculate_age_iff, register_then_login}
use eurisko_final_proejct.Auth.Sessions.{login}
use eurisko_final_proejct.Auth.Sessions.Tests.{plain, plain_laws, at}

abbrev form : RegisterDto
form = record {
  full_name = "Someone";
  email = 2;
  national_id = "N-1";
  date_of_birth = record { year = 2008; month = 5; day = 17 };
}

abbrev nobody : Db
nobody = record { users = []; otps = []; events = [] }

on_the_day : calculate_age form.date_of_birth (at 1).today ≡ min_member_age
unfolding calculate_age
on_the_day = refl

calculate_age_iff_example :
    (ltb_ℤ (calculate_age form.date_of_birth (at 1).today) min_member_age ≡ false)
    ↔ Adult form.date_of_birth (at 1).today
calculate_age_iff_example = calculate_age_iff form.date_of_birth (at 1).today

register_then_login_example :
    let (r1, db1) = register (at 1) form nobody in
    let (r2, db2) = verify_otp (at 2) 2 "123456" db1 in
    let (r3, db3) = activate plain (at 3) 2 "123456" "secret" db2 in
    (r1 ≡ ok tt)
    × (r2 ≡ ok tt)
    × (r3 ≡ ok tt)
    × ((u : User) × (lookup 2 db3.users ≡ some u)
        × (u.status ≡ active)
        × (u.email_verified ≡ true)
        × (u.national_id ≡ form.national_id))
    × (is_ok (login plain (at 4) 2 "secret" db3).0 ≡ true)
unfolding find_either
register_then_login_example =
    register_then_login plain (at 1) (at 2) (at 3) (at 4) form "secret" nobody plain_laws refl
      (inr (refl, inr (refl, omega arith))) (omega arith) (omega arith)
