-- ===== src/Auth/Otp/Tests.antt =====
-- Codes at concrete times.
use eurisko_final_proejct.Base.{
  ◌≡◌, refl, some, none, false, List, [], ◌∷◌, ok, err, arith, if◌then◌else◌,
}
use text.Mathlib.Text.{◌==◌ as str_eq}
use eurisko_final_proejct.Base.Store.{Store, lookup}
use eurisko_final_proejct.Auth.Data.{User, pending_verification, activated}
use eurisko_final_proejct.Auth.Otp.{
  Otp, already_used, incorrect_code, email_verification, use_up, new_otp, create_and_send, latest,
  validate, set_password,
}
use eurisko_final_proejct.Auth.Otp.Flow.{
  start, sending, validate_once, create_and_send-validate, set_password_verified,
  set_password_replaced,
}

abbrev sent_codes : List Otp
sent_codes = create_and_send 1000 10 "123456" 7 email_verification []

abbrev accepted_code : Otp
accepted_code = use_up (new_otp 1000 10 "123456" 7 email_verification)

abbrev someone : User
someone = record {
  id = 7;
  national_id = "N-1";
  full_name = "Someone";
  date_of_birth = record { year = 1990; month = 5; day = 17 };
  suspension_reason = none;
  refresh_token_hash = none;
  password_hash = "PENDING";
  status = pending_verification;
  email_verified = false;
}

abbrev users : Store User
users = (5, someone) ∷ []

someone_known : lookup 5 users ≡ some someone
unfolding lookup
someone_known = refl

code_accepted : (validate 2000 7 "123456" email_verification sent_codes).0 ≡ ok accepted_code
unfolding validate latest create_and_send
code_accepted = refl

-- After the code was accepted, somebody else gets one, and the first is tried and refused.
abbrev after_first : List Otp
after_first = (validate 2000 7 "123456" email_verification sent_codes).1

abbrev after_others : List Otp
after_others = create_and_send 2500 10 "777777" 8 email_verification after_first

validate_once_example :
    validate 3000 7 "123456" email_verification after_others ≡ (err already_used, after_others)
validate_once_example =
    validate_once 7 email_verification 2000 3000 "123456" "123456" sent_codes accepted_code
      code_accepted (sending 2500 10 8 "777777" email_verification start refl refl)

create_and_send-validate_run :
    (validate 2000 7 "999999" email_verification
      (create_and_send 1000 10 "123456" 7 email_verification [])).0
    ≡ (if str_eq "123456" "999999"
        then ok (use_up (new_otp 1000 10 "123456" 7 email_verification))
        else err incorrect_code)
create_and_send-validate_run =
    create_and_send-validate 1000 2000 10 7 "123456" "999999" email_verification [] (omega arith)

set_password_verified_run :
    let (r, after) =
      set_password 4000 5 "123456" "hash"
        (validate 2000 7 "123456" email_verification sent_codes).1
        users in
    (r ≡ ok tt) × (lookup 5 after ≡ some (activated "hash" someone))
set_password_verified_run =
    set_password_verified 2000 4000 5 "123456" "hash" sent_codes users someone accepted_code
      someone_known code_accepted (omega arith)

set_password_replaced_example :
    let after_two =
      create_and_send 2000 10 "654321" 7 email_verification
        (create_and_send 1000 10 "123456" 7 email_verification []) in
    let (r, after) = set_password 3000 5 "123456" "hash" after_two users in
    (r ≡ ok tt) × (lookup 5 after ≡ some (activated "hash" someone))
set_password_replaced_example =
    set_password_replaced 3000 1000 2000 10 5 "123456" "654321" "hash" [] users someone
      someone_known (omega arith)
