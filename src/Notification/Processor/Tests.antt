-- ===== src/Notification/Processor/Tests.antt =====
-- A notification at a mail server that refuses its first calls.
use eurisko_final_proejct.Base.{
  ℕ, zero, suc, ◌+◌, String, ◌≡◌, refl, Option, none, some, [], ◌∷◌, ◌++◌, Result, ok, err, arith,
  false, true,
}
use eurisko_final_proejct.Base.Store.{lookup, insert, adjust}
use eurisko_final_proejct.Notification.Retry.{loop, execute_with_retry}
use eurisko_final_proejct.Notification.Retry.Attempts.{
  execute_with_retry-success, execute_with_retry-dead,
}
use eurisko_final_proejct.Notification.Processor.{
  Notification, ProcessOptions, Db, is_duplicate, has_log, sent, dead, is_valid, create_pending,
  send, mail_of, process,
}
use eurisko_final_proejct.Notification.Processor.Delivery.{process_sent, process_dead}
use eurisko_final_proejct.Notification.Processor.Once.{start, later, process_twice}

-- The first two calls fail.
abbrev busy_server : ℕ → Option String
busy_server zero = some "busy"
busy_server (suc zero) = some "busy"
busy_server _ = none

abbrev down : ℕ → Option String
down _ = some "down"

abbrev plain : String → String → Result String String
plain template context = ok "html"

abbrev otp_mail : ProcessOptions
otp_mail = record {
  user_id = "7";
  email = "m@example.org";
  type_of = "OTP_SEND";
  subject = "Code";
  template_name = "otp";
  template_context = "{}";
  idempotency_key = "notification:OTP_SEND:7:1";
}

abbrev empty : Db
empty = record { logs = []; processed = []; calls = 0; mails = [] }

new_key : is_duplicate 9 otp_mail.idempotency_key empty.processed ≡ false
unfolding is_duplicate
new_key = refl

otp_valid : is_valid otp_mail ≡ true
unfolding is_valid
otp_valid = refl

new_log : has_log otp_mail.idempotency_key empty.logs ≡ false
unfolding has_log
new_log = refl

process_sent_run :
    let after = process busy_server plain 3 86_400 9 1 otp_mail empty in
    (after.mails ≡ [] ++ mail_of otp_mail "html" ∷ [])
    × (after.processed ≡ (otp_mail.idempotency_key, 86_400_009) ∷ [])
    × (after.calls ≡ suc (0 + 2))
    × ((n : Notification) × (lookup 1 after.logs ≡ some n)
        × (n.status ≡ sent)
        × (n.sent_at ≡ some 9))
process_sent_run =
    process_sent busy_server plain 3 86_400 9 1 otp_mail 2 "html" empty new_key otp_valid new_log
      refl (omega arith) (("busy", refl), (("busy", refl), tt)) refl

process_dead_example :
    let after = process down plain 3 86_400 9 1 otp_mail empty in
    (after.mails ≡ [])
    × (after.processed ≡ [])
    × (after.calls ≡ suc (0 + 2))
    × ((n : Notification) × (lookup 1 after.logs ≡ some n)
        × (n.status ≡ dead)
        × (n.error_message ≡ some "down"))
process_dead_example =
    process_dead down plain 3 86_400 9 1 otp_mail 2 "html" "down" empty new_key otp_valid new_log
      refl refl (("down", refl), (("down", refl), tt)) refl

abbrev other_mail : ProcessOptions
other_mail = record otp_mail { idempotency_key = "notification:OTP_SEND:7:2" }

abbrev one_sent : Db
one_sent = process busy_server plain 3 86_400 9 1 otp_mail empty

abbrev two_sent : Db
two_sent = process busy_server plain 3 86_400 50 2 other_mail one_sent

second_id : lookup 2 one_sent.logs ≡ none
unfolding process create_pending is_valid is_duplicate has_log loop send insert adjust lookup
second_id = refl

-- Another mail goes out, the key in Redis expires, and the first notification comes again.
process_twice_example : process down plain 3 86_400 100_000_000 3 otp_mail two_sent ≡ two_sent
process_twice_example =
    process_twice busy_server down plain plain 3 3 86_400 86_400 9 100_000_000 1 3 otp_mail otp_mail
      empty new_key otp_valid refl
      (later busy_server plain 3 86_400 50 2 other_mail start second_id refl)

-- An operation that fails until the state is 2; the state counts the calls.
abbrev third_time : ℕ → Result String ℕ × ℕ
third_time zero = (err "no", 1)
third_time (suc zero) = (err "no", 2)
third_time n = (ok n, 3)

execute_with_retry-success_run :
    execute_with_retry third_time 3 (λ n s. s) (λ m s. 99) (λ ms s. s) 0 ≡ (some 2, 3)
execute_with_retry-success_run =
    execute_with_retry-success third_time 3 (λ n s. s) (λ m s. 99) (λ ms s. s) 2 0 2 (omega arith)
      (("no", refl), (("no", refl), tt)) refl

execute_with_retry-dead_run :
    execute_with_retry third_time 2 (λ n s. s) (λ m s. 99) (λ ms s. s) 0 ≡ (none, 99)
execute_with_retry-dead_run =
    execute_with_retry-dead third_time 2 (λ n s. s) (λ m s. 99) (λ ms s. s) 1 0 "no" refl
      (("no", refl), tt) refl
