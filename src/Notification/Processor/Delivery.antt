-- ===== src/Notification/Processor/Delivery.antt =====
-- How the delivery of a new notification ends.

use eurisko_final_proejct.Base.{
  ℕ, zero, suc, ◌+◌, ◌*◌, ◌<◌, true, String, ◌≡◌, refl, ap, sym, subst, false, Option, none, some,
  [], ◌∷◌, ◌++◌, Result, ok, err, arith,
}
use eurisko_final_proejct.Base.Store.{lookup, adjust, lookup-insert_self, lookup-adjust_self}
use eurisko_final_proejct.Notification.Retry.Attempts.{
  AllFail, after, execute_with_retry-success, execute_with_retry-dead,
}
use eurisko_final_proejct.Notification.Processor.{
  Notification, ProcessOptions, Db, is_duplicate, has_log, pending_log, update_log, as_sent,
  as_retrying, as_dead, mail_of, is_valid, ms_per_second, sent, dead, send, deliver, process,
}
use eurisko_final_proejct.Notification.Processor.Once.{
  send-failed, send-done, process-new, rendered_then, logged,
}

module _ (server : ℕ → Option String) (render : String → String → Result String String)
    (max_attempts ttl now : ℕ) (id : ℕ) (o : ProcessOptions) where
  -- The calls of the mail server that fail from now on, one after the other.
  abbrev pub Refused : ℕ → ℕ → Type 0
  Refused start zero = Unit
  Refused start (suc k) = ((m : String) × (server start ≡ some m)) × Refused (suc start) k

  -- What `k` failed attempts change: the calls that were made, and the document of the log.
  abbrev Waiting : ℕ → Db → Db → Type 0
  Waiting k db d =
      (d.mails ≡ db.mails)
      × (d.processed ≡ db.processed)
      × (d.calls ≡ db.calls + k)
      × ((n : Notification) × (lookup id d.logs ≡ some n))

  abbrev attempt_after : String → ℕ → ℕ → Db → Db
  attempt_after html =
      after (send server render max_attempts ttl now id o html) max_attempts
        (λ n d. update_log id (as_retrying n) d) (λ m d. update_log id (as_dead m) d) (λ _ d. d)

  abbrev AttemptsFail : String → ℕ → ℕ → Db → Type 0
  AttemptsFail html =
      AllFail (send server render max_attempts ttl now id o html) max_attempts
        (λ n d. update_log id (as_retrying n) d) (λ m d. update_log id (as_dead m) d) (λ _ d. d)

  abbrev retried : ℕ → Db → Db
  retried attempt db = record db {
    calls = suc db.calls;
    logs = adjust id (as_retrying (suc attempt)) db.logs;
  }

  attempts-Waiting :
      (html : String) (k attempt : ℕ) (db : Db) (n : Notification)
      → Refused db.calls k
      → lookup id db.logs ≡ some n
      → AttemptsFail html attempt k db × Waiting k db (attempt_after html attempt k db)
  attempts-Waiting html zero attempt db n refused held = (tt, (refl, refl, omega arith, (n, held)))
  attempts-Waiting html (suc k) attempt db n ((m, e), refused) held =
      let (failing, (mails, processed, calls, log)) =
        attempts-Waiting html k (suc attempt) (retried attempt db) (as_retrying (suc attempt) n)
          refused (lookup-adjust_self id (as_retrying (suc attempt)) db.logs held) in
      let step = sym (send-failed server render max_attempts ttl now id o html db e) in
      (
        subst
            (λ x.
              ((message : String) × (x.0 ≡ err message))
              × AttemptsFail html (suc attempt) k (update_log id (as_retrying (suc attempt)) x.1))
            step ((m, refl), failing),
        subst
            (λ x.
              Waiting (suc k) db (
                attempt_after html (suc attempt) k (update_log id (as_retrying (suc attempt)) x.1)))
            step (mails, processed, omega (arith, calls), log),
      )

  -- A notification that is new, that the log's schema accepts, whose template renders, and whose mail the server takes after `k` refusals,
  -- fewer than the limit: exactly one mail goes out, with the rendered text, the log says that it was sent,
  -- its key is kept, and the server was called k + 1 times.
  pub process_sent :
      (k : ℕ) (html : String) (db : Db)
      → is_duplicate now o.idempotency_key db.processed ≡ false
      → is_valid o ≡ true
      → has_log o.idempotency_key db.logs ≡ false
      → render o.template_name o.template_context ≡ ok html
      → k < max_attempts
      → Refused db.calls k
      → server (db.calls + k) ≡ none
      → let after = process server render max_attempts ttl now id o db in
        (after.mails ≡ db.mails ++ mail_of o html ∷ [])
        × (after.processed ≡ (o.idempotency_key, now + ttl * ms_per_second) ∷ db.processed)
        × (after.calls ≡ suc (db.calls + k))
        × ((n : Notification) × (lookup id after.logs ≡ some n)
            × (n.status ≡ sent)
            × (n.sent_at ≡ some now))
  process_sent k html db first valid new rendered room refused taken =
      let (failing, (mails, processed, calls, (n, held))) =
        attempts-Waiting html k 0 (logged server render max_attempts ttl now id o db)
          (pending_log o) refused (lookup-insert_self id (pending_log o) db.logs) in
      let d = attempt_after html 0 k (logged server render max_attempts ttl now id o db) in
      let free : server d.calls ≡ none = rw calls taken in
      let sent_now = send-done server render max_attempts ttl now id o html d free in
      let ran : deliver server render max_attempts ttl now id o html
            (logged server render max_attempts ttl now id o db)
          ≡ (send server render max_attempts ttl now id o html d).1 =
        ap (λ x. x.1)
          (execute_with_retry-success (send server render max_attempts ttl now id o html)
            max_attempts (λ n d. update_log id (as_retrying n) d)
            (λ m d. update_log id (as_dead m) d) (λ _ d. d) k
            (logged server render max_attempts ttl now id o db) tt room failing
            (ap (λ x. x.0) sent_now)) in
      rw
        (
          process-new server render max_attempts ttl now id o db first valid new,
          rendered_then server render max_attempts ttl now id o
              (logged server render max_attempts ttl now id o db) html rendered,
          ran,
          sent_now,
        )
        (
          ap (λ ms. ms ++ mail_of o html ∷ []) mails,
          ap (λ ks. (o.idempotency_key, now + ttl * ms_per_second) ∷ ks) processed,
          ap (λ c. suc c) calls,
          (as_sent now n, lookup-adjust_self id (as_sent now) d.logs held, refl, refl),
        )

  -- A new notification that the log's schema accepts, whose mail the server refuses at each of the attempts: no mail goes out, its key is
  -- not kept, the log says that it is dead, with the last error, and the server was called as often as
  -- the limit says.
  pub process_dead :
      (left : ℕ) (html m : String) (db : Db)
      → is_duplicate now o.idempotency_key db.processed ≡ false
      → is_valid o ≡ true
      → has_log o.idempotency_key db.logs ≡ false
      → render o.template_name o.template_context ≡ ok html
      → suc left ≡ max_attempts
      → Refused db.calls left
      → server (db.calls + left) ≡ some m
      → let after = process server render max_attempts ttl now id o db in
        (after.mails ≡ db.mails)
        × (after.processed ≡ db.processed)
        × (after.calls ≡ suc (db.calls + left))
        × ((n : Notification) × (lookup id after.logs ≡ some n)
            × (n.status ≡ dead)
            × (n.error_message ≡ some m))
  process_dead left html m db first valid new rendered limit refused last =
      let (failing, (mails, processed, calls, (n, held))) =
        attempts-Waiting html left 0 (logged server render max_attempts ttl now id o db)
          (pending_log o) refused (lookup-insert_self id (pending_log o) db.logs) in
      let d = attempt_after html 0 left (logged server render max_attempts ttl now id o db) in
      let refused_again : server d.calls ≡ some m = rw calls last in
      let failed = send-failed server render max_attempts ttl now id o html d refused_again in
      let ran : deliver server render max_attempts ttl now id o html
            (logged server render max_attempts ttl now id o db)
          ≡ update_log id (as_dead m) (send server render max_attempts ttl now id o html d).1 =
        ap (λ x. x.1)
          (execute_with_retry-dead (send server render max_attempts ttl now id o html) max_attempts
            (λ n d. update_log id (as_retrying n) d) (λ m d. update_log id (as_dead m) d) (λ _ d. d)
            left (logged server render max_attempts ttl now id o db) m limit failing
            (ap (λ x. x.0) failed)) in
      rw
        (
          process-new server render max_attempts ttl now id o db first valid new,
          rendered_then server render max_attempts ttl now id o
              (logged server render max_attempts ttl now id o db) html rendered,
          ran,
          failed,
        )
        (
          mails,
          processed,
          ap (λ c. suc c) calls,
          (as_dead m n, lookup-adjust_self id (as_dead m) d.logs held, refl, refl),
        )
