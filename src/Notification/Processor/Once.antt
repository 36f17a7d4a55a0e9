-- ===== src/Notification/Processor/Once.antt =====
-- One notification for each key: the log stops the second.
use text.Mathlib.TextEquality.{eq_iff}
use eurisko_final_proejct.Base.{
  ℕ, suc, ◌+◌, ◌*◌, String, ◌≡◌, refl, ◌∙◌, true, false, Option, none, some, [], ◌∷◌, ◌++◌, Result,
  ok, err, arith, inl, inr, Bool-cases, Option-cases, Result-cases,
}
use eurisko_final_proejct.Base.Store.{Store, lookup, insert, adjust}
use eurisko_final_proejct.Notification.Retry.Attempts.{loop-keeps}
use eurisko_final_proejct.Notification.Processor.{
  Notification, ProcessOptions, Db, is_duplicate, has_log, pending_log, create_pending, update_log,
  as_sent, as_failed, as_retrying, as_dead, mail_of, is_valid, ms_per_second, send, deliver,
  render_and_deliver, process,
}

has_log-insert :
    (id : ℕ) (n : Notification) (logs : Store Notification)
    → has_log n.idempotency_key (insert id n logs) ≡ true
unfolding has_log insert
has_log-insert id n [] = ground (arith, (eq_iff n.idempotency_key n.idempotency_key).1 refl)
has_log-insert id n ((j, m) ∷ logs) =
    ground (arith, (eq_iff n.idempotency_key n.idempotency_key).1 refl, has_log-insert id n logs)

has_log-insert_new :
    (key : String) (id : ℕ) (n : Notification) (logs : Store Notification)
    → lookup id logs ≡ none
    → has_log key logs ≡ true
    → has_log key (insert id n logs) ≡ true
unfolding has_log lookup insert
has_log-insert_new key id n [] new seen = absurd (ground (arith, seen))
has_log-insert_new key id n ((j, m) ∷ logs) new seen =
    ground (arith, new, seen, has_log-insert_new key id n logs)

has_log-adjust :
    (key : String) (id : ℕ) (f : Notification → Notification) (logs : Store Notification)
    → ((n : Notification) → (f n).idempotency_key ≡ n.idempotency_key)
    → has_log key (adjust id f logs) ≡ has_log key logs
unfolding has_log adjust
has_log-adjust key id f [] same = refl
has_log-adjust key id f ((j, n) ∷ logs) same =
    ground (arith, same n, has_log-adjust key id f logs same)

abbrev Logged : String → Db → Type 0
Logged key db = has_log key db.logs ≡ true

update-Logged :
    (key : String) (id : ℕ) (f : Notification → Notification) (db : Db)
    → ((n : Notification) → (f n).idempotency_key ≡ n.idempotency_key)
    → Logged key db
    → Logged key (update_log id f db)
update-Logged key id f db same h = has_log-adjust key id f db.logs same ∙ h

module _ (server : ℕ → Option String) (render : String → String → Result String String)
    (max_attempts ttl now : ℕ) (id : ℕ) (o : ProcessOptions) where
  pub send-failed :
      (html : String) (db : Db) {m : String}
      → server db.calls ≡ some m
      → send server render max_attempts ttl now id o html db
        ≡ (err m, record db { calls = suc db.calls })
  unfolding send
  send-failed html db e = ground (arith, e)

  pub send-done :
      (html : String) (db : Db)
      → server db.calls ≡ none
      → send server render max_attempts ttl now id o html db ≡ (
        ok tt,
        record db {
          calls = suc db.calls;
          mails = db.mails ++ mail_of o html ∷ [];
          logs = adjust id (as_sent now) db.logs;
          processed = (o.idempotency_key, now + ttl * ms_per_second) ∷ db.processed;
        },
      )
  unfolding send
  send-done html db e = ground (arith, e)

  send-Logged :
      (key html : String) (db : Db)
      → Logged key db
      → Logged key (send server render max_attempts ttl now id o html db).1
  send-Logged key html db h = elim (Option-cases (server db.calls)) [
    | inl free ↦ rw (send-done html db free) (update-Logged key id (as_sent now) db (λ n. refl) h)
    | inr (m, e) ↦ rw (send-failed html db e) h
  ]

  deliver-Logged :
      (key html : String) (db : Db)
      → Logged key db
      → Logged key (deliver server render max_attempts ttl now id o html db)
  deliver-Logged key html db h =
      loop-keeps (send server render max_attempts ttl now id o html) max_attempts
        (λ n d. update_log id (as_retrying n) d) (λ m d. update_log id (as_dead m) d) (λ _ d. d)
        (Logged key) (send-Logged key html)
        (λ n d e. update-Logged key id (as_retrying n) d (λ x. refl) e)
        (λ m d e. update-Logged key id (as_dead m) d (λ x. refl) e) (λ _ d e. e) max_attempts 0 db h

  process-seen :
      (db : Db)
      → Logged o.idempotency_key db
      → process server render max_attempts ttl now id o db ≡ db
  unfolding process create_pending
  process-seen db seen = ground (arith, seen)

  process-duplicate :
      (db : Db)
      → is_duplicate now o.idempotency_key db.processed ≡ true
      → process server render max_attempts ttl now id o db ≡ db
  unfolding process
  process-duplicate db seen = ground (arith, seen)

  -- The log has the new document, before the mail.
  abbrev pub logged : Db → Db
  logged db = record db { logs = insert id (pending_log o) db.logs }

  pub process-new :
      (db : Db)
      → is_duplicate now o.idempotency_key db.processed ≡ false
      → is_valid o ≡ true
      → has_log o.idempotency_key db.logs ≡ false
      → process server render max_attempts ttl now id o db
        ≡ render_and_deliver server render max_attempts ttl now id o (logged db)
  unfolding process create_pending
  process-new db first valid new = ground (arith, first, valid, new)

  render_and_deliver-Logged :
      (key : String) (db : Db)
      → Logged key db
      → Logged key (render_and_deliver server render max_attempts ttl now id o db)
  render_and_deliver-Logged key db h =
      elim (Result-cases (render o.template_name o.template_context)) [
        | inl (m, e) ↦
            rw (e, render_and_deliver) (update-Logged key id (as_failed m) db (λ n. refl) h)
        | inr (html, e) ↦ rw (e, render_and_deliver) (deliver-Logged key html db h)
      ]

  pub rendered_then :
      (db : Db) (html : String)
      → render o.template_name o.template_context ≡ ok html
      → render_and_deliver server render max_attempts ttl now id o db
        ≡ deliver server render max_attempts ttl now id o html db
  rendered_then db html e = rw (e, render_and_deliver) refl

  process-invalid :
      (db : Db) → is_valid o ≡ false → process server render max_attempts ttl now id o db ≡ db
  unfolding process create_pending
  process-invalid db bad = ground (arith, bad)

  -- A valid notification that is not skipped as processed is in the log afterwards.
  pub process-Logged :
      (db : Db)
      → is_duplicate now o.idempotency_key db.processed ≡ false
      → is_valid o ≡ true
      → Logged o.idempotency_key (process server render max_attempts ttl now id o db)
  process-Logged db first valid = elim (Bool-cases (has_log o.idempotency_key db.logs)) [
    | inl seen ↦ rw (process-seen db seen) seen
    | inr new ↦ rw (process-new db first valid new) (
        render_and_deliver-Logged o.idempotency_key (logged db)
          (has_log-insert id (pending_log o) db.logs))
  ]

  -- No delivery takes a key out of the log.
  process-keeps :
      (key : String) (db : Db)
      → lookup id db.logs ≡ none
      → Logged key db
      → Logged key (process server render max_attempts ttl now id o db)
  process-keeps key db new_id h =
      elim (Bool-cases (is_duplicate now o.idempotency_key db.processed)) [
        | inl seen ↦ rw (process-duplicate db seen) h
        | inr first ↦ elim (Bool-cases (is_valid o)) [
          | inr bad ↦ rw (process-invalid db bad) h
          | inl valid ↦ elim (Bool-cases (has_log o.idempotency_key db.logs)) [
            | inl seen ↦ rw (process-seen db seen) h
            | inr new ↦ rw (process-new db first valid new) (
                render_and_deliver-Logged key (logged db)
                  (has_log-insert_new key id (pending_log o) db.logs new_id h))
          ]
        ]
      ]

-- Any deliveries, one after another, at any times, each with a new `_id` for its document.
pub data Deliveries (db : Db) : Db → Type 0 where
  start : Deliveries db db
  later :
      {mid end : Db} (server : ℕ → Option String) (render : String → String → Result String String)
      (max_attempts ttl now id : ℕ) (o : ProcessOptions)
      → Deliveries db mid
      → lookup id mid.logs ≡ none
      → end ≡ process server render max_attempts ttl now id o mid
      → Deliveries db end

Deliveries-Logged :
    (key : String) {db db' : Db} → Deliveries db db' → Logged key db → Logged key db'
Deliveries-Logged key start h = h
Deliveries-Logged key (later {mid} server render max_attempts ttl now id o before new_id e) h =
    rw e (
      process-keeps server render max_attempts ttl now id o key mid new_id
        (Deliveries-Logged key before h))

-- Once a notification that the log's schema accepts has been delivered to the service, not skipped for
-- a key in Redis, a further one with its key, after any other deliveries and at any time, also when
-- the key in Redis has expired, changes nothing: no second mail, whatever became of the first.
pub process_twice :
    (server server' : ℕ → Option String) (render render' : String → String → Result String String)
    (max_attempts max_attempts' ttl ttl' now now' id id' : ℕ) (o again : ProcessOptions) (db : Db)
    {db' : Db}
    → is_duplicate now o.idempotency_key db.processed ≡ false
    → is_valid o ≡ true
    → again.idempotency_key ≡ o.idempotency_key
    → Deliveries (process server render max_attempts ttl now id o db) db'
    → process server' render' max_attempts' ttl' now' id' again db' ≡ db'
process_twice server server' render render' max_attempts max_attempts' ttl ttl' now now' id id' o
      again db {db'} first valid same between =
    process-seen server' render' max_attempts' ttl' now' id' again db' (
      rw same (
        Deliveries-Logged o.idempotency_key between
          (process-Logged server render max_attempts ttl now id o db first valid)))
