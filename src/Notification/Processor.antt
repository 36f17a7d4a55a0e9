-- ===== src/Notification/Processor.antt =====
-- apps/notification-service/src/processor/processor.service.ts, with notification-log/
-- notification.service.ts and idempotency/idempotency.service.ts. The mail server and the templates are
-- parameters: the error of each call to the server in turn, and the text or the error of a rendering.
-- So are the limit of attempts and the seconds that a key is kept.
pub mod Once
pub mod Delivery
pub mod Tests
use text.Mathlib.Text.{◌==◌ as str_eq}
use eurisko_final_proejct.Base.{
  ℕ, suc, ◌+◌, ◌*◌, String, Bool, true, false, not, ◌&&◌, ◌||◌, ltb, Option, none, some, List, [],
  ◌∷◌, ◌++◌, Result, ok, err, if◌then◌else◌,
}
use eurisko_final_proejct.Base.Store.{Store, lookup, insert, adjust}
use eurisko_final_proejct.Notification.Retry.{execute_with_retry}

pub data NotificationStatus : Type 0 where
  pending sent failed retrying dead : NotificationStatus

-- A document of notification-log/notification.schema.ts.
pub record Notification : Type 0 where
  pub user_id : String
  pub email : String
  pub type_of : String
  pub channel : String
  pub payload : String
  pub idempotency_key : String
  pub status : NotificationStatus
  pub attempts : ℕ
  pub error_message : Option String
  pub sent_at : Option ℕ

-- `ProcessOptions`
pub record ProcessOptions : Type 0 where
  pub user_id : String
  pub email : String
  pub type_of : String
  pub subject : String
  pub template_name : String
  pub template_context : String
  pub idempotency_key : String

pub record Mail : Type 0 where
  pub to : String
  pub subject : String
  pub html : String

-- The log, the keys in Redis with the times at which they expire, the calls made to the mail server, and
-- the mails that it has taken.
pub record Db : Type 0 where
  pub logs : Store Notification
  pub processed : List (String × ℕ)
  pub calls : ℕ
  pub mails : List Mail

-- `isDuplicate` at a time.
unfoldable pub is_duplicate : ℕ → String → List (String × ℕ) → Bool
is_duplicate now key [] = false
is_duplicate now key ((k, expires) ∷ ks) =
    (str_eq k key && ltb now expires) || is_duplicate now key ks

-- The test of the unique index.
unfoldable pub has_log : String → Store Notification → Bool
has_log key [] = false
has_log key ((_, n) ∷ ns) = str_eq n.idempotency_key key || has_log key ns

abbrev pub pending_log : ProcessOptions → Notification
pending_log o = record {
  user_id = o.user_id;
  email = o.email;
  type_of = o.type_of;
  channel = "EMAIL";
  payload = o.template_context;
  idempotency_key = o.idempotency_key;
  status = pending;
  attempts = 0;
  error_message = none;
  sent_at = none;
}

-- The types of the schema's `enum`.
abbrev pub is_notification_type : String → Bool
is_notification_type t =
    str_eq t "OTP_SEND"
    || (str_eq t "WALLET_CREDITED"
        || (str_eq t "TRADE_EXECUTED" || (str_eq t "PRICE_ALERT" || str_eq t "CMS_PROVISIONED")))

-- The validation of the schema: `required` refuses an empty text.
unfoldable pub is_valid : ProcessOptions → Bool
is_valid o =
    not (str_eq o.user_id "") && (not (str_eq o.email "") && is_notification_type o.type_of)

-- `createPending`, or the error of the validation or of the index.
unfoldable pub create_pending : ℕ → ProcessOptions → Db → Option Db
create_pending id o db =
    if not (is_valid o) || has_log o.idempotency_key db.logs
    then none
    else some (record db { logs = insert id (pending_log o) db.logs })

abbrev pub ms_per_second : ℕ
ms_per_second = 1000

abbrev pub update_log : ℕ → (Notification → Notification) → Db → Db
update_log id f db = record db { logs = adjust id f db.logs }

abbrev pub as_sent : ℕ → Notification → Notification
as_sent now n = record n { status = sent; sent_at = some now }

abbrev pub as_failed : String → Notification → Notification
as_failed message n = record n { status = failed; error_message = some message }

abbrev pub as_retrying : ℕ → Notification → Notification
as_retrying attempts n = record n { status = retrying; attempts = attempts }

abbrev pub as_dead : String → Notification → Notification
as_dead message n = record n { status = dead; error_message = some message }

abbrev pub mail_of : ProcessOptions → String → Mail
mail_of o html = record { to = o.email; subject = o.subject; html = html }

module _ (server : ℕ → Option String) (render : String → String → Result String String)
    (max_attempts ttl now : ℕ) where
  -- The operation that is retried: the mail, then `markSent` and `markProcessed`.
  unfoldable pub send : ℕ → ProcessOptions → String → Db → Result String (Unit {0}) × Db
  send id o html db = elim (server db.calls) [
    | some message ↦ (err message, record db { calls = suc db.calls })
    | none ↦ (
      ok tt,
      record db {
        calls = suc db.calls;
        mails = db.mails ++ mail_of o html ∷ [];
        logs = adjust id (as_sent now) db.logs;
        processed = (o.idempotency_key, now + ttl * ms_per_second) ∷ db.processed;
      },
    )
  ]

  abbrev pub deliver : ℕ → ProcessOptions → String → Db → Db
  deliver id o html db =
      (execute_with_retry (send id o html) max_attempts (λ n d. update_log id (as_retrying n) d)
        (λ m d. update_log id (as_dead m) d) (λ _ d. d) db).1

  abbrev pub render_and_deliver : ℕ → ProcessOptions → Db → Db
  render_and_deliver id o db = elim (render o.template_name o.template_context) [
    | err message ↦ update_log id (as_failed message) db
    | ok html ↦ deliver id o html db
  ]

  unfoldable pub process : ℕ → ProcessOptions → Db → Db
  process id o db =
      if is_duplicate now o.idempotency_key db.processed
      then db
      else elim (create_pending id o db) [ none ↦ db | some db' ↦ render_and_deliver id o db' ]
