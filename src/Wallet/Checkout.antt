-- ===== src/Wallet/Checkout.antt =====
-- `initiateDeposit` of apps/wallet-service/src/modules/wallet/wallet.service.ts, and
-- modules/stripe/stripe.service.ts with modules/stripe/stripe-webhook.controller.ts. The Stripe client,
-- the printing and parsing of numbers, and the text of ids are parameters.
pub mod ReadBack
pub mod Settled
pub mod Tests
use text.Mathlib.Text.{◌==◌ as str_eq}
use mathlib.Core.Option.{get_or}
use eurisko_final_proejct.Base.{
  ℕ, suc, ◌+◌, ◌-◌, ◌*◌, ◌/◌, String, Bool, true, false, not, ◌&&◌, ◌||◌, Option, none, some,
  Result, ok, err, Action, if◌then◌else◌,
}
use eurisko_final_proejct.Base.Int.{ℤ, pos, negsuc, sub_ℕ, ltb_ℤ}
use eurisko_final_proejct.Wallet.Data.{MemberContext, Call, Config, Db, Error}
use eurisko_final_proejct.Wallet.Service.{StripeDepositInput, process_stripe_deposit, key_of_three}

-- What the JavaScript runtime and the driver do with texts: `String(n)`, `parseFloat`, `toLowerCase`, the
-- text of an ObjectId and the ObjectId of a text.
pub record Texts : Type 0 where
  pub number_text : ℤ → String
  pub parse_float : String → ℤ
  pub to_lower : String → String
  pub id_text : ℕ → String
  pub object_id : String → ℕ

-- `StripeDepositMeta`
pub record StripeDepositMeta : Type 0 where
  pub user_id : String
  pub amount : ℤ
  pub currency : String
  pub idempotency_key : String

-- `session.metadata`: the four keys that the service reads.
pub record Metadata : Type 0 where
  pub user_id : Option String
  pub amount : Option String
  pub currency : Option String
  pub idempotency_key : Option String

-- The argument of `checkout.sessions.create` as far as the service computes it.
pub record SessionRequest : Type 0 where
  pub currency : String
  pub unit_amount : ℤ
  pub metadata : Metadata
  pub success_url : String
  pub cancel_url : String

pub data PaymentIntent : Type 0 where
  no_intent intent_object : PaymentIntent
  intent_id : String → PaymentIntent

-- `StripeSession`
pub record StripeSession : Type 0 where
  pub id : String
  pub url : Option String
  pub payment_status : String
  pub payment_intent : PaymentIntent
  pub metadata : Metadata

pub data CheckoutError : Type 0 where
  deposit_out_of_range no_checkout_url : CheckoutError
  stripe_failed : String → CheckoutError

-- `CheckoutSessionResult`
pub record CheckoutSessionResult : Type 0 where
  pub session_id : String
  pub checkout_url : String

-- `Math.round(amount * 100)` on the grid 10^-6: halves go up.
abbrev pub unit_amount_of : ℤ → ℤ
unit_amount_of (pos n) = pos ((n + 5_000) / 10_000)
unit_amount_of (negsuc m) = sub_ℕ 0 ((suc m - 5_000 + 9_999) / 10_000)

abbrev pub results_url : String
results_url = "https://dashboard.stripe.com/test/payments"

-- An empty text is as good as none.
abbrev pub truthy : Option String → Bool
truthy none = false
truthy (some s) = not (str_eq s "")

module _ (texts : Texts) where
  abbrev pub metadata_of : StripeDepositMeta → Metadata
  metadata_of meta = record {
    user_id = some meta.user_id;
    amount = some (texts.number_text meta.amount);
    currency = some meta.currency;
    idempotency_key = some meta.idempotency_key;
  }

  abbrev pub request_of : StripeDepositMeta → SessionRequest
  request_of meta = record {
    currency = texts.to_lower meta.currency;
    unit_amount = unit_amount_of meta.amount;
    metadata = metadata_of meta;
    success_url = results_url;
    cancel_url = results_url;
  }

  -- With the client's `create` as a parameter; a session without an address is refused.
  unfoldable pub create_deposit_session :
      (SessionRequest → Result String StripeSession)
      → StripeDepositMeta
      → Result CheckoutError CheckoutSessionResult
  create_deposit_session create meta = elim (create (request_of meta)) [
    | err message ↦ err (stripe_failed message)
    | ok session ↦ elim session.url [
      | none ↦ err no_checkout_url
      | some url ↦
          if str_eq url ""
          then err no_checkout_url
          else ok (record { session_id = session.id; checkout_url = url })
    ]
  ]

  abbrev pub min_deposit : Config → ℤ
  min_deposit cfg = get_or cfg.min_deposit (pos 10_000_000)

  abbrev pub max_deposit : Config → ℤ
  max_deposit cfg = get_or cfg.max_deposit (pos 100_000_000_000)

  -- What the session of a deposit is asked for with.
  abbrev pub deposit_meta : Call → MemberContext → ℤ → StripeDepositMeta
  deposit_meta c member amount = record {
    user_id = texts.id_text member.user_id;
    amount = amount;
    currency = "USD";
    idempotency_key = key_of_three "deposit" (texts.id_text member.user_id) c.uuid;
  }

  unfoldable pub initiate_deposit :
      Config
      → Call
      → (SessionRequest → Result String StripeSession)
      → MemberContext
      → ℤ
      → Result CheckoutError CheckoutSessionResult
  initiate_deposit cfg c create member amount =
      if ltb_ℤ amount (min_deposit cfg) || ltb_ℤ (max_deposit cfg) amount
      then err deposit_out_of_range
      else create_deposit_session create (deposit_meta c member amount)

  abbrev given : Option String → String
  given none = ""
  given (some s) = s

  unfoldable pub extract_deposit_meta : StripeSession → Option StripeDepositMeta
  extract_deposit_meta session =
      let m = session.metadata in
      if truthy m.user_id && (truthy m.amount && (truthy m.currency && truthy m.idempotency_key))
      then some (record {
        user_id = given m.user_id;
        amount = texts.parse_float (given m.amount);
        currency = given m.currency;
        idempotency_key = given m.idempotency_key;
      })
      else none

  abbrev pub intent_of : PaymentIntent → Option String
  intent_of (intent_id s) = some s
  intent_of _ = none

  abbrev pub deposit_input : StripeSession → StripeDepositMeta → StripeDepositInput
  deposit_input session meta = record {
    user_id = texts.object_id meta.user_id;
    amount = meta.amount;
    currency = meta.currency;
    idempotency_key = meta.idempotency_key;
    stripe_session_id = session.id;
    stripe_payment_intent_id = intent_of session.payment_intent;
  }

pub data WebhookEvent : Type 0 where
  session_completed : StripeSession → WebhookEvent
  session_expired : (id : String) → WebhookEvent
  unhandled : (type_of : String) → WebhookEvent

pub data WebhookError : Type 0 where
  missing_signature missing_body : WebhookError
  signature_invalid : String → WebhookError
  failed : Error → WebhookError

abbrev pub lifted : {A : Type 0} → Result Error A × Db → Result WebhookError A × Db
lifted (ok a, db) = (ok a, db)
lifted (err e, db) = (err (failed e), db)

module _ (texts : Texts) (cfg : Config) (c : Call) where
  -- The case `checkout.session.completed`.
  unfoldable pub complete_session : StripeSession → Action Db WebhookError (Unit {0})
  complete_session session db =
      if str_eq session.payment_status "paid"
      then elim (extract_deposit_meta texts session) [
        | none ↦ (ok tt, db)
        | some meta ↦ lifted (process_stripe_deposit cfg c (deposit_input texts session meta) db)
      ]
      else (ok tt, db)

  abbrev pub handle_event : WebhookEvent → Action Db WebhookError (Unit {0})
  handle_event (session_completed session) db = complete_session session db
  handle_event (session_expired _) db = (ok tt, db)
  handle_event (unhandled _) db = (ok tt, db)

  -- `constructWebhookEvent` checks the signature of the raw body with the Stripe library.
  unfoldable pub handle_webhook :
      (String → String → Result String WebhookEvent)
      → Option String
      → Option String
      → Action Db WebhookError (Unit {0})
  handle_webhook construct body none db = (err missing_signature, db)
  handle_webhook construct none (some signature) db =
      (if str_eq signature "" then err missing_signature else err missing_body, db)
  handle_webhook construct (some body) (some signature) db =
      if str_eq signature "" then (err missing_signature, db) else elim (construct body signature) [
        | err message ↦ (err (signature_invalid message), db)
        | ok event ↦ handle_event event db
      ]
