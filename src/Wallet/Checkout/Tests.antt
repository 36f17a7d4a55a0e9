-- ===== src/Wallet/Checkout/Tests.antt =====
-- A deposit of 12 units with texts in unary, from the request for a session to the credit.
use Prim.Native.Char.{Char, code}
use eurisko_final_proejct.Base.{
  ℕ, zero, suc, String, ◌≡◌, ◌≢◌, refl, ap, some, none, [], ◌∷◌, ok, err, Result, arith, false,
  ◌==◌, if◌then◌else◌,
}
use eurisko_final_proejct.Base.Int.{ℤ, pos, negsuc, ltb_ℤ}
use eurisko_final_proejct.Base.Store.{lookup}
use eurisko_final_proejct.Redis.{get}
use eurisko_final_proejct.Wallet.Data.{Config, Db}
use eurisko_final_proejct.Wallet.Transactions.{has_key}
use eurisko_final_proejct.Wallet.Service.{deposited, new_wallet}
use eurisko_final_proejct.Wallet.Calls.Tests.{call, member}
use eurisko_final_proejct.Wallet.Checkout.{
  Texts, deposit_out_of_range, StripeDepositMeta, StripeSession, SessionRequest,
  CheckoutSessionResult, WebhookEvent, session_completed, no_intent, metadata_of, deposit_meta,
  initiate_deposit, create_deposit_session, extract_deposit_meta, handle_webhook, min_deposit,
  max_deposit,
}
use eurisko_final_proejct.Wallet.Checkout.ReadBack.{TextLaws, extract_deposit_meta-metadata_of}
use eurisko_final_proejct.Wallet.Checkout.Settled.{handle_webhook_settled}

abbrev star : Char
star = "*"

abbrev dash : Char
dash = "-"

abbrev stars : ℕ → String
stars zero = String.[]
stars (suc n) = String.◌∷◌ star (stars n)

abbrev size : String → ℕ
size String.[] = 0
size (String.◌∷◌ c s) = suc (size s)

abbrev print : ℤ → String
print (pos n) = String.◌∷◌ star (stars n)
print (negsuc n) = String.◌∷◌ dash (stars n)

abbrev read : String → ℤ
read String.[] = pos 0
read (String.◌∷◌ c s) = if code c == code star then pos (size s) else negsuc (size s)

abbrev unary : Texts
unary = record {
  number_text = print;
  parse_float = read;
  to_lower = λ s. s;
  id_text = λ n. String.◌∷◌ star (stars n);
  object_id = λ s. elim s [ String.[] ↦ 0 | String.◌∷◌ c t ↦ size t ];
}

size-stars : (n : ℕ) → size (stars n) ≡ n
size-stars zero = refl
size-stars (suc n) = ap suc (size-stars n)

read-print : (n : ℤ) → read (print n) ≡ n
read-print (pos n) = ap pos (size-stars n)
read-print (negsuc n) = ap negsuc (size-stars n)

cons_ne : (c : Char) (s : String) → String.◌∷◌ c s ≢ String.[]
cons_ne c s e = absurd (ground (arith, ap size e))

print-nonempty : (n : ℤ) → print n ≢ ""
print-nonempty (pos n) = cons_ne star (stars n)
print-nonempty (negsuc n) = cons_ne dash (stars n)

unary_laws : TextLaws unary
unary_laws = record {
  parse_float-number_text = read-print;
  object_id-id_text = size-stars;
  number_text-nonempty = print-nonempty;
  id_text-nonempty = λ n. cons_ne star (stars n);
}

abbrev cents : Config
cents = record {
  min_deposit = some (pos 10);
  max_deposit = some (pos 20);
  withdrawal_hold_hrs = none;
  lock_ttl_ms = none;
}

abbrev asked_for : StripeDepositMeta
asked_for = deposit_meta unary (call 1 0) member (pos 12)

abbrev session : String → SessionRequest → StripeSession
session status request = record {
  id = "cs_1";
  url = some "https://pay";
  payment_status = status;
  payment_intent = no_intent;
  metadata = request.metadata;
}

abbrev open_session : SessionRequest → Result String StripeSession
open_session request = ok (session "unpaid" request)

abbrev paid_session : StripeSession
paid_session =
    record (session "paid" (record {
      currency = "usd";
      unit_amount = pos 0;
      metadata = metadata_of unary asked_for;
      success_url = "";
      cancel_url = "";
    })) { id = "cs_1" }

abbrev construct : String → String → Result String WebhookEvent
construct body signature = ok (session_completed paid_session)

abbrev db : Db
db = record { wallets = (7, new_wallet) ∷ []; transactions = []; locks = []; events = [] }

abbrev answer : CheckoutSessionResult
answer = record { session_id = "cs_1"; checkout_url = "https://pay" }

too_small :
    initiate_deposit unary cents (call 1 0) open_session member (pos 9) ≡ err deposit_out_of_range
unfolding initiate_deposit
too_small = refl

accepted : initiate_deposit unary cents (call 1 0) open_session member (pos 12) ≡ ok answer
unfolding initiate_deposit create_deposit_session
accepted = refl

extract_deposit_meta-metadata_of_run : extract_deposit_meta unary paid_session ≡ some asked_for
extract_deposit_meta-metadata_of_run =
    extract_deposit_meta-metadata_of unary unary_laws asked_for paid_session refl
      (cons_ne star (stars 7)) (cons_ne _ _) (cons_ne _ _)

handle_webhook_settled_example :
    let (r, after) =
      handle_webhook unary cents (call 2 1) construct (some "body") (some "signature") db in
    (r ≡ ok tt)
    × (lookup 7 after.wallets ≡ some (deposited (pos 12) 2 new_wallet))
    × (ltb_ℤ (pos 12) (min_deposit unary cents) ≡ false)
    × (ltb_ℤ (max_deposit unary cents) (pos 12) ≡ false)
unfolding lookup get has_key
handle_webhook_settled_example =
    handle_webhook_settled unary cents (call 1 0) (call 2 1) open_session construct member (pos 12)
      answer "body" "signature" paid_session db new_wallet unary_laws accepted (λ s made same. refl)
      refl refl (cons_ne _ _) refl refl refl refl
