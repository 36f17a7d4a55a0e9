-- ===== src/Wallet/Checkout/Settled.antt =====
-- From a deposit's checkout session to the credit of the wallet.
use text.Mathlib.Text.{◌==◌ as str_eq}
use text.Mathlib.TextEquality.{eq_iff}
use eurisko_final_proejct.Base.{
  String, ◌≡◌, ◌≢◌, refl, false, none, some, ok, err, arith, Bool-cases, inl, inr, ap, ◌∙◌, sym,
  Result, Result-cases, Option-cases,
}
use eurisko_final_proejct.Base.Int.{ℤ, ltb_ℤ}
use eurisko_final_proejct.Base.Store.{lookup, lookup-adjust_self}
use eurisko_final_proejct.Redis.{get}
use eurisko_final_proejct.Wallet.Data.{Wallet, MemberContext, Call, Config, Db, Error}
use eurisko_final_proejct.Wallet.Transactions.{has_key}
use eurisko_final_proejct.Wallet.Service.{
  process_stripe_deposit, StripeDepositInput, deposited, credit_deposit, anyway, deposit_record,
}
use eurisko_final_proejct.Wallet.Lock.{release}
use eurisko_final_proejct.Wallet.Lock.Exclusion.{locked, with_lock-free}
use eurisko_final_proejct.Wallet.Outcomes.{
  find_one_and_update-done, ensure_wallet-found, create-done,
}
use eurisko_final_proejct.Wallet.Outcomes.Deposits.{
  credit_deposit-done, process_stripe_deposit-first,
}
use eurisko_final_proejct.Wallet.Checkout.{
  Texts, StripeDepositMeta, SessionRequest, StripeSession, CheckoutSessionResult, metadata_of,
  request_of, create_deposit_session, deposit_meta, min_deposit, max_deposit, initiate_deposit,
  extract_deposit_meta, deposit_input, WebhookEvent, session_completed, handle_webhook,
  complete_session, lifted,
}
use eurisko_final_proejct.Wallet.Checkout.ReadBack.{
  str_eq-ne, usd-nonempty, key-nonempty, TextLaws, extract_deposit_meta-metadata_of,
}

module _ (texts : Texts) (cfg : Config) (asked : Call)
    (create : SessionRequest → Result String StripeSession) (member : MemberContext)
    (amount : ℤ) where
  abbrev asked_for : StripeDepositMeta
  asked_for = deposit_meta texts asked member amount

  create_deposit_session-ok :
      {r : CheckoutSessionResult}
      → create_deposit_session texts create asked_for ≡ ok r
      → (s : StripeSession) × (create (request_of texts asked_for) ≡ ok s) × (s.id ≡ r.session_id)
  unfolding create_deposit_session
  create_deposit_session-ok {r} done = elim (Result-cases (create (request_of texts asked_for))) [
    | inl (e, failed) ↦ absurd (ground (arith, failed, done))
    | inr (s, made) ↦ elim (Option-cases s.url) [
      | inl missing ↦ absurd (ground (arith, made, missing, done))
      | inr (url, there) ↦ elim (Bool-cases (str_eq url "")) [
        | inl empty ↦ absurd (ground (arith, made, there, empty, done))
        | inr _ ↦ (s, made, ground (arith, made, there, done))
      ]
    ]
  ]

  initiate_deposit-ok :
      {r : CheckoutSessionResult}
      → initiate_deposit texts cfg asked create member amount ≡ ok r
      → (ltb_ℤ amount (min_deposit texts cfg) ≡ false)
        × (ltb_ℤ (max_deposit texts cfg) amount ≡ false)
        × (create_deposit_session texts create asked_for ≡ ok r)
  unfolding initiate_deposit
  initiate_deposit-ok done = elim (Bool-cases (ltb_ℤ amount (min_deposit texts cfg))) [
    | inl low ↦ absurd (ground (arith, low, done))
    | inr fine ↦ elim (Bool-cases (ltb_ℤ (max_deposit texts cfg) amount)) [
      | inl high ↦ absurd (ground (arith, fine, high, done))
      | inr good ↦ (fine, good, ground (arith, fine, good, done))
    ]
  ]

module _ (texts : Texts) (cfg : Config) (c : Call) (session : StripeSession) (db : Db) where
  complete_session-paid :
      {meta : StripeDepositMeta}
      → session.payment_status ≡ "paid"
      → extract_deposit_meta texts session ≡ some meta
      → complete_session texts cfg c session db
        ≡ lifted (process_stripe_deposit cfg c (deposit_input texts session meta) db)
  unfolding complete_session
  complete_session-paid paid found =
      ground (arith, paid, found, (eq_iff session.payment_status "paid").1 paid)

  handle_webhook-completed :
      (construct : String → String → Result String WebhookEvent) (body signature : String)
      → signature ≢ ""
      → construct body signature ≡ ok (session_completed session)
      → handle_webhook texts cfg c construct (some body) (some signature) db
        ≡ complete_session texts cfg c session db
  unfolding handle_webhook
  handle_webhook-completed construct body signature signed event =
      rw (str_eq-ne signature "" signed, event) refl

lifted-ok :
    {A : Type 0} (x : Result Error A × Db) {a : A}
    → x.0 ≡ ok a
    → ((lifted x).0 ≡ ok a) × ((lifted x).1 ≡ x.1)
lifted-ok (ok b, db) e = (ground (arith, e), refl)
lifted-ok (err f, db) e = absurd (ground (arith, e))

-- A deposit that was never processed, for a member with a wallet whose lock is free, credits it.
process_stripe_deposit-new :
    (cfg : Config) (c : Call) (input : StripeDepositInput) (db : Db) (w : Wallet)
    → lookup input.user_id db.wallets ≡ some w
    → has_key input.idempotency_key db.transactions ≡ false
    → get c.now input.user_id db.locks ≡ none
    → let (r, after) = process_stripe_deposit cfg c input db in
      (r ≡ ok tt) × (lookup input.user_id after.wallets ≡ some (deposited input.amount c.now w))
unfolding release
process_stripe_deposit-new cfg c input db w held first free =
    let body = credit_deposit c input in
    let start = locked cfg c input.user_id body db in
    let run =
      credit_deposit-done c input start w start _ _ (ensure_wallet-found input.user_id start held)
        (create-done c (deposit_record input w.balance) start first)
        (find_one_and_update-done input.user_id anyway (deposited input.amount c.now) _ held
          refl) in
    rw
      (
        process_stripe_deposit-first cfg c input db first,
        with_lock-free cfg c input.user_id body db free,
        run,
      )
      (refl, lookup-adjust_self input.user_id (deposited input.amount c.now) db.wallets held)

-- A deposit from the request to the credit. If texts are read back as printed and are not empty, the
-- request for a session was answered with one, Stripe reports that session as completed and paid in
-- a signed message and with the metadata that the session was created with, the deposit's key is in no
-- record, and the member has a wallet whose lock is free, then the amount was within the configured
-- bounds, the message is answered, and the member's wallet has exactly the amount more.
pub handle_webhook_settled :
    (texts : Texts) (cfg : Config) (asked c : Call)
    (create : SessionRequest → Result String StripeSession)
    (construct : String → String → Result String WebhookEvent) (member : MemberContext) (amount : ℤ)
    (answer : CheckoutSessionResult) (body signature : String) (session : StripeSession) (db : Db)
    (w : Wallet)
    → TextLaws texts
    → initiate_deposit texts cfg asked create member amount ≡ ok answer
    → ((s : StripeSession)
        → create (request_of texts (deposit_meta texts asked member amount)) ≡ ok s
        → session.id ≡ s.id
        → session.metadata ≡ metadata_of texts (deposit_meta texts asked member amount))
    → session.id ≡ answer.session_id
    → session.payment_status ≡ "paid"
    → signature ≢ ""
    → construct body signature ≡ ok (session_completed session)
    → lookup member.user_id db.wallets ≡ some w
    → has_key (deposit_meta texts asked member amount).idempotency_key db.transactions ≡ false
    → get c.now member.user_id db.locks ≡ none
    → let (r, after) = handle_webhook texts cfg c construct (some body) (some signature) db in
      (r ≡ ok tt)
      × (lookup member.user_id after.wallets ≡ some (deposited amount c.now w))
      × (ltb_ℤ amount (min_deposit texts cfg) ≡ false)
      × (ltb_ℤ (max_deposit texts cfg) amount ≡ false)
handle_webhook_settled texts cfg asked c create construct member amount answer body signature
      session db w laws accepted reported named paid signed event held first free =
    let (low, high, sent) = initiate_deposit-ok texts cfg asked create member amount accepted in
    let (s, made, id) = create_deposit_session-ok texts cfg asked create member amount sent in
    let meta = deposit_meta texts asked member amount in
    let read =
      extract_deposit_meta-metadata_of texts laws meta session (reported s made (named ∙ sym id))
        (laws.id_text-nonempty member.user_id) usd-nonempty (key-nonempty _ _) in
    let user : texts.object_id meta.user_id ≡ member.user_id =
      laws.object_id-id_text member.user_id in
    let (answered, credited) =
      process_stripe_deposit-new cfg c (deposit_input texts session meta) db w (rw user held) first
        (rw user free) in
    let run = process_stripe_deposit cfg c (deposit_input texts session meta) db in
    let (done, same) = lifted-ok run answered in
    rw
      (
        handle_webhook-completed texts cfg c session db construct body signature signed event,
        complete_session-paid texts cfg c session db paid read,
      )
      (done, rw same (ap (λ u. lookup u run.1.wallets) (sym user) ∙ credited), low, high)
