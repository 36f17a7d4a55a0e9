-- ===== src/Wallet/Checkout/ReadBack.antt =====
-- The metadata of a checkout session, written and read back.
use text.Mathlib.Text.{◌==◌ as str_eq}
use text.Mathlib.TextEquality.{eq_iff}
use Prim.Native.Char.{Char}
use Prim.Native.String
use Prim.Native.String.append
use eurisko_final_proejct.Base.{
  ℕ, String, ◌≡◌, ◌≢◌, refl, Bool, true, false, some, arith, Bool-cases, inl, inr, ap, ◌∙◌, sym,
}
use eurisko_final_proejct.Base.Int.{ℤ}
use eurisko_final_proejct.Wallet.Service.{key_of_three}
use eurisko_final_proejct.Wallet.Checkout.{
  Texts, StripeDepositMeta, StripeSession, metadata_of, extract_deposit_meta,
}

unfoldable is_empty : String → Bool
is_empty String.[] = true
is_empty (String.◌∷◌ c s) = false

nonempty : (s : String) → is_empty s ≡ false → s ≢ ""
unfolding is_empty
nonempty s filled e = absurd (ground (arith, filled, ap is_empty e))

append-nonempty : (c : Char) (s t : String) → String.◌++◌ (String.◌∷◌ c s) t ≢ ""
unfolding is_empty
append-nonempty c s t e =
    let same : false ≡ true = ap is_empty (sym (append.cons c s t) ∙ e) in
    absurd (ground (arith, same))

pub str_eq-ne : (a b : String) → a ≢ b → str_eq a b ≡ false
str_eq-ne a b ne = elim (Bool-cases (str_eq a b)) [
  | inl e ↦ absurd (ne ((eq_iff a b).0 e))
  | inr e ↦ e
]

pub usd-nonempty : ◌≢◌ {A = String} "USD" ""
unfolding is_empty
usd-nonempty = nonempty "USD" refl

pub key-nonempty : (a b : String) → key_of_three "deposit" a b ≢ ""
key-nonempty a b = append-nonempty _ "eposit" _

-- What the service relies on: texts are read back as they were printed, and none of them is empty.
pub record TextLaws (texts : Texts) : Type 0 where
  pub parse_float-number_text : (n : ℤ) → texts.parse_float (texts.number_text n) ≡ n
  pub object_id-id_text : (user : ℕ) → texts.object_id (texts.id_text user) ≡ user
  pub number_text-nonempty : (n : ℤ) → texts.number_text n ≢ ""
  pub id_text-nonempty : (user : ℕ) → texts.id_text user ≢ ""

module _ (texts : Texts) (laws : TextLaws texts) where
  -- Metadata read back from a session are those that it was created with, if no text is empty.
  pub extract_deposit_meta-metadata_of :
      (meta : StripeDepositMeta) (session : StripeSession)
      → session.metadata ≡ metadata_of texts meta
      → meta.user_id ≢ ""
      → meta.currency ≢ ""
      → meta.idempotency_key ≢ ""
      → extract_deposit_meta texts session ≡ some meta
  unfolding extract_deposit_meta
  extract_deposit_meta-metadata_of meta session same user currency key =
      rw
        (
          same,
          str_eq-ne meta.user_id "" user,
          str_eq-ne meta.currency "" currency,
          str_eq-ne meta.idempotency_key "" key,
          str_eq-ne (texts.number_text meta.amount) "" (laws.number_text-nonempty meta.amount),
          laws.parse_float-number_text meta.amount,
        )
        refl
