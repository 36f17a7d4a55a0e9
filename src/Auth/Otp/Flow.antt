-- ===== src/Auth/Otp/Flow.antt =====
-- One code is valid at a time, and once.
use text.Mathlib.Text.{◌==◌ as str_eq}
use text.Mathlib.TextEquality.{eq_iff}
use eurisko_final_proejct.Base.{
  ℕ, ◌+◌, ◌*◌, ◌≤◌, String, ◌≡◌, refl, ap, ◌∙◌, true, false, not, ◌&&◌, map, none, some, List, [],
  ◌∷◌, ok, err, arith, inl, inr, Bool-cases, Option-cases, if◌then◌else◌,
}
use eurisko_final_proejct.Base.Store.{Store, lookup, insert, lookup-insert_self}
use eurisko_final_proejct.Auth.Data.{User, activated}
use eurisko_final_proejct.Auth.Otp.{
  Error, OtpPurpose, email_verification, password_reset, same_purpose, Otp, already_used,
  incorrect_code, no_pending_otp, is_for, use_up, supersede, new_otp, create_and_send, latest,
  use_latest, check, validate, was_verified, grace_ms, ms_per_minute, set_password,
}

same_purpose_refl : (p : OtpPurpose) → same_purpose p p ≡ true
same_purpose_refl email_verification = refl
same_purpose_refl password_reset = refl

latest-use_latest :
    (user : ℕ) (purpose : OtpPurpose) (otps : List Otp) {o : Otp}
    → latest user purpose otps ≡ some o
    → latest user purpose (use_latest user purpose otps) ≡ some (use_up o)
unfolding latest use_latest
latest-use_latest user purpose [] found = absurd (ground arith)
latest-use_latest user purpose (x ∷ xs) {o} found = elim (Bool-cases (is_for user purpose x)) [
  | inl hit ↦ ground (arith, hit)
  | inr miss ↦
      ground (arith, miss, latest-use_latest user purpose xs {o = o} (ground (arith, miss)))
]

module _ (now user : ℕ) (code : String) (purpose : OtpPurpose) (otps : List Otp) where
  pub validate-missing :
      latest user purpose otps ≡ none
      → validate now user code purpose otps ≡ (err no_pending_otp, otps)
  unfolding validate
  validate-missing missing = ground (arith, missing)

  pub validate-refused :
      {p : Otp} {e : Error}
      → latest user purpose otps ≡ some p
      → check now code p ≡ some e
      → validate now user code purpose otps ≡ (err e, otps)
  unfolding validate
  validate-refused found refused = ground (arith, found, refused)

  pub validate-accepted :
      {p : Otp}
      → latest user purpose otps ≡ some p
      → check now code p ≡ none
      → validate now user code purpose otps ≡ (ok (use_up p), use_latest user purpose otps)
  unfolding validate
  validate-accepted found passed = ground (arith, found, passed)

  -- What a validation that accepts has found: the latest document, unused, in time, with the code.
  pub validate-ok :
      {o : Otp}
      → (validate now user code purpose otps).0 ≡ ok o
      → (p : Otp) × (latest user purpose otps ≡ some p)
        × (check now code p ≡ none)
        × (validate now user code purpose otps ≡ (ok (use_up p), use_latest user purpose otps))
  validate-ok accepted = elim (Option-cases (latest user purpose otps)) [
    | inl missing ↦ absurd (ground (arith, validate-missing missing))
    | inr (p, found) ↦ elim (Option-cases (check now code p)) [
      | inl passed ↦ (p, found, passed, validate-accepted found passed)
      | inr (e, refused) ↦ absurd (ground (arith, validate-refused found refused))
    ]
  ]

module _ (user : ℕ) (purpose : OtpPurpose) where
  -- The latest document of the user and the purpose is used.
  Spent : List Otp → Type 0
  Spent otps = (o : Otp) × (latest user purpose otps ≡ some o) × (o.used ≡ true)

  use_latest-Spent :
      (user' : ℕ) (purpose' : OtpPurpose) (otps : List Otp)
      → Spent otps
      → Spent (use_latest user' purpose' otps)
  unfolding Spent latest use_latest
  use_latest-Spent user' purpose' [] (o, found, used) = absurd (ground (arith, found))
  use_latest-Spent user' purpose' (x ∷ xs) (o, found, used) =
      elim (Bool-cases (is_for user purpose x)) [
        | inl mine ↦
            let it : x ≡ o = ground (arith, mine, found) in
            let x_used : x.used ≡ true = ap (λ y. y.used) it ∙ used in
            elim (Bool-cases (is_for user' purpose' x)) [
              | inl hit ↦ (use_up x, ground (arith, mine, hit), refl)
              | inr miss ↦ (x, ground (arith, mine, miss), x_used)
            ]
        | inr other ↦ elim (Bool-cases (is_for user' purpose' x)) [
          | inl hit ↦ (o, ground (arith, other, hit, found), used)
          | inr miss ↦
              let (last, there, last_used) =
                use_latest-Spent user' purpose' xs (o, ground (arith, other, found), used) in
              (last, ground (arith, other, miss, there), last_used)
        ]
      ]

  supersede-Spent :
      (user' : ℕ) (purpose' : OtpPurpose) (otps : List Otp)
      → Spent otps
      → Spent (map (supersede user' purpose') otps)
  unfolding Spent latest
  supersede-Spent user' purpose' [] (o, found, used) = absurd (ground (arith, found))
  supersede-Spent user' purpose' (x ∷ xs) (o, found, used) =
      elim (Bool-cases (is_for user purpose x)) [
        | inl mine ↦
            let it : x ≡ o = ground (arith, mine, found) in
            let x_used : x.used ≡ true = ap (λ y. y.used) it ∙ used in
            elim (Bool-cases (is_for user' purpose' x && not x.used)) [
              | inl hit ↦ (use_up x, ground (arith, mine, hit), refl)
              | inr miss ↦ (x, ground (arith, mine, miss), x_used)
            ]
        | inr other ↦
            let (last, there, last_used) =
              supersede-Spent user' purpose' xs (o, ground (arith, other, found), used) in
            elim (Bool-cases (is_for user' purpose' x && not x.used)) [
              | inl hit ↦ (last, ground (arith, other, hit, there), last_used)
              | inr miss ↦ (last, ground (arith, other, miss, there), last_used)
            ]
      ]

  -- Calls of the service, for whomever; no new code for the user and the purpose.
  pub data Calls (otps : List Otp) : List Otp → Type 0 where
    start : Calls otps otps
    validating :
        {mid end : List Otp} (now user' : ℕ) (code : String) (purpose' : OtpPurpose)
        → Calls otps mid
        → end ≡ (validate now user' code purpose' mid).1
        → Calls otps end
    sending :
        {mid end : List Otp} (now minutes user' : ℕ) (code : String) (purpose' : OtpPurpose)
        → Calls otps mid
        → is_for user purpose (new_otp now minutes code user' purpose') ≡ false
        → end ≡ create_and_send now minutes code user' purpose' mid
        → Calls otps end

  validate-Spent :
      (now user' : ℕ) (code : String) (purpose' : OtpPurpose) (otps : List Otp)
      → Spent otps
      → Spent (validate now user' code purpose' otps).1
  validate-Spent now user' code purpose' otps spent =
      elim (Option-cases (latest user' purpose' otps)) [
        | inl missing ↦ rw (validate-missing now user' code purpose' otps missing) spent
        | inr (p, found) ↦ elim (Option-cases (check now code p)) [
          | inl passed ↦
              rw (validate-accepted now user' code purpose' otps {p = p} found passed)
                (use_latest-Spent user' purpose' otps spent)
          | inr (e, refused) ↦
              rw (validate-refused now user' code purpose' otps {p = p} found refused) spent
        ]
      ]

  create_and_send-Spent :
      (now minutes user' : ℕ) (code : String) (purpose' : OtpPurpose) (otps : List Otp)
      → is_for user purpose (new_otp now minutes code user' purpose') ≡ false
      → Spent otps
      → Spent (create_and_send now minutes code user' purpose' otps)
  unfolding create_and_send Spent latest
  create_and_send-Spent now minutes user' code purpose' otps other spent =
      let (o, found, used) = supersede-Spent user' purpose' otps spent in
      (o, ground (arith, other, found), used)

  Calls-Spent : {otps after : List Otp} → Calls otps after → Spent otps → Spent after
  Calls-Spent start spent = spent
  Calls-Spent (validating {mid} now user' code purpose' before e) spent =
      rw e (validate-Spent now user' code purpose' mid (Calls-Spent before spent))
  Calls-Spent (sending {mid} now minutes user' code purpose' before other e) spent =
      rw e
        (create_and_send-Spent now minutes user' code purpose' mid other (Calls-Spent before spent))

  -- Once a code was accepted, and after any calls of the service, one after another, among which no new
  -- code is created for the user and the purpose, every validation for them, of whatever code, is
  -- refused as used and changes nothing.
  pub validate_once :
      (now now' : ℕ) (code code' : String) (otps : List Otp) (o : Otp) {after : List Otp}
      → (validate now user code purpose otps).0 ≡ ok o
      → Calls (validate now user code purpose otps).1 after
      → validate now' user code' purpose after ≡ (err already_used, after)
  unfolding Spent
  validate_once now now' code code' otps o {after} accepted between =
      let (p, found, _, e) = validate-ok now user code purpose otps accepted in
      let spent : Spent (validate now user code purpose otps).1 =
        rw e (use_up p, latest-use_latest user purpose otps found, refl) in
      let (last, there, used) = Calls-Spent between spent in
      validate-refused now' user code' purpose after {p = last} there (ground (arith, used))

was_verified-use_latest :
    (now user : ℕ) (code : String) (purpose : OtpPurpose) (otps : List Otp) {p : Otp}
    → latest user purpose otps ≡ some p
    → str_eq p.code code ≡ true
    → now ≤ p.created_at + grace_ms
    → was_verified now user code purpose (use_latest user purpose otps) ≡ true
unfolding latest use_latest was_verified
was_verified-use_latest now user code purpose [] found same recent = absurd (ground arith)
was_verified-use_latest now user code purpose (x ∷ xs) {p = o} found same recent =
    elim (Bool-cases (is_for user purpose x)) [
      | inl hit ↦
          let it : x ≡ o = ground (arith, hit) in
          let created : x.created_at ≡ o.created_at = ap (λ y. y.created_at) it in
          let coded : x.code ≡ o.code = ap (λ y. y.code) it in ground (arith, hit, created, coded)
      | inr miss ↦ ground (
        arith,
        miss,
        was_verified-use_latest now user code purpose xs {p = o} (ground (arith, miss)) same recent,
      )
    ]

set_password-done :
    (now email : ℕ) (code hash : String) (otps : List Otp) (users : Store User) {u : User}
    → lookup email users ≡ some u
    → was_verified now u.id code email_verification otps ≡ true
    → set_password now email code hash otps users ≡ (ok tt, insert email (activated hash u) users)
unfolding set_password
set_password-done now email code hash otps users known verified = ground (arith, known, verified)

-- Whoever has just had a code accepted passes `setPassword` with it, within 15 minutes of its creation:
-- the account becomes active with the new password.
pub set_password_verified :
    (now now' email : ℕ) (code hash : String) (otps : List Otp) (users : Store User) (u : User)
    (o : Otp)
    → lookup email users ≡ some u
    → (validate now u.id code email_verification otps).0 ≡ ok o
    → now' ≤ o.created_at + grace_ms
    → let (r, after) =
        set_password now' email code hash
          (validate now u.id code email_verification otps).1
          users in
      (r ≡ ok tt) × (lookup email after ≡ some (activated hash u))
set_password_verified now now' email code hash otps users u o known accepted recent =
    let (p, found, passed, e) = validate-ok now u.id code email_verification otps accepted in
    let same_age : o.created_at ≡ p.created_at = ground (arith, e) in
    let verified =
      was_verified-use_latest now' u.id code email_verification otps found (ground (arith, passed))
        (ground (arith, same_age)) in
    rw (ap (λ x. x.1) e, set_password-done now' email code hash _ users known verified)
      (refl, lookup-insert_self email (activated hash u) users)

-- The code of a document that was only replaced passes `setPassword` too, within 15 minutes of its
-- creation, although nobody has given it to `validate`: asking for a second code is enough.
pub set_password_replaced :
    (now sent again minutes email : ℕ) (code other hash : String) (otps : List Otp)
    (users : Store User) (u : User)
    → lookup email users ≡ some u
    → now ≤ sent + grace_ms
    → let after_two =
        create_and_send again minutes other u.id email_verification
          (create_and_send sent minutes code u.id email_verification otps) in
      let (r, after) = set_password now email code hash after_two users in
      (r ≡ ok tt) × (lookup email after ≡ some (activated hash u))
unfolding set_password create_and_send was_verified
set_password_replaced now sent again minutes email code other hash otps users u known recent = (
  ground (arith, known, (eq_iff code code).1 refl),
  ground
      (arith, known, (eq_iff code code).1 refl, lookup-insert_self email (activated hash u) users),
)

-- The code that was sent last is accepted until it expires, and then no other code is.
pub create_and_send-validate :
    (now now' minutes user : ℕ) (code given : String) (purpose : OtpPurpose) (otps : List Otp)
    → now' ≤ now + minutes * ms_per_minute
    → (validate now' user given purpose (create_and_send now minutes code user purpose otps)).0 ≡ (
        if str_eq code given
        then ok (use_up (new_otp now minutes code user purpose))
        else err incorrect_code)
unfolding validate create_and_send latest
create_and_send-validate now now' minutes user code given purpose otps in_time =
    ground (arith, same_purpose_refl purpose)
