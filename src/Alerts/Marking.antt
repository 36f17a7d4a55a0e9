-- ===== src/Alerts/Marking.antt =====
-- What marking by ids leaves open.
use eurisko_final_proejct.Base.{
  ℕ, ◌≤◌, ◌≡◌, refl, Bool, true, not, List, [], ◌∷◌, All, select, length, length-select-le, arith,
  inl, inr, Bool-cases, sym, subst,
}
use eurisko_final_proejct.Base.Int.{ℤ}
use eurisko_final_proejct.Base.Store.{Store}
use eurisko_final_proejct.Alerts.{Alert, reached, is_open, has_id, mark, ids_of, due}

abbrev pub unmarked : List ℕ → ℕ × Alert → Bool
unmarked ids d = not (has_id ids d.0)

-- Open afterwards is what was open before and is not among the ids.
pub select-mark :
    (stock : ℕ) (ids : List ℕ) (alerts : Store Alert)
    → select (is_open stock) (mark ids alerts)
      ≡ select (unmarked ids) (select (is_open stock) alerts)
unfolding mark
select-mark stock ids [] = refl
select-mark stock ids ((id, a) ∷ rest) = elim (Bool-cases (has_id ids id)) [
  | inl hit ↦ elim (Bool-cases (is_open stock (id, a))) [
    | inl open_ ↦ ground (arith, hit, open_, select-mark stock ids rest)
    | inr shut ↦ ground (arith, hit, shut, select-mark stock ids rest)
  ]
  | inr miss ↦ elim (Bool-cases (is_open stock (id, a))) [
    | inl open_ ↦ ground (arith, miss, open_, select-mark stock ids rest)
    | inr shut ↦ ground (arith, miss, shut, select-mark stock ids rest)
  ]
]

pub length-mark_le :
    (stock : ℕ) (ids : List ℕ) (alerts : Store Alert)
    → length (select (is_open stock) (mark ids alerts)) ≤ length (select (is_open stock) alerts)
length-mark_le stock ids alerts =
    rw (select-mark stock ids alerts)
      (length-select-le (unmarked ids) (select (is_open stock) alerts))

-- Every document that passes the test has its id among the ids.
abbrev pub Covered : List ℕ → (ℕ × Alert → Bool) → Store Alert → Type 0
Covered ids test = All (λ d. test d ≡ true → has_id ids d.0 ≡ true)

Covered-cons :
    (j : ℕ) (ids : List ℕ) (test : ℕ × Alert → Bool) (docs : Store Alert)
    → Covered ids test docs
    → Covered (j ∷ ids) test docs
Covered-cons j ids test [] all = tt
Covered-cons j ids test (d ∷ docs) (here, rest) =
    (λ passes. ground (arith, here passes), Covered-cons j ids test docs rest)

pub Covered-own :
    (test : ℕ × Alert → Bool) (docs : Store Alert) → Covered (ids_of (select test docs)) test docs
Covered-own test [] = tt
Covered-own test (d ∷ docs) = elim (Bool-cases (test d)) [
  | inl passes ↦
      let e : select test (d ∷ docs) ≡ d ∷ select test docs = ground (arith, passes) in
      subst (λ l. Covered (ids_of l) test (d ∷ docs)) (sym e)
        (
          λ _. ground arith,
          Covered-cons d.0 (ids_of (select test docs)) test docs (Covered-own test docs),
        )
  | inr fails ↦
      let e : select test (d ∷ docs) ≡ select test docs = ground (arith, fails) in
      subst (λ l. Covered (ids_of l) test (d ∷ docs)) (sym e)
        (λ p. absurd (ground (arith, p, fails)), Covered-own test docs)
]

pub none_left :
    (ids : List ℕ) (test : ℕ × Alert → Bool) (docs : Store Alert)
    → Covered ids test docs
    → select test (select (unmarked ids) docs) ≡ []
none_left ids test [] all = refl
none_left ids test (d ∷ docs) (here, rest) = elim (Bool-cases (test d)) [
  | inl passes ↦ ground (arith, passes, here passes, none_left ids test docs rest)
  | inr fails ↦ elim (Bool-cases (has_id ids d.0)) [
    | inl hit ↦ ground (arith, hit, none_left ids test docs rest)
    | inr miss ↦ ground (arith, fails, miss, none_left ids test docs rest)
  ]
]

-- Marking what is due leaves nothing due.
pub due-mark :
    (stock : ℕ) (price : ℤ) (alerts : Store Alert)
    → due stock price (mark (ids_of (due stock price alerts)) alerts) ≡ []
unfolding due
due-mark stock price alerts = rw (select-mark stock (ids_of (due stock price alerts)) alerts) (
    none_left (ids_of (due stock price alerts)) (reached price) (select (is_open stock) alerts)
      (Covered-own (reached price) (select (is_open stock) alerts)))
