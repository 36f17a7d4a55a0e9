-- ===== src/Alerts/Settled.antt =====
-- Marking by ids, alert by alert, where no two alerts have the same id.
use eurisko_final_proejct.Base.{
  ℕ, ◌≡◌, refl, ◌∙◌, ap, sym, Bool, true, false, not, ◌&&◌, List, [], ◌∷◌, map, All, select,
  select-select, ◌==◌, if◌then◌else◌, arith, inl, inr, Bool-cases, subst,
}
use eurisko_final_proejct.Base.Int.{ℤ, leb_ℤ}
use eurisko_final_proejct.Base.Store.{Store}
use eurisko_final_proejct.Alerts.{Alert, above, below, reached, is_open, has_id, mark, ids_of, due}

abbrev pub Distinct : Store Alert → Type 0
Distinct [] = Unit
Distinct (d ∷ ds) = All (λ e. (d.0 == e.0) ≡ false) ds × Distinct ds

-- An alert of the stock that waits for such a price.
abbrev pub is_hit : ℕ → ℤ → ℕ × Alert → Bool
is_hit stock price (_, a) =
    (a.stock_id == stock && not a.triggered)
    && elim a.direction [ above ↦ leb_ℤ a.target_price price | below ↦ leb_ℤ price a.target_price ]

-- What becomes of an alert at a price of a stock.
abbrev pub settled : ℕ → ℤ → ℕ × Alert → ℕ × Alert
settled stock price d = if is_hit stock price d then (d.0, record d.1 { triggered = true }) else d

module _ (test : ℕ × Alert → Bool) where
  Chosen : List ℕ → Store Alert → Type 0
  Chosen ids = All (λ d. has_id ids d.0 ≡ test d)

  mark-Chosen :
      (ids : List ℕ) (ds : Store Alert)
      → Chosen ids ds
      → mark ids ds ≡ map (λ d. if test d then (d.0, record d.1 { triggered = true }) else d) ds
  unfolding mark Chosen
  mark-Chosen ids [] all = refl
  mark-Chosen ids ((id, a) ∷ ds) (here, rest) = elim (Bool-cases (test (id, a))) [
    | inl hit ↦ ground (arith, here, hit, mark-Chosen ids ds rest)
    | inr miss ↦ ground (arith, here, miss, mark-Chosen ids ds rest)
  ]

  not_among :
      (k : ℕ) (ds : Store Alert)
      → All (λ e. (k == e.0) ≡ false) ds
      → has_id (ids_of (select test ds)) k ≡ false
  not_among k [] apart = refl
  not_among k (d ∷ ds) (ne, apart) = elim (Bool-cases (test d)) [
    | inl hit ↦ ground (arith, hit, ne, not_among k ds apart)
    | inr miss ↦ ground (arith, miss, not_among k ds apart)
  ]

  Chosen-cons :
      (k : ℕ) (ids : List ℕ) (ds : Store Alert)
      → All (λ e. (k == e.0) ≡ false) ds
      → Chosen ids ds
      → Chosen (k ∷ ids) ds
  unfolding Chosen
  Chosen-cons k ids [] apart all = tt
  Chosen-cons k ids (d ∷ ds) (ne, apart) (here, rest) =
      (ground (arith, ne, here), Chosen-cons k ids ds apart rest)

  Chosen-select : (ds : Store Alert) → Distinct ds → Chosen (ids_of (select test ds)) ds
  unfolding Chosen
  Chosen-select [] distinct = tt
  Chosen-select (d ∷ ds) (apart, distinct) = elim (Bool-cases (test d)) [
    | inl hit ↦
        let e : select test (d ∷ ds) ≡ d ∷ select test ds = ground (arith, hit) in
        subst (λ l. Chosen (ids_of l) (d ∷ ds)) (sym e)
          (
            ground (arith, hit),
            Chosen-cons d.0 (ids_of (select test ds)) ds apart (Chosen-select ds distinct),
          )
    | inr miss ↦
        let e : select test (d ∷ ds) ≡ select test ds = ground (arith, miss) in
        subst (λ l. Chosen (ids_of l) (d ∷ ds)) (sym e)
          (ground (arith, miss, not_among d.0 ds apart), Chosen-select ds distinct)
  ]

-- Marking what is due settles each alert.
pub mark-settled :
    (stock : ℕ) (price : ℤ) (alerts : Store Alert)
    → Distinct alerts
    → mark (ids_of (due stock price alerts)) alerts ≡ map (settled stock price) alerts
unfolding due
mark-settled stock price alerts distinct =
    ap (λ l. mark (ids_of l) alerts) (sym (select-select (is_open stock) (reached price) alerts))
    ∙ mark-Chosen (is_hit stock price) _ alerts (Chosen-select (is_hit stock price) alerts distinct)
