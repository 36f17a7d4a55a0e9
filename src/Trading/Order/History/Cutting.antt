-- ===== src/Trading/Order/History/Cutting.antt =====
-- A page of a list that is in descending order, and what is left below its last order.
use mathlib.Core.Option
use eurisko_final_proejct.Base.{
  ℕ, zero, suc, ◌+◌, ◌≤◌, ◌<◌, Bool, true, none, some, List, [], ◌∷◌, ◌≡◌, refl, sym, ap, ◌∙◌, inl,
  inr, Bool-cases, ltb, arith, length, take, drop, select, All, drop_of_length_le, subst,
  select-All, if◌then◌else◌,
}
use eurisko_final_proejct.Base.Store.{Store}
use eurisko_final_proejct.Pages.Tiling.{take_of_length_le}
use eurisko_final_proejct.Trading.Data.{Order}
use eurisko_final_proejct.Trading.Order.History.{last_id, page_to, cut}

-- The documents by descending ids.
abbrev pub Descending : Store Order → Type 0
Descending [] = Unit
Descending (e ∷ rest) = All (λ d. d.0 < e.0) rest × Descending rest

module _ {A : Type 0} where
  pub select-true : (xs : List A) → select (λ _. true) xs ≡ xs
  select-true [] = refl
  select-true (x ∷ xs) = ap (λ l. x ∷ l) (select-true xs)

  take-take-suc : (n : ℕ) (xs : List A) → take n (take (suc n) xs) ≡ take n xs
  take-take-suc zero xs = refl
  take-take-suc (suc n) [] = refl
  take-take-suc (suc n) (x ∷ xs) = ap (λ l. x ∷ l) (take-take-suc n xs)

  lt-length-take : (n : ℕ) (xs : List A) → ltb n (length (take (suc n) xs)) ≡ ltb n (length xs)
  lt-length-take n [] = refl
  lt-length-take zero (x ∷ xs) = ground arith
  lt-length-take (suc n) (x ∷ xs) = ground (arith, lt-length-take n xs)

below-All : (c : ℕ) (xs : Store Order) → All (λ d. d.0 < c) xs → All (λ d. ltb d.0 c ≡ true) xs
below-All c [] all = tt
below-All c (x ∷ xs) (lt, all) = (ground arith, below-All c xs all)

last_id-take-lt :
    (n k c : ℕ) (xs : Store Order) → All (λ d. d.0 < k) xs → last_id (take n xs) ≡ some c → c < k
unfolding last_id
last_id-take-lt zero k c xs all e = absurd (ground (arith, e))
last_id-take-lt (suc n) k c [] all e = absurd (ground (arith, e))
last_id-take-lt (suc zero) k c (x ∷ xs) all e = ground (arith, e)
last_id-take-lt (suc (suc n)) k c (x ∷ []) all e = ground (arith, e)
last_id-take-lt (suc (suc n)) k c (x ∷ y ∷ ys) all e = last_id-take-lt (suc n) k c (y ∷ ys) all.1 e

last_id-lt :
    (m n k c : ℕ) (xs : Store Order)
    → All (λ d. d.0 < k) xs
    → last_id (take n (drop m xs)) ≡ some c
    → c < k
last_id-lt zero n k c xs all e = last_id-take-lt n k c xs all e
last_id-lt (suc m) n k c [] all e = last_id-take-lt n k c [] all e
last_id-lt (suc m) n k c (x ∷ xs) all e = last_id-lt m n k c xs all.1 e

-- The orders below the last one of a page are those after the page.
select-first_page :
    (n c : ℕ) (xs : Store Order)
    → Descending xs
    → last_id (take n xs) ≡ some c
    → select (λ d. ltb d.0 c) xs ≡ drop n xs
unfolding last_id
select-first_page zero c xs desc e = absurd (ground (arith, e))
select-first_page (suc n) c [] desc e = absurd (ground (arith, e))
select-first_page (suc zero) c (x ∷ xs) desc e =
    let same : x.0 ≡ c = ground (arith, e) in
    let below =
      select-All (λ d. ltb d.0 c) xs
        (below-All c xs (subst (λ k. All (λ d. d.0 < k) xs) same desc.0)) in
    ground (arith, below, same)
select-first_page (suc (suc n)) c (x ∷ []) desc e = ground (arith, e)
select-first_page (suc (suc n)) c (x ∷ y ∷ ys) desc e =
    let lt = last_id-take-lt (suc n) x.0 c (y ∷ ys) desc.0 e in
    let rest = select-first_page (suc n) c (y ∷ ys) desc.1 e in ground (arith, lt, rest)

pub select-page :
    (m n c : ℕ) (xs : Store Order)
    → Descending xs
    → last_id (take n (drop m xs)) ≡ some c
    → select (λ d. ltb d.0 c) xs ≡ drop (m + n) xs
select-page zero n c xs desc e =
    select-first_page n c xs desc e ∙ ap (λ k. drop k xs) {x = n} (omega arith)
select-page (suc m) n c [] desc e = sym (drop_of_length_le (suc m + n) [] (omega arith))
select-page (suc m) n c (x ∷ xs) desc e =
    let lt = last_id-lt m n x.0 c xs desc.0 e in
    let rest = select-page m n c xs desc.1 e in
    let step : drop (suc (m + n)) (x ∷ xs) ≡ drop (suc m + n) (x ∷ xs) =
      ap (λ k. drop k (x ∷ xs)) {x = suc (m + n)} (omega arith) in
    let skipped : select (λ d. ltb d.0 c) (x ∷ xs) ≡ select (λ d. ltb d.0 c) xs =
      ground (arith, lt) in
    skipped ∙ rest ∙ step

last_id-some :
    (n : ℕ) (e : ℕ × Order) (xs : Store Order)
    → (c : ℕ) × (last_id (take (suc n) (e ∷ xs)) ≡ some c)
unfolding last_id
last_id-some zero e xs = (e.0, refl)
last_id-some (suc n) e [] = (e.0, refl)
last_id-some (suc n) e (d ∷ xs) = last_id-some n d xs

cut-take :
    (limit : ℕ) (xs : Store Order)
    → cut limit (take (suc limit) xs) ≡ (
        if ltb limit (length xs)
        then Option.map (page_to (take limit xs)) (last_id (take limit xs))
        else some (record { orders = take (suc limit) xs; next_cursor = none }))
unfolding cut
cut-take limit xs = rw (lt-length-take limit xs, take-take-suc limit xs) refl

-- What a page is: all that is left, or a first part of it with the id of its last order.
pub cut-last :
    (limit : ℕ) (xs : Store Order)
    → length xs ≤ limit
    → cut limit (take (suc limit) xs) ≡ some (record { orders = xs; next_cursor = none })
cut-last limit xs le =
    ground (arith, cut-take limit xs, take_of_length_le (suc limit) xs (omega arith))

pub cut-more :
    (limit : ℕ) (xs : Store Order)
    → 1 ≤ limit
    → limit < length xs
    → (c : ℕ) × (last_id (take limit xs) ≡ some c)
      × (cut limit (take (suc limit) xs) ≡ some (page_to (take limit xs) c))
cut-more zero xs pos lt = absurd (omega arith)
cut-more (suc n) [] pos lt = absurd (omega arith)
cut-more (suc n) (x ∷ xs) pos lt =
    let (c, e) = last_id-some n x xs in (c, e, ground (arith, cut-take (suc n) (x ∷ xs), e, lt))

All-select :
    (k : ℕ) (p : ℕ × Order → Bool) (xs : Store Order)
    → All (λ d. d.0 < k) xs
    → All (λ d. d.0 < k) (select p xs)
All-select k p [] all = tt
All-select k p (x ∷ xs) (lt, all) = elim (Bool-cases (p x)) [
  | inl yes_ ↦ rw yes_ (lt, All-select k p xs all)
  | inr no_ ↦ rw no_ (All-select k p xs all)
]

pub Descending-select :
    (p : ℕ × Order → Bool) (xs : Store Order) → Descending xs → Descending (select p xs)
Descending-select p [] desc = tt
Descending-select p (x ∷ xs) (all, desc) = elim (Bool-cases (p x)) [
  | inl yes_ ↦ rw yes_ (All-select x.0 p xs all, Descending-select p xs desc)
  | inr no_ ↦ rw no_ (Descending-select p xs desc)
]
