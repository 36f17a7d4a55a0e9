-- ===== src/Pages/Tiling.antt =====
-- The pages of a query, one after another, are its documents, and the flags tell whether there are more.
use native.Mathlib.Nat.{le-div_iff_mul-le}
use mathlib.Core.Logic.{∥∥₁_elim}
use native.Mathlib.Nat.{ℕ_set}
use mathlib.Core.List.{Perm, Permᴰ}
use mathlib.Core.List.Permᴰ.{nil, cons, swap, trans}
use eurisko_final_proejct.Base.{
  ℕ, zero, suc, ◌+◌, ◌-◌, ◌*◌, ◌≤◌, ◌<◌, Bool, true, List, [], ◌∷◌, ◌++◌, ◌≡◌, ◌≢◌, ◌↔◌, sym, ◌∙◌,
  ap, refl, inl, inr, Bool-cases, leb, arith, length, take, drop, select, length-drop,
}
use eurisko_final_proejct.Pages.{ceil_div, page_items, paginate}

module _ {A : Type 0} where
  -- The pages 1 to n, one after another.
  unfoldable pub joined : (ℕ → List A) → ℕ → List A
  joined page zero = []
  joined page (suc n) = joined page n ++ page (suc n)

  take_empty : (n : ℕ) → take {A = A} n [] ≡ []
  take_empty zero = refl
  take_empty (suc n) = refl

  take-append-take : (m n : ℕ) (xs : List A) → take m xs ++ take n (drop m xs) ≡ take (m + n) xs
  take-append-take zero n xs = ap (λ k. take k xs) (omega arith)
  take-append-take (suc m) n [] = take_empty n ∙ sym (take_empty (suc m + n))
  take-append-take (suc m) n (x ∷ xs) =
      let step : take (suc (m + n)) (x ∷ xs) ≡ take (suc m + n) (x ∷ xs) =
        ap (λ k. take k (x ∷ xs)) {x = suc (m + n)} (omega arith) in
      ap (λ l. x ∷ l) (take-append-take m n xs) ∙ step

  pub take_of_length_le : (n : ℕ) (xs : List A) → length xs ≤ n → take n xs ≡ xs
  take_of_length_le zero [] le = refl
  take_of_length_le zero (x ∷ xs) le = absurd (omega arith)
  take_of_length_le (suc n) [] le = refl
  take_of_length_le (suc n) (x ∷ xs) le = ap (λ l. x ∷ l) (take_of_length_le n xs (omega arith))

  take-nonempty_iff : (n : ℕ) (xs : List A) → 1 ≤ n → (take n xs ≢ []) ↔ (1 ≤ length xs)
  take-nonempty_iff zero xs pos = absurd (omega arith)
  take-nonempty_iff (suc n) [] pos = (λ some_. absurd (some_ refl), λ le. absurd (omega arith))
  take-nonempty_iff (suc n) (x ∷ xs) pos = (λ _. omega arith, λ _. ground arith)

  length-Permᴰ : {xs ys : List A} → Permᴰ xs ys → length xs ≡ length ys
  length-Permᴰ nil = refl
  length-Permᴰ (cons e d) = ap suc (length-Permᴰ d)
  length-Permᴰ (swap e f) = refl
  length-Permᴰ (trans d d') = length-Permᴰ d ∙ length-Permᴰ d'

  pub length-Perm : {xs ys : List A} → Perm xs ys → length xs ≡ length ys
  length-Perm p = ∥∥₁_elim p (ℕ_set _ _) length-Permᴰ

  module _ (sort : List A → List A) (filter : A → Bool) (limit : ℕ) (docs : List A) where
    joined-take :
        (n : ℕ)
        → joined (λ p. page_items sort filter p limit docs) n
          ≡ take (n * limit) (sort (select filter docs))
    unfolding joined page_items
    joined-take zero = ap (λ k. take k (sort (select filter docs))) {x = 0} (omega arith)
    joined-take (suc n) =
        let all = sort (select filter docs) in
        let start : take limit (drop ((suc n - 1) * limit) all)
            ≡ take limit (drop (n * limit) all) =
          ap (λ k. take limit (drop (k * limit) all)) (omega arith) in
        let more : take (n * limit + limit) all ≡ take (suc n * limit) all =
          ap (λ k. take k all) (omega arith) in
        rw (start, joined-take n) (take-append-take (n * limit) limit all ∙ more)

    lt-ceil_div_iff :
        (page total : ℕ) → 1 ≤ limit → (page < ceil_div total limit) ↔ (page * limit < total)
    lt-ceil_div_iff page total pos = (
      λ lt. omega (arith, (le-div_iff_mul-le {k = limit} {x = suc page} pos).0 lt),
      λ lt. (le-div_iff_mul-le {k = limit} {x = suc page} pos).1 (omega arith),
    )

    ceil_div-covers : (total : ℕ) → 1 ≤ limit → total ≤ ceil_div total limit * limit
    ceil_div-covers total pos =
        let n = ceil_div total limit in
        elim (Bool-cases (leb total (n * limit))) [
          | inl le ↦ ground (arith, le)
          | inr gt ↦ absurd (omega (arith, (lt-ceil_div_iff n total pos).1 (ground (arith, gt))))
        ]

    abbrev pub Tiled : Type 0
    Tiled =
        joined (λ p. (paginate sort filter p limit docs).items)
          (paginate sort filter 1 limit docs).meta.total_pages
        ≡ sort (select filter docs)

    pub paginate-Tiled : 1 ≤ limit → Perm (sort (select filter docs)) (select filter docs) → Tiled
    unfolding paginate
    paginate-Tiled pos sorted =
        let n = ceil_div (length (select filter docs)) limit in
        rw (joined-take n) (
          take_of_length_le (n * limit) (sort (select filter docs))
            (rw (length-Perm sorted) (ceil_div-covers (length (select filter docs)) pos)))

    -- The flags of a page tell whether the page after it and the page before it hold anything.
    abbrev pub Signposted : ℕ → Type 0
    Signposted page =
        let r = paginate sort filter page limit docs in
        ((r.meta.has_next_page ≡ true) ↔ ((paginate sort filter (suc page) limit docs).items ≢ []))
        × ((r.meta.has_prev_page ≡ true) ↔ (1 < page))

    pub paginate-Signposted :
        (page : ℕ)
        → 1 ≤ limit
        → Perm (sort (select filter docs)) (select filter docs)
        → Signposted page
    unfolding paginate page_items
    paginate-Signposted page pos sorted =
        let found = select filter docs in
        let rest = drop ((suc page - 1) * limit) (sort found) in
        let left : length rest ≡ length found - page * limit =
          length-drop ((suc page - 1) * limit) (sort found)
          ∙ rw (length-Perm sorted)
              (ap (λ k. length found - k * limit) {x = suc page - 1} (omega arith)) in
        let filled = take-nonempty_iff limit rest pos in
        let bound = lt-ceil_div_iff page (length found) pos in
        (
          (
            λ next. filled.1 (omega (arith, left, bound.0 (ground (arith, next)))),
            λ there. ground (arith, bound.1 (omega (arith, left, filled.0 there))),
          ),
          (λ e. ground (arith, e), λ lt. ground arith),
        )
