-- ===== src/Trading/Position/Laws.antt =====
-- What the queries and updates of the positions do to each other.
use eurisko_final_proejct.Base.{
  ℕ, ◌+◌, ◌-◌, ◌≤◌, Bool, true, ◌&&◌, none, some, List, [], ◌∷◌, leb, ◌≡◌, refl, ap, arith, inl,
  inr, Bool-cases,
}
use eurisko_final_proejct.Trading.Data.{Position}
use eurisko_final_proejct.Trading.Position.{is_of, find, update_first, add_shares, take_shares}

-- At most one position answers a query: what the unique index gives.
unfoldable pub AtMostOne : (Position → Bool) → List Position → Type 0
AtMostOne q [] = Unit
AtMostOne q (p ∷ ps) = (q p ≡ true → find q ps ≡ none) × AtMostOne q ps

-- The guard of a sale.
abbrev pub enough : ℕ → ℕ → ℕ → Position → Bool
enough member stock n p = is_of member stock p && leb n p.shares

pub find-enough-none :
    (member stock n : ℕ) (ps : List Position)
    → find (is_of member stock) ps ≡ none
    → find (enough member stock n) ps ≡ none
unfolding find
find-enough-none member stock n [] h = refl
find-enough-none member stock n (p ∷ ps) h = ground (arith, find-enough-none member stock n ps)

add-take : (n : ℕ) (p : Position) → n ≤ p.shares → add_shares n (take_shares n p) ≡ p
add-take n p h = ap (λ k. record p { shares = k }) (shares_back n p.shares h)
  where
    shares_back : (n m : ℕ) → n ≤ m → m - n + n ≡ m
    shares_back n m h = omega arith

-- Shares that are put back where they were taken give the positions as they were.
pub update_first-restore :
    (member stock n : ℕ) (ps : List Position) {p : Position}
    → AtMostOne (is_of member stock) ps
    → find (enough member stock n) ps ≡ some p
    → update_first
        (is_of member stock)
        (add_shares n)
        (update_first (enough member stock n) (take_shares n) ps)
      ≡ ps
unfolding find update_first AtMostOne
update_first-restore member stock n [] one found = absurd (ground arith)
update_first-restore member stock n (p ∷ ps) {p = o} one found =
    elim (Bool-cases (is_of member stock p)) [
      | inl same ↦ elim (Bool-cases (leb n p.shares)) [
        | inl covered ↦ ground (arith, add-take n p (ground arith))
        | inr short ↦ absurd (ground (arith, find-enough-none member stock n ps (one.0 same)))
      ]
      | inr other ↦
          let further : find (enough member stock n) ps ≡ some o = ground arith in
          ground (arith, update_first-restore member stock n ps {p = o} one.1 further)
    ]

pub find-sub-none :
    (q q' : Position → Bool) (ps : List Position)
    → find q ps ≡ none
    → ((x : Position) → q' x ≡ true → q x ≡ true)
    → find q' ps ≡ none
unfolding find
find-sub-none q q' [] h sub = refl
find-sub-none q q' (p ∷ ps) h sub = elim (Bool-cases (q' p)) [
  | inl hit ↦ absurd (ground (arith, sub p hit))
  | inr miss ↦ ground (arith, find-sub-none q q' ps (ground arith) sub)
]

-- The position of a member and a stock after an update that keeps both.
pub find-update_first :
    (q q' : Position → Bool) (f : Position → Position) (ps : List Position) {p : Position}
    → find q' ps ≡ some p
    → AtMostOne q ps
    → ((x : Position) → q' x ≡ true → q x ≡ true)
    → ((x : Position) → q (f x) ≡ q x)
    → find q (update_first q' f ps) ≡ some (f p)
unfolding find update_first AtMostOne
find-update_first q q' f [] found one sub keeps = absurd (ground arith)
find-update_first q q' f (x ∷ xs) {p = o} found one sub keeps = elim (Bool-cases (q' x)) [
  | inl hit ↦ ground (arith, keeps x, sub x hit)
  | inr miss ↦
      let further : find q' xs ≡ some o = ground (arith, miss) in
      elim (Bool-cases (q x)) [
        | inl same ↦ absurd (ground (arith, one.0 same, find-sub-none q q' xs (one.0 same) sub))
        | inr other ↦ ground (arith, find-update_first q q' f xs {p = o} further one.1 sub keeps)
      ]
]

find-update_first-none :
    (q q' : Position → Bool) (f : Position → Position) (ps : List Position)
    → ((x : Position) → q (f x) ≡ q x)
    → find q ps ≡ none
    → find q (update_first q' f ps) ≡ none
unfolding find update_first
find-update_first-none q q' f [] keeps none_there = refl
find-update_first-none q q' f (p ∷ ps) keeps none_there = elim (Bool-cases (q' p)) [
  | inl hit ↦ ground (arith, hit, keeps p)
  | inr miss ↦ ground (arith, miss, find-update_first-none q q' f ps keeps (ground arith))
]

-- An update that keeps a query's answers keeps them unique.
pub AtMostOne-update_first :
    (q q' : Position → Bool) (f : Position → Position) (ps : List Position)
    → ((x : Position) → q (f x) ≡ q x)
    → AtMostOne q ps
    → AtMostOne q (update_first q' f ps)
unfolding update_first AtMostOne find
AtMostOne-update_first q q' f [] keeps one = one
AtMostOne-update_first q q' f (p ∷ ps) keeps one = elim (Bool-cases (q' p)) [
  | inl hit ↦ rw (hit, update_first) (λ e. one.0 (ground (arith, keeps p)), one.1)
  | inr miss ↦
      rw (miss, update_first)
        (
          λ e. find-update_first-none q q' f ps keeps (one.0 e),
          AtMostOne-update_first q q' f ps keeps one.1,
        )
]
