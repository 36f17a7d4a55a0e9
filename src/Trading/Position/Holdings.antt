-- ===== src/Trading/Position/Holdings.antt =====
-- What purchases and sales do to the shares that a member holds.
use eurisko_final_proejct.Base.{
  ℕ, ◌+◌, ◌-◌, ◌≤◌, String, Bool, true, none, some, List, [], ◌∷◌, ◌++◌, ◌==◌, leb, ◌≡◌, refl,
  arith, inl, inr, Option-cases, Bool-cases, if◌then◌else◌,
}
use eurisko_final_proejct.Base.Int.{ℤ}
use eurisko_final_proejct.Trading.Data.{Number, Position}
use eurisko_final_proejct.Trading.Position.{
  is_of, find, update_first, delete_first, take_shares, bought, new_position, upsert,
}
use eurisko_final_proejct.Trading.Position.Laws.{
  AtMostOne, enough, find-enough-none, find-update_first,
}

-- The shares that a member holds of a stock.
unfoldable pub shares_of : ℕ → ℕ → List Position → ℕ
shares_of member stock ps = elim (find (is_of member stock) ps) [ none ↦ 0 | some p ↦ p.shares ]

find-append :
    (q : Position → Bool) (ps : List Position) (p : Position)
    → find q ps ≡ none
    → q p ≡ true
    → find q (ps ++ p ∷ []) ≡ some p
unfolding find
find-append q [] p h hit = ground arith
find-append q (x ∷ xs) p h hit = ground (arith, find-append q xs p (ground arith) hit)

is_of_self :
    (member stock : ℕ) (p : Position)
    → p.member_id ≡ member
    → p.stock_id ≡ stock
    → is_of member stock p ≡ true
is_of_self member stock p e e' = ground arith

-- What a purchase leaves: the shares and the cost are added to those there were.
pub find-upsert_new :
    (divide : ℤ → ℕ → ℤ) (member stock : ℕ) (ticker company : String) (shares : ℕ) (price : Number)
    (ps : List Position)
    → find (is_of member stock) ps ≡ none
    → find (is_of member stock) (upsert divide member stock ticker company shares price ps)
      ≡ some (new_position member stock ticker company shares price)
unfolding upsert
find-upsert_new divide member stock ticker company shares price ps h =
    rw (h, upsert)
      (find-append (is_of member stock) ps (new_position member stock ticker company shares price) h
        (is_of_self member stock (new_position member stock ticker company shares price) refl refl))

pub find-upsert_held :
    (divide : ℤ → ℕ → ℤ) (member stock : ℕ) (ticker company : String) (shares : ℕ) (price : Number)
    (ps : List Position) {p : Position}
    → AtMostOne (is_of member stock) ps
    → find (is_of member stock) ps ≡ some p
    → find (is_of member stock) (upsert divide member stock ticker company shares price ps)
      ≡ some (bought divide p shares price p)
unfolding upsert
find-upsert_held divide member stock ticker company shares price ps {p} one h =
    rw (h, upsert)
      (find-update_first (is_of member stock) (is_of member stock) (bought divide p shares price) ps
        h one (λ x e. e) (λ x. refl))

pub shares_of-upsert :
    (divide : ℤ → ℕ → ℤ) (member stock : ℕ) (ticker company : String) (shares : ℕ) (price : Number)
    (ps : List Position)
    → AtMostOne (is_of member stock) ps
    → shares_of member stock (upsert divide member stock ticker company shares price ps)
      ≡ shares_of member stock ps + shares
unfolding shares_of
shares_of-upsert divide member stock ticker company shares price ps one =
    elim (Option-cases (find (is_of member stock) ps)) [
      | inl new ↦
          ground
            (arith, find-upsert_new divide member stock ticker company shares price ps new, new)
      | inr (p, held) ↦ ground (
        arith,
        find-upsert_held divide member stock ticker company shares price ps one held,
        held,
      )
    ]

-- A position with enough shares is the member's position.
pub find-enough :
    (member stock n : ℕ) (ps : List Position) {p : Position}
    → AtMostOne (is_of member stock) ps
    → find (enough member stock n) ps ≡ some p
    → (find (is_of member stock) ps ≡ some p) × (n ≤ p.shares)
unfolding find AtMostOne
find-enough member stock n [] one found = absurd (ground arith)
find-enough member stock n (x ∷ xs) {p = o} one found = elim (Bool-cases (is_of member stock x)) [
  | inl same ↦ elim (Bool-cases (leb n x.shares)) [
    | inl covered ↦ (ground arith, ground arith)
    | inr short ↦ absurd (ground (arith, find-enough-none member stock n xs (one.0 same)))
  ]
  | inr other ↦
      let further : find (enough member stock n) xs ≡ some o = ground arith in
      let (h, le) = find-enough member stock n xs {p = o} one.1 further in (ground (arith, h), le)
]

pub shares_of-enough :
    (member stock n : ℕ) (ps : List Position) {p : Position}
    → AtMostOne (is_of member stock) ps
    → find (enough member stock n) ps ≡ some p
    → n ≤ shares_of member stock ps
unfolding shares_of
shares_of-enough member stock n ps one found =
    let (held, le) = find-enough member stock n ps one found in ground (arith, held, le)

-- What is left of it after the shares were taken.
pub find-reserved :
    (member stock n : ℕ) (ps : List Position) {p : Position}
    → AtMostOne (is_of member stock) ps
    → find (enough member stock n) ps ≡ some p
    → find (is_of member stock) (update_first (enough member stock n) (take_shares n) ps)
      ≡ some (take_shares n p)
find-reserved member stock n ps one found =
    find-update_first (is_of member stock) (enough member stock n) (take_shares n) ps found one
      (λ x e. ground (arith, e)) (λ x. refl)

-- Deleting the only document that a query finds leaves none.
pub find-delete_first :
    (q : Position → Bool) (ps : List Position) → AtMostOne q ps → find q (delete_first q ps) ≡ none
unfolding find delete_first AtMostOne
find-delete_first q [] one = refl
find-delete_first q (p ∷ ps) one = ground (arith, one.0, find-delete_first q ps one.1)

-- What a sale leaves: the reserved shares are gone, and a position with none left is deleted.
pub shares_of-cleaned :
    (member stock n : ℕ) (ps : List Position) {p : Position}
    → AtMostOne (is_of member stock) ps
    → find (enough member stock n) ps ≡ some p
    → let reserved = update_first (enough member stock n) (take_shares n) ps in
      AtMostOne (is_of member stock) reserved
      → shares_of member stock
          (if p.shares - n == 0 then delete_first (is_of member stock) reserved else reserved)
        ≡ shares_of member stock ps - n
unfolding shares_of
shares_of-cleaned member stock n ps {p = o} one found one' =
    let (held, _) = find-enough member stock n ps one found in
    elim (Bool-cases (o.shares - n == 0)) [
      | inl empty ↦ ground (
        arith,
        held,
        find-delete_first (is_of member stock)
            (update_first (enough member stock n) (take_shares n) ps) one',
      )
      | inr some_left ↦ ground (arith, held, find-reserved member stock n ps one found)
    ]
