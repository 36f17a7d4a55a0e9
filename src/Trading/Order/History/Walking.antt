-- ===== src/Trading/Order/History/Walking.antt =====
-- A caller that follows the cursors of a member's orders, and what it has read at the end.
use mathlib.Core.List.{Perm}
use mathlib.Core.Option
use mathlib.Core.Option.{get_or}
use eurisko_final_proejct.Base.{
  ℕ, zero, suc, ◌+◌, ◌-◌, ◌≤◌, ◌<◌, Bool, Option, none, some, ◌++◌, ◌≡◌, refl, sym, ap, ◌∙◌, inl,
  inr, Bool-cases, ltb, arith, length, take, drop, select, length-drop, take-append-drop, drop-drop,
  length-select-le, select-select,
}
use eurisko_final_proejct.Base.Store.{Store}
use eurisko_final_proejct.Pages.Tiling.{length-Perm}
use eurisko_final_proejct.Trading.Data.{Order, Db}
use eurisko_final_proejct.Trading.Order.History.{
  OrderHistoryQuery, OrderPage, is_asked, is_after, order_filter, page_to, cut, get_history,
}
use eurisko_final_proejct.Trading.Order.History.Cutting.{
  Descending, select-true, select-page, cut-last, cut-more, Descending-select,
}

-- The pages from a cursor on, read with so many calls at most, one after another.
unfoldable pub walk : ℕ → (Option ℕ → Option OrderPage) → Option ℕ → Option (Store Order)
walk zero read cursor = none
walk (suc n) read cursor = elim (read cursor) [
  | none ↦ none
  | some page ↦ elim page.next_cursor [
    | none ↦ some page.orders
    | some c ↦ Option.map (λ rest. page.orders ++ rest) (walk n read (some c))
  ]
]

module _ (read : Option ℕ → Option OrderPage) (n : ℕ) (cursor : Option ℕ) (xs : Store Order) where
  walk-last :
      read cursor ≡ some (record { orders = xs; next_cursor = none })
      → walk (suc n) read cursor ≡ some xs
  unfolding walk
  walk-last e = rw (e, walk) refl

  walk-more :
      (c : ℕ) (ys : Store Order)
      → read cursor ≡ some (page_to xs c)
      → walk n read (some c) ≡ some ys
      → walk (suc n) read cursor ≡ some (xs ++ ys)
  unfolding walk
  walk-more c ys e rest = rw (e, rest, walk) refl

module _ {W : Type 0} (newest : Store Order → Store Order) (member : ℕ) (q : OrderHistoryQuery)
    (db : Db W) where
  -- Getting the pages of one query, by their cursors.
  abbrev pub page_at : Option ℕ → Option OrderPage
  page_at cursor = get_history newest member (record q { cursor = cursor }) db

  -- The orders that the query asks for, from the newest on.
  abbrev pub asked : Store Order
  asked = select (is_asked member q) (newest db.orders)

  module _
      (selects : (p : ℕ × Order → Bool) → newest (select p db.orders) ≡ select p (newest db.orders))
      (desc : Descending (newest db.orders)) where
    page_at-cut :
        (cursor : Option ℕ)
        → page_at cursor
          ≡ cut
              (get_or q.limit 20)
              (take (suc (get_or q.limit 20)) (select (is_after cursor) asked))
    unfolding get_history order_filter is_asked
    page_at-cut cursor =
        let limit = get_or q.limit 20 in
        ap (λ l. cut limit (take (suc limit) l))
          (selects (order_filter member (record q { cursor = cursor }))
            ∙ select-select (is_asked member q) (is_after cursor) (newest db.orders))

    walk-rest :
        (n m : ℕ) (cursor : Option ℕ)
        → 1 ≤ get_or q.limit 20
        → select (is_after cursor) asked ≡ drop m asked
        → length asked - m < n
        → walk n page_at cursor ≡ some (drop m asked)
    walk-rest zero m cursor pos e lt = absurd (omega arith)
    walk-rest (suc n) m cursor pos e lt =
        let limit = get_or q.limit 20 in
        let left = drop m asked in
        let size : length left ≡ length asked - m = length-drop m asked in
        let read = page_at-cut cursor ∙ ap (λ l. cut limit (take (suc limit) l)) e in
        elim (Bool-cases (ltb limit (length left))) [
          | inl more ↦
              let beyond : limit < length left = ground (arith, more) in
              let (c, last, page) = cut-more limit left pos beyond in
              let below =
                select-page m limit c asked
                  (Descending-select (is_asked member q) (newest db.orders) desc) last in
              let rest =
                walk-rest n (m + limit) (some c) pos below (omega (arith, size, lt, beyond)) in
              let whole : take limit left ++ drop (m + limit) asked ≡ left =
                ap (λ l. take limit left ++ l) (sym (drop-drop limit m asked))
                ∙ take-append-drop limit left in
              walk-more page_at n cursor (take limit left) c (drop (m + limit) asked) (read ∙ page)
                rest
              ∙ ap some whole
          | inr no_more ↦
              walk-last page_at n cursor left (read ∙ cut-last limit left (ground (arith, no_more)))
        ]

    -- If the database's sort gives the member's orders by descending ids, reorders only, and gives the
    -- same whether it filters before or after, and if the limit is not 0, then a caller that starts
    -- without a cursor and goes on with the cursor of each page gets to a last page within one call
    -- more than there are orders, and has read, in pages, exactly the orders that the query asks for,
    -- from the newest on, none twice and none left out.
    pub get_history_walked :
        1 ≤ get_or q.limit 20
        → Perm (newest db.orders) db.orders
        → walk (suc (length db.orders)) page_at none
          ≡ some (newest (select (is_asked member q) db.orders))
    get_history_walked pos reorders =
        let fuel : length asked - 0 < suc (length db.orders) =
          omega (
            arith,
            length-select-le (is_asked member q) (newest db.orders),
            length-Perm reorders,
          ) in
        walk-rest (suc (length db.orders)) 0 none pos (select-true asked) fuel
        ∙ ap some (sym (selects (is_asked member q)))
