-- ===== src/Trading/Order/History.antt =====
-- `getHistory` and `findOne` of apps/trading-service/src/modules/order/order.service.ts: a member's orders
-- from the newest on, in pages that each name the order to go on after. The database's
-- `sort({ _id: -1 })` is a parameter.
pub mod Cutting
pub mod Walking
pub mod Tests
use mathlib.Core.Option
use mathlib.Core.Option.{get_or}
use eurisko_final_proejct.Base.{
  ℕ, suc, ◌+◌, Bool, true, false, ◌&&◌, Option, none, some, List, [], ◌∷◌, ◌++◌, ltb, ◌==◌, length,
  take, select, if◌then◌else◌, Action, ok, err,
}
use eurisko_final_proejct.Base.Store.{Store, lookup}
use eurisko_final_proejct.Pages.{if_given}
use eurisko_final_proejct.Trading.Data.{
  OrderType, buying, selling, OrderStatus, pending, executed, rejected, Order, Db, Error,
  order_not_found,
}

-- `OrderHistoryQueryDto`; an empty text, which the code skips too, counts as none.
pub record OrderHistoryQuery : Type 0 where
  pub cursor : Option ℕ
  pub limit : Option ℕ
  pub type_of : Option OrderType
  pub status : Option OrderStatus

-- `{ data, nextCursor }`
pub record OrderPage : Type 0 where
  pub orders : Store Order
  pub next_cursor : Option ℕ

abbrev pub same_side : OrderType → OrderType → Bool
same_side buying buying = true
same_side selling selling = true
same_side _ _ = false

abbrev pub same_status : OrderStatus → OrderStatus → Bool
same_status pending pending = true
same_status executed executed = true
same_status rejected rejected = true
same_status _ _ = false

-- The filter of the query, less the cursor's condition.
unfoldable pub is_asked : ℕ → OrderHistoryQuery → ℕ × Order → Bool
is_asked member q (_, o) =
    o.member_id == member
    && (if_given q.type_of (same_side o.type_of) && if_given q.status (same_status o.status))

-- `filter['_id'] = { $lt: cursor }`, if there is a cursor.
abbrev pub is_after : Option ℕ → ℕ × Order → Bool
is_after cursor (id, _) = if_given cursor (ltb id)

unfoldable pub order_filter : ℕ → OrderHistoryQuery → ℕ × Order → Bool
order_filter member q e = is_asked member q e && is_after q.cursor e

-- `data[data.length - 1]?._id`
unfoldable pub last_id : Store Order → Option ℕ
last_id [] = none
last_id (e ∷ []) = some e.0
last_id (e ∷ d ∷ rest) = last_id (d ∷ rest)

abbrev pub page_to : Store Order → ℕ → OrderPage
page_to page id = record { orders = page; next_cursor = some id }

-- The page of what was found, one more than the limit at most; none is the TypeError of `toString` on a
-- page that is empty but not the last, with the limit 0.
unfoldable pub cut : ℕ → Store Order → Option OrderPage
cut limit found =
    if ltb limit (length found)
    then Option.map (page_to (take limit found)) (last_id (take limit found))
    else some (record { orders = found; next_cursor = none })

module _ {W : Type 0} where
  unfoldable pub get_history :
      (Store Order → Store Order) → ℕ → OrderHistoryQuery → Db W → Option OrderPage
  get_history newest member q db =
      let limit = get_or q.limit 20 in
      cut limit (take (suc limit) (newest (select (order_filter member q) db.orders)))

  abbrev pub shown_to : ℕ → ℕ → Order → Action (Db W) Error Order
  shown_to member id o db = if o.member_id == member then (ok o, db) else (err order_not_found, db)

  unfoldable pub find_one : ℕ → ℕ → Action (Db W) Error Order
  find_one id member db = elim (lookup id db.orders) [
    | none ↦ (err order_not_found, db)
    | some o ↦ shown_to member id o db
  ]
