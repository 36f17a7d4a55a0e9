-- ===== src/Trading/Order/History/Tests.antt =====
-- The orders of two members, read by one of them in pages of one.
use mathlib.Core.List.{Perm}
use mathlib.Core.List.Perm
use eurisko_final_proejct.Base.{
  ℕ, ◌≡◌, refl, Bool, true, false, none, some, err, [], ◌∷◌, ltb, select, if◌then◌else◌, arith,
}
use eurisko_final_proejct.Base.Int.{ℤ, pos}
use eurisko_final_proejct.Base.Store.{Store, lookup}
use eurisko_final_proejct.Trading.Data.{
  num, OrderType, buying, selling, executed, Order, Db, order_not_found,
}
use eurisko_final_proejct.Trading.Tests.{day}
use eurisko_final_proejct.Trading.Order.History.{
  OrderHistoryQuery, is_asked, order_filter, last_id, page_to, cut, get_history, find_one,
}
use eurisko_final_proejct.Trading.Order.History.Cutting.{Descending}
use eurisko_final_proejct.Trading.Order.History.Walking.{walk, get_history_walked}

abbrev order : ℕ → OrderType → Order
order member side = record {
  member_id = member;
  stock_id = 1;
  ticker = "ACME";
  company_name = "Acme";
  type_of = side;
  status = executed;
  shares = 2;
  price_per_share = num (pos 5);
  total_amount = num (pos 10);
  profit_loss = none;
  rejection_reason = none;
  executed_at = some 900;
}

abbrev first : ℕ × Order
first = (1, order 7 buying)

abbrev theirs : ℕ × Order
theirs = (2, order 8 buying)

abbrev last : ℕ × Order
last = (3, order 7 selling)

abbrev orders : Store Order
orders = first ∷ theirs ∷ last ∷ []

abbrev traded : Db ℤ
traded = record day { orders = orders }

-- Insertion sort by descending ids.
abbrev put : ℕ × Order → Store Order → Store Order
put d [] = d ∷ []
put d (e ∷ rest) = let below = put d rest in if ltb e.0 d.0 then d ∷ e ∷ rest else e ∷ below

abbrev newest : Store Order → Store Order
newest [] = []
newest (d ∷ rest) = put d (newest rest)

abbrev one_each : OrderHistoryQuery
one_each = record { cursor = none; limit = some 1; type_of = none; status = none }

newest_page : get_history newest 7 one_each traded ≡ some (page_to (last ∷ []) 3)
unfolding get_history order_filter is_asked cut last_id
newest_page = refl

others_order : find_one 2 7 traded ≡ (err order_not_found, traded)
unfolding find_one lookup
others_order = refl

-- Any of the three orders, as three tests choose.
chosen :
    (a b c : Bool)
    → newest (
        if a
        then first
          ∷ (if b then theirs ∷ (if c then last ∷ [] else []) else (if c then last ∷ [] else []))
        else (if b then theirs ∷ (if c then last ∷ [] else []) else (if c then last ∷ [] else [])))
      ≡ (if c
          then last
            ∷ (if b
                then theirs ∷ (if a then first ∷ [] else [])
                else (if a then first ∷ [] else []))
          else (if b
              then theirs ∷ (if a then first ∷ [] else [])
              else (if a then first ∷ [] else [])))
chosen true true true = refl
chosen true true false = refl
chosen true false true = refl
chosen true false false = refl
chosen false true true = refl
chosen false true false = refl
chosen false false true = refl
chosen false false false = refl

newest-selects :
    (p : ℕ × Order → Bool) → newest (select p traded.orders) ≡ select p (newest traded.orders)
newest-selects p = chosen (p first) (p theirs) (p last)

newest-Descending : Descending (newest traded.orders)
newest-Descending = ((omega arith, (omega arith, tt)), ((omega arith, tt), (tt, tt)))

newest-reorders : Perm (newest traded.orders) traded.orders
newest-reorders =
    Perm.trans (Perm.swap theirs last (first ∷ []))
      (Perm.trans (Perm.cons theirs (Perm.swap first last [])) (Perm.swap first theirs (last ∷ [])))

get_history_walked_example :
    walk 4 (λ c. get_history newest 7 (record one_each { cursor = c }) traded) none
    ≡ some (last ∷ first ∷ [])
unfolding is_asked
get_history_walked_example =
    get_history_walked newest 7 one_each traded newest-selects newest-Descending (omega arith)
      newest-reorders
