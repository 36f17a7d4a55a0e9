-- ===== src/Trading/Order/Outcomes.antt =====
-- What the locked parts of `buy` and `sell` come to, by the answer of the wallet service.
use eurisko_final_proejct.Base.{
  ℕ, Option, none, some, List, [], ◌∷◌, ◌++◌, ok, err, ◌≡◌, arith, ◌==◌, if◌then◌else◌,
}
use eurisko_final_proejct.Base.Int.{ℤ}
use eurisko_final_proejct.Base.Store.{lookup, insert, adjust, erase}
use eurisko_final_proejct.Trading.Data.{
  Number, times, OrderType, buying, selling, Trader, Stock, Position, Order, Event, trade_executed,
  Db, Call, Failure, WalletApi, insufficient_shares,
}
use eurisko_final_proejct.Trading.Position.{
  is_of, find, update_first, delete_first, add_shares, take_shares, upsert,
}
use eurisko_final_proejct.Trading.Order.{
  PlaceOrderDto, deduct_error, credit_error, pending_order, rejected_order, executed_order,
  buy_locked, sell_locked, has_shares, profit_of, reserve_shares,
}

module _ {W : Type 0} (api : WalletApi W) (divide : ℤ → ℕ → ℤ) (member : ℕ) (dto : PlaceOrderDto)
    (trader : Trader) (stock : Stock) (price : Number) (c : Call) (db : Db W) where
  -- The document of a new buy order.
  abbrev pub placed : Order
  placed = pending_order member dto stock buying price (times dto.shares price) none

  -- The message of an executed order.
  abbrev pub trade : OrderType → Option Number → Event
  trade side profit =
      trade_executed member trader.email trader.full_name side stock.ticker stock.company_name
        dto.shares price (times dto.shares price) profit c.new_id

  pub buy_locked-refused :
      {f : Failure} {w : W}
      → api.deduct member (times dto.shares price) c.new_id db.wallet ≡ (err f, w)
      → buy_locked api divide member dto trader stock price c db ≡ (
        err (deduct_error f),
        record db {
          wallet = w;
          orders =
              adjust c.new_id (rejected_order (deduct_error f)) (insert c.new_id placed db.orders);
        },
      )
  unfolding buy_locked
  buy_locked-refused {f} {w} e = ground (arith, e)

  pub buy_locked-executed :
      {b : ℤ} {w : W}
      → api.deduct member (times dto.shares price) c.new_id db.wallet ≡ (ok b, w)
      → let orders = adjust c.new_id (executed_order c) (insert c.new_id placed db.orders) in
        buy_locked api divide member dto trader stock price c db ≡ (
          ok (lookup c.new_id orders),
          record db {
            wallet = w;
            orders = orders;
            positions =
                upsert divide member dto.stock_id stock.ticker stock.company_name dto.shares price
                  db.positions;
            portfolio_cache = erase member db.portfolio_cache;
            events = db.events ++ trade buying none ∷ [];
          },
        )
  unfolding buy_locked
  buy_locked-executed {b} {w} e = ground (arith, e)

  -- The document of a new sell order, for the position as it is after the shares were taken.
  abbrev pub offered : Position → Order
  offered p =
      pending_order member dto stock selling price (times dto.shares price)
        (some (profit_of dto price p))

  -- The positions while the wallet service is asked.
  abbrev pub reserved : List Position
  reserved = update_first (has_shares member dto) (take_shares dto.shares) db.positions

  pub sell_locked-short :
      find (has_shares member dto) db.positions ≡ none
      → sell_locked api member dto trader stock price c db ≡ (err insufficient_shares, db)
  unfolding sell_locked reserve_shares
  sell_locked-short h = ground (arith, h)

  pub sell_locked-refused :
      {p : Position} {f : Failure} {w : W}
      → find (has_shares member dto) db.positions ≡ some p
      → api.credit member (times dto.shares price) c.new_id db.wallet ≡ (err f, w)
      → sell_locked api member dto trader stock price c db ≡ (
        err (credit_error f),
        record db {
          wallet = w;
          orders =
              adjust c.new_id
                (rejected_order (credit_error f))
                (insert c.new_id (offered (take_shares dto.shares p)) db.orders);
          positions = update_first (is_of member dto.stock_id) (add_shares dto.shares) reserved;
        },
      )
  unfolding sell_locked reserve_shares
  sell_locked-refused {p} {f} {w} h e = ground (arith, h, e)

  abbrev pub cleaned : Position → List Position → List Position
  cleaned p ps = if p.shares == 0 then delete_first (is_of member dto.stock_id) ps else ps

  pub sell_locked-executed :
      {p : Position} {b : ℤ} {w : W}
      → find (has_shares member dto) db.positions ≡ some p
      → api.credit member (times dto.shares price) c.new_id db.wallet ≡ (ok b, w)
      → let left = take_shares dto.shares p in
        let orders =
          adjust c.new_id (executed_order c) (insert c.new_id (offered left) db.orders) in
        sell_locked api member dto trader stock price c db ≡ (
          ok (lookup c.new_id orders),
          record db {
            wallet = w;
            orders = orders;
            positions = cleaned left reserved;
            portfolio_cache = erase member db.portfolio_cache;
            events = db.events ++ trade selling (some (profit_of dto price left)) ∷ [];
          },
        )
  unfolding sell_locked reserve_shares
  sell_locked-executed {p} {b} {w} h e = ground (arith, h, e)
