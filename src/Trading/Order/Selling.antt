-- ===== src/Trading/Order/Selling.antt =====
-- A sell order from its guards to the released lock.
use eurisko_final_proejct.Base.{
  ℕ, ◌-◌, Option, none, some, [], ◌∷◌, ◌++◌, ok, err, ◌≡◌, refl, ap, false, arith, Action, ◌<◌,
  ◌==◌,
}
use eurisko_final_proejct.Base.Int.{ℤ, scale}
use eurisko_final_proejct.Base.Store.{lookup, insert, lookup-adjust_self, lookup-insert_self}
use eurisko_final_proejct.Redis.{get}
use eurisko_final_proejct.Redis.Laws.{get-compare_del}
use eurisko_final_proejct.Trading.Data.{
  num, times, minus, wallet_unavailable, selling, rejected, Trader, Stock, Position, Order, Db,
  Error, Call, Failure, WalletApi, insufficient_shares,
}
use eurisko_final_proejct.Trading.Stock.{find_by_id}
use eurisko_final_proejct.Trading.Lock.{Pause, with_member_lock, release_lock}
use eurisko_final_proejct.Trading.Lock.Exclusion.{locked, with_member_lock-free}
use eurisko_final_proejct.Trading.Position.{is_of, find, take_shares}
use eurisko_final_proejct.Trading.Position.Laws.{
  AtMostOne, update_first-restore, AtMostOne-update_first,
}
use eurisko_final_proejct.Trading.Position.Holdings.{shares_of, shares_of-cleaned, find-reserved}
use eurisko_final_proejct.Trading.Order.{
  PlaceOrderDto, credit_error, rejected_order, executed_order, has_shares, profit_of, sell_locked,
  sell,
}
use eurisko_final_proejct.Trading.Order.Outcomes.{
  offered, trade, sell_locked-short, sell_locked-refused, sell_locked-executed,
}
use eurisko_final_proejct.Trading.Order.Buying.{MayTrade, assert_can_trade-ok}

-- A stock, listed or not, that is not in the cache.
pub record Stored {W : Type 0} (db : Db W) (id : ℕ) (s : Stock) : Type 0 where
  pub uncached : lookup id db.stock_cache ≡ none
  pub stored : lookup id db.stocks ≡ some s

module _ {W : Type 0} (api : WalletApi W) (divide : ℤ → ℕ → ℤ) (ttl : ℕ) (pause : Pause W)
    (c : Call) (member : ℕ) (dto : PlaceOrderDto) (db : Db W) (t : Trader) (s : Stock) where
  abbrev cached : Db W
  cached = record db { stock_cache = insert dto.stock_id s db.stock_cache }

  abbrev body : Call → Action (Db W) Error (Option Order)
  body = sell_locked api member dto t s (num s.current_price)

  sell-passed :
      MayTrade db member t
      → Stored db dto.stock_id s
      → sell api ttl pause c member dto db ≡ with_member_lock ttl pause c member body cached
  unfolding sell find_by_id
  sell-passed may found = ground (arith, assert_can_trade-ok may, found.uncached, found.stored)

  abbrev pub proceeds : ℤ
  proceeds = scale dto.shares s.current_price

  -- A sell order of a trader that may trade, for a stored stock that is not in the cache, with the
  -- member's lock free, of more shares than any position of the member and the stock has, is
  -- refused: the orders, the positions, the wallet and the messages stay as they were, and the lock
  -- is free again.
  pub sell_short :
      MayTrade db member t
      → Stored db dto.stock_id s
      → get c.now member db.locks ≡ none
      → find (has_shares member dto) db.positions ≡ none
      → let (r, after) = sell api ttl pause c member dto db in
        (r ≡ err insufficient_shares)
        × (after.orders ≡ db.orders)
        × (after.positions ≡ db.positions)
        × (after.wallet ≡ db.wallet)
        × (after.events ≡ db.events)
        × (get c.now member after.locks ≡ none)
  unfolding release_lock
  sell_short may found free short =
      rw
        (
          sell-passed may found,
          with_member_lock-free ttl pause c member body cached free,
          sell_locked-short api divide member dto t s (num s.current_price) c
              (locked ttl c member cached) short,
        )
        (refl, refl, refl, refl, refl, get-compare_del c.now member c.lock_token ttl db.locks)

  -- A sell order of a trader that may trade, for a stored stock that is not in the cache, with the
  -- member's lock free, from the only position of the member and the stock, which has the shares,
  -- for which the call of the wallet service fails, is undone on this side: the caller gets the client's
  -- error, the positions are as they were before, the order is there as rejected, for that reason,
  -- with what was asked for and the profit it would have had, no message is sent, and the lock is
  -- free again.
  pub sell_refused :
      {p : Position} {f : Failure} {w : W}
      → MayTrade db member t
      → Stored db dto.stock_id s
      → get c.now member db.locks ≡ none
      → AtMostOne (is_of member dto.stock_id) db.positions
      → find (has_shares member dto) db.positions ≡ some p
      → api.credit member (num proceeds) c.new_id db.wallet ≡ (err f, w)
      → let (r, after) = sell api ttl pause c member dto db in
        (r ≡ err wallet_unavailable)
        × (after.wallet ≡ w)
        × (after.positions ≡ db.positions)
        × (lookup c.new_id after.orders
            ≡ some (record {
              member_id = member;
              stock_id = dto.stock_id;
              ticker = s.ticker;
              company_name = s.company_name;
              type_of = selling;
              status = rejected;
              shares = dto.shares;
              price_per_share = num s.current_price;
              total_amount = num proceeds;
              profit_loss = some (times dto.shares (minus (num s.current_price) p.avg_buy_price));
              rejection_reason = some "Wallet service is unavailable";
              executed_at = none;
            }))
        × (after.events ≡ db.events)
        × (get c.now member after.locks ≡ none)
  unfolding release_lock
  sell_refused {p} {f} {w} may found free one held refused =
      rw
        (
          sell-passed may found,
          with_member_lock-free ttl pause c member body cached free,
          sell_locked-refused api divide member dto t s (num s.current_price) c
              (locked ttl c member cached) held refused,
        )
        (
          refl,
          refl,
          update_first-restore member dto.stock_id dto.shares db.positions one held,
          lookup-adjust_self c.new_id (rejected_order (credit_error f)) _
              (lookup-insert_self c.new_id _ db.orders),
          refl,
          get-compare_del c.now member c.lock_token ttl db.locks,
        )

  -- A sell order of a trader that may trade, for a stored stock that is not in the cache, with the
  -- member's lock free, from the only position of the member and the stock, which has the shares,
  -- that the wallet service credits: the member holds the shares less, the order is executed with
  -- its profit and is the answer, one message is sent, and the lock is free again.
  pub sell_executed :
      {p : Position} {b : ℤ} {w : W}
      → MayTrade db member t
      → Stored db dto.stock_id s
      → get c.now member db.locks ≡ none
      → AtMostOne (is_of member dto.stock_id) db.positions
      → find (has_shares member dto) db.positions ≡ some p
      → api.credit member (num proceeds) c.new_id db.wallet ≡ (ok b, w)
      → let (r, after) = sell api ttl pause c member dto db in
        let left = take_shares dto.shares p in
        let done =
          executed_order c (offered api divide member dto t s (num s.current_price) c db left) in
        (r ≡ ok (some done))
        × (after.wallet ≡ w)
        × (shares_of member dto.stock_id after.positions
            ≡ shares_of member dto.stock_id db.positions - dto.shares)
        × (lookup c.new_id after.orders ≡ some done)
        × (after.events
            ≡ db.events
              ++ trade api divide member dto t s
                  (num s.current_price)
                  c
                  db
                  selling
                  (some (profit_of dto (num s.current_price) left))
                ∷ [])
        × (get c.now member after.locks ≡ none)
  unfolding release_lock
  sell_executed {p} {b} {w} may found free one held paid =
      let marked = lookup-adjust_self c.new_id (executed_order c) _ (
        lookup-insert_self c.new_id
          (offered api divide member dto t s (num s.current_price) c db (take_shares dto.shares p))
          db.orders) in
      rw
        (
          sell-passed may found,
          with_member_lock-free ttl pause c member body cached free,
          sell_locked-executed api divide member dto t s (num s.current_price) c
              (locked ttl c member cached) held paid,
        )
        (
          ap (λ o. ok o) marked,
          refl,
          shares_of-cleaned member dto.stock_id dto.shares db.positions one held (
              AtMostOne-update_first (is_of member dto.stock_id) (has_shares member dto)
                (take_shares dto.shares) db.positions (λ x. refl) one),
          marked,
          refl,
          get-compare_del c.now member c.lock_token ttl db.locks,
        )

  -- A sell order of a trader that may trade, for a stored stock that is not in the cache, with the
  -- member's lock free, from the only position of the member and the stock, that the wallet service
  -- credits, of fewer shares than the position has, leaves the position's average price and its
  -- whole invested total as they were: the cost of the shares sold stays in it.
  pub sell_keeps_invested :
      {p : Position} {b : ℤ} {w : W}
      → MayTrade db member t
      → Stored db dto.stock_id s
      → get c.now member db.locks ≡ none
      → AtMostOne (is_of member dto.stock_id) db.positions
      → find (has_shares member dto) db.positions ≡ some p
      → dto.shares < p.shares
      → api.credit member (num proceeds) c.new_id db.wallet ≡ (ok b, w)
      → find (is_of member dto.stock_id) (sell api ttl pause c member dto db).1.positions
        ≡ some (record p { shares = p.shares - dto.shares })
  unfolding release_lock
  sell_keeps_invested {p} {b} {w} may found free one held part paid =
      let some_left : (p.shares - dto.shares == 0) ≡ false = ground arith in
      rw
        (
          sell-passed may found,
          with_member_lock-free ttl pause c member body cached free,
          sell_locked-executed api divide member dto t s (num s.current_price) c
              (locked ttl c member cached) held paid,
          some_left,
        )
        (find-reserved member dto.stock_id dto.shares db.positions one held)
