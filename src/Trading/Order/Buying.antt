-- ===== src/Trading/Order/Buying.antt =====
-- A buy order from its guards to the released lock.
use eurisko_final_proejct.Base.{
  ℕ, ◌+◌, Option, none, some, [], ◌∷◌, ◌++◌, ok, err, ◌≡◌, refl, ap, true, arith, Action,
}
use eurisko_final_proejct.Base.Int.{ℤ, scale}
use eurisko_final_proejct.Base.Store.{lookup, insert, erase, lookup-adjust_self, lookup-insert_self}
use eurisko_final_proejct.Redis.{get}
use eurisko_final_proejct.Redis.Laws.{get-compare_del}
use eurisko_final_proejct.Trading.Data.{
  num, buying, active, kyc_approved, Trader, Stock, Order, Db, Error, Call, Failure, WalletApi,
}
use eurisko_final_proejct.Trading.Trader.{assert_can_trade}
use eurisko_final_proejct.Trading.Stock.{find_by_id, find_listed_by_id}
use eurisko_final_proejct.Trading.Lock.{Pause, with_member_lock, release_lock}
use eurisko_final_proejct.Trading.Lock.Exclusion.{locked, with_member_lock-free}
use eurisko_final_proejct.Trading.Position.{is_of}
use eurisko_final_proejct.Trading.Position.Laws.{AtMostOne}
use eurisko_final_proejct.Trading.Position.Holdings.{shares_of, shares_of-upsert}
use eurisko_final_proejct.Trading.Order.{
  PlaceOrderDto, deduct_error, rejected_order, executed_order, buy_locked, buy,
}
use eurisko_final_proejct.Trading.Order.Outcomes.{
  placed, trade, buy_locked-refused, buy_locked-executed,
}

-- A trader that may trade.
pub record MayTrade {W : Type 0} (db : Db W) (member : ℕ) (t : Trader) : Type 0 where
  pub known : lookup member db.traders ≡ some t
  pub is_active : t.status ≡ active
  pub approved : t.kyc_status ≡ kyc_approved

pub assert_can_trade-ok :
    {W : Type 0} {db : Db W} {member : ℕ} {t : Trader}
    → MayTrade db member t
    → assert_can_trade member db ≡ (ok t, db)
unfolding assert_can_trade
assert_can_trade-ok may = ground (arith, may.known, may.is_active, may.approved)

-- A stock of the catalogue that is not in the cache.
pub record Listed {W : Type 0} (db : Db W) (id : ℕ) (s : Stock) : Type 0 where
  pub uncached : lookup id db.stock_cache ≡ none
  pub stored : lookup id db.stocks ≡ some s
  pub listed : s.is_listed ≡ true

module _ {W : Type 0} (api : WalletApi W) (divide : ℤ → ℕ → ℤ) (ttl : ℕ) (pause : Pause W)
    (c : Call) (member : ℕ) (dto : PlaceOrderDto) (db : Db W) (t : Trader) (s : Stock) where
  abbrev cached : Db W
  cached = record db { stock_cache = insert dto.stock_id s db.stock_cache }

  abbrev body : Call → Action (Db W) Error (Option Order)
  body = buy_locked api divide member dto t s (num s.current_price)

  buy-passed :
      MayTrade db member t
      → Listed db dto.stock_id s
      → buy api divide ttl pause c member dto db ≡ with_member_lock ttl pause c member body cached
  unfolding buy find_by_id find_listed_by_id
  buy-passed may found =
      ground (arith, assert_can_trade-ok may, found.uncached, found.stored, found.listed)

  -- The amount of the order: shares times price.
  abbrev pub cost : ℤ
  cost = scale dto.shares s.current_price

  -- A buy order of a trader that may trade, for a listed stock that is not in the cache, with the
  -- member's lock free, that the wallet service refuses: the caller gets the client's error, the
  -- order is there as rejected with the error's message, no position, no cached portfolio and no
  -- message has changed, and the lock is free again.
  pub buy_refused :
      {f : Failure} {w : W}
      → MayTrade db member t
      → Listed db dto.stock_id s
      → get c.now member db.locks ≡ none
      → api.deduct member (num cost) c.new_id db.wallet ≡ (err f, w)
      → let (r, after) = buy api divide ttl pause c member dto db in
        (r ≡ err (deduct_error f))
        × (after.wallet ≡ w)
        × (after.positions ≡ db.positions)
        × (lookup c.new_id after.orders
            ≡ some (
                rejected_order
                  (deduct_error f)
                  (placed api divide member dto t s (num s.current_price) c db)))
        × (after.events ≡ db.events)
        × (after.portfolio_cache ≡ db.portfolio_cache)
        × (get c.now member after.locks ≡ none)
  unfolding release_lock
  buy_refused {f} {w} may found free refused =
      let at = locked ttl c member cached in
      rw
        (
          buy-passed may found,
          with_member_lock-free ttl pause c member body cached free,
          buy_locked-refused api divide member dto t s (num s.current_price) c at refused,
        )
        (
          refl,
          refl,
          refl,
          lookup-adjust_self c.new_id (rejected_order (deduct_error f)) _
              (lookup-insert_self c.new_id _ db.orders),
          refl,
          refl,
          get-compare_del c.now member c.lock_token ttl db.locks,
        )

  -- A buy order of a trader that may trade, for a listed stock that is not in the cache, with the
  -- member's lock free and at most one position of the member and the stock, for which the wallet
  -- service takes the money: the member holds the shares more, the order is executed at the time of
  -- the call and is the answer, one message is sent, the cached portfolio is gone, and the lock is
  -- free again.
  pub buy_executed :
      {b : ℤ} {w : W}
      → MayTrade db member t
      → Listed db dto.stock_id s
      → get c.now member db.locks ≡ none
      → AtMostOne (is_of member dto.stock_id) db.positions
      → api.deduct member (num cost) c.new_id db.wallet ≡ (ok b, w)
      → let (r, after) = buy api divide ttl pause c member dto db in
        let done = executed_order c (placed api divide member dto t s (num s.current_price) c db) in
        (r ≡ ok (some done))
        × (after.wallet ≡ w)
        × (shares_of member dto.stock_id after.positions
            ≡ shares_of member dto.stock_id db.positions + dto.shares)
        × (lookup c.new_id after.orders ≡ some done)
        × (after.events
            ≡ db.events
              ++ trade api divide member dto t s (num s.current_price) c db buying none ∷ [])
        × (after.portfolio_cache ≡ erase member db.portfolio_cache)
        × (get c.now member after.locks ≡ none)
  unfolding release_lock
  buy_executed {b} {w} may found free one taken =
      let at = locked ttl c member cached in
      let marked = lookup-adjust_self c.new_id (executed_order c) _ (
        lookup-insert_self c.new_id (placed api divide member dto t s (num s.current_price) c db)
          db.orders) in
      rw
        (
          buy-passed may found,
          with_member_lock-free ttl pause c member body cached free,
          buy_locked-executed api divide member dto t s (num s.current_price) c at taken,
        )
        (
          ap (λ o. ok o) marked,
          refl,
          shares_of-upsert divide member dto.stock_id s.ticker s.company_name dto.shares
              (num s.current_price) db.positions one,
          marked,
          refl,
          refl,
          get-compare_del c.now member c.lock_token ttl db.locks,
        )
