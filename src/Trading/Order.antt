-- ===== src/Trading/Order.antt =====
-- apps/trading-service/src/modules/order/order.service.ts, with modules/order/wallet.client.ts: buying and
-- selling inside the member's lock, and what is undone when the wallet service refuses.
pub mod Outcomes
pub mod Buying
pub mod Selling
pub mod Exchange
pub mod History
use mathlib.Core.Option.{get_or}
use eurisko_final_proejct.Base.{
  ℕ, String, Option, none, some, Bool, true, false, ◌&&◌, List, [], ◌∷◌, ◌++◌, Result, ok, err,
  Action, ◌>>=◌, ◌>>◌, pure, throw, gets, modify, or_throw, leb, ltb, ◌==◌, if◌then◌else◌,
}
use eurisko_final_proejct.Base.Int.{ℤ}
use eurisko_final_proejct.Base.Store.{lookup, insert, adjust, erase}
use eurisko_final_proejct.Trading.Data.{
  Number, times, minus, OrderType, buying, selling, OrderStatus, pending, executed, rejected,
  Trader, Stock, Position, Order, Event, trade_executed, Db, Error, insufficient_shares,
  bad_gateway, wallet_unavailable, Call, Failure, WalletApi,
}
use eurisko_final_proejct.Trading.Trader.{assert_can_trade}
use eurisko_final_proejct.Trading.Stock.{Reading, price_of, find_by_id, find_listed_by_id}
use eurisko_final_proejct.Trading.Lock.{Pause, with_member_lock}
use eurisko_final_proejct.Trading.Position.{
  is_of, find, update_first, delete_first, add_shares, take_shares, upsert_position,
}

-- `PlaceOrderDto`
pub record PlaceOrderDto : Type 0 where
  pub stock_id : ℕ
  pub shares : ℕ

-- The errors of the wallet client: a refusal of the deduction (status 400 to 499) is passed on as 502.
abbrev pub client_error : Option ℕ → Bool
client_error none = false
client_error (some s) = leb 400 s && ltb s 500

abbrev pub deduct_error : Failure → Error
deduct_error f =
    if client_error f.status
    then bad_gateway (get_or f.message "Wallet service error")
    else wallet_unavailable

abbrev pub credit_error : Failure → Error
credit_error f = wallet_unavailable

-- `(err as Error).message`
abbrev pub message_of : Error → String
message_of (bad_gateway m) = m
message_of wallet_unavailable = "Wallet service is unavailable"
message_of _ = ""

abbrev pub pending_order :
    ℕ → PlaceOrderDto → Stock → OrderType → Number → Number → Option Number → Order
pending_order member dto stock side price total profit = record {
  member_id = member;
  stock_id = dto.stock_id;
  ticker = stock.ticker;
  company_name = stock.company_name;
  type_of = side;
  status = pending;
  shares = dto.shares;
  price_per_share = price;
  total_amount = total;
  profit_loss = profit;
  rejection_reason = none;
  executed_at = none;
}

abbrev pub rejected_order : Error → Order → Order
rejected_order e o = record o { status = rejected; rejection_reason = some (message_of e) }

abbrev pub executed_order : Call → Order → Order
executed_order c o = record o { status = executed; executed_at = some c.now }

-- The guard of the sale: `shares: { $gte: dto.shares }`.
abbrev pub has_shares : ℕ → PlaceOrderDto → Position → Bool
has_shares member dto p = is_of member dto.stock_id p && leb dto.shares p.shares

-- `(pricePerShare - avgBuyPrice) * dto.shares`
abbrev pub profit_of : PlaceOrderDto → Number → Position → Number
profit_of dto price p = times dto.shares (minus price p.avg_buy_price)

module _ {W : Type 0} where
  abbrev pub create_order : Call → Order → Action (Db W) Error (Unit {0})
  create_order c o = modify (λ db. record db { orders = insert c.new_id o db.orders })

  abbrev pub update_order : ℕ → (Order → Order) → Action (Db W) Error (Unit {0})
  update_order id f = modify (λ db. record db { orders = adjust id f db.orders })

  abbrev pub call_wallet : (W → Result Failure ℤ × W) → Action (Db W) Error (Result Failure ℤ)
  call_wallet f db = let (r, w) = f db.wallet in (ok r, record db { wallet = w })

  abbrev pub forget_portfolio : ℕ → Action (Db W) Error (Unit {0})
  forget_portfolio member =
      modify (λ db. record db { portfolio_cache = erase member db.portfolio_cache })

  abbrev pub emit : Event → Action (Db W) Error (Unit {0})
  emit e = modify (λ db. record db { events = db.events ++ e ∷ [] })

  -- Steps 7 to 9 of `buy` and `sell`: the order is marked, the cached portfolio goes, the message is sent,
  -- and the caller gets the order as it is then.
  abbrev pub finish :
      Call
      → ℕ
      → PlaceOrderDto
      → Trader
      → Stock
      → OrderType
      → Number
      → Number
      → Option Number
      → Action (Db W) Error (Option Order)
  finish c member dto trader stock side price total profit = do
    update_order c.new_id (executed_order c)
    done ← gets (λ db. lookup c.new_id db.orders)
    forget_portfolio member
    emit (
        trade_executed member trader.email trader.full_name side stock.ticker stock.company_name
          dto.shares price total profit c.new_id)
    pure done

  module _ (api : WalletApi W) (divide : ℤ → ℕ → ℤ) where
    abbrev pub settle_buy :
        Call
        → ℕ
        → PlaceOrderDto
        → Trader
        → Stock
        → Number
        → Result Failure ℤ
        → Action (Db W) Error (Option Order)
    settle_buy c member dto trader stock price (err f) = do
      update_order c.new_id (rejected_order (deduct_error f))
      throw (deduct_error f)
    settle_buy c member dto trader stock price (ok _) = do
      upsert_position divide member dto.stock_id stock.ticker stock.company_name dto.shares price
      finish c member dto trader stock buying price (times dto.shares price) none

    -- Steps 4 to 9 of `buy`, inside the lock.
    unfoldable pub buy_locked :
        ℕ → PlaceOrderDto → Trader → Stock → Number → Call → Action (Db W) Error (Option Order)
    buy_locked member dto trader stock price c = do
      create_order c (pending_order member dto stock buying price (times dto.shares price) none)
      answer ← call_wallet (api.deduct member (times dto.shares price) c.new_id)
      settle_buy c member dto trader stock price answer

    unfoldable pub buy : ℕ → Pause W → Call → ℕ → PlaceOrderDto → Action (Db W) Error (Option Order)
    buy ttl pause c member dto = do
      trader ← assert_can_trade member
      reading ← find_listed_by_id dto.stock_id
      with_member_lock ttl pause c member
          (buy_locked member dto trader reading.stock (price_of reading))

  -- `findOneAndUpdate` with the guard on the shares: the position as it is afterwards.
  unfoldable pub reserve_shares : ℕ → PlaceOrderDto → Action (Db W) Error (Option Position)
  reserve_shares member dto db = elim (find (has_shares member dto) db.positions) [
    | none ↦ (ok none, db)
    | some p ↦ (
      ok (some (take_shares dto.shares p)),
      record db {
        positions = update_first (has_shares member dto) (take_shares dto.shares) db.positions;
      },
    )
  ]

  abbrev pub restore_shares : ℕ → PlaceOrderDto → Action (Db W) Error (Unit {0})
  restore_shares member dto = modify (λ db. record db {
    positions = update_first (is_of member dto.stock_id) (add_shares dto.shares) db.positions;
  })

  abbrev pub clean_up : ℕ → PlaceOrderDto → Position → Action (Db W) Error (Unit {0})
  clean_up member dto p =
      if p.shares == 0
      then modify
          (λ db. record db { positions = delete_first (is_of member dto.stock_id) db.positions })
      else pure tt

  abbrev pub settle_sell :
      Call
      → ℕ
      → PlaceOrderDto
      → Trader
      → Stock
      → Number
      → Position
      → Result Failure ℤ
      → Action (Db W) Error (Option Order)
  settle_sell c member dto trader stock price p (err f) = do
    restore_shares member dto
    update_order c.new_id (rejected_order (credit_error f))
    throw (credit_error f)
  settle_sell c member dto trader stock price p (ok _) = do
    clean_up member dto p
    finish c member dto trader stock selling price (times dto.shares price)
        (some (profit_of dto price p))

  module _ (api : WalletApi W) where
    -- Steps 3 to 9 of `sell`, inside the lock.
    unfoldable pub sell_locked :
        ℕ → PlaceOrderDto → Trader → Stock → Number → Call → Action (Db W) Error (Option Order)
    sell_locked member dto trader stock price c = do
      found ← reserve_shares member dto
      position ← or_throw found insufficient_shares
      create_order c (
          pending_order member dto stock selling price (times dto.shares price)
            (some (profit_of dto price position)))
      answer ← call_wallet (api.credit member (times dto.shares price) c.new_id)
      settle_sell c member dto trader stock price position answer

    unfoldable pub sell :
        ℕ → Pause W → Call → ℕ → PlaceOrderDto → Action (Db W) Error (Option Order)
    sell ttl pause c member dto = do
      trader ← assert_can_trade member
      reading ← find_by_id dto.stock_id
      with_member_lock ttl pause c member
          (sell_locked member dto trader reading.stock (price_of reading))
