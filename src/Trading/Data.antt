-- ===== src/Trading/Data.antt =====
-- The documents of apps/trading-service/src/database/schemas, the enumerations of common/constants, and
-- the state that one handler sees, with the wallet service's state `W` in it. Prices and amounts are
-- integers of the grid 10^-6, or NaN; ids are numbers; times are in milliseconds.
use eurisko_final_proejct.Base.{ℕ, String, Bool, List, Option, Result}
use eurisko_final_proejct.Base.Int.{ℤ, ◌+ℤ◌, ◌-ℤ◌, scale}
use eurisko_final_proejct.Base.Store.{Store}
use eurisko_final_proejct.Redis.{Entry}

-- A JavaScript number of the grid, or NaN.
pub data Number : Type 0 where
  nan : Number
  num : ℤ → Number

-- n * a
abbrev pub times : ℕ → Number → Number
times n nan = nan
times n (num a) = num (scale n a)

abbrev pub plus : Number → Number → Number
plus nan _ = nan
plus (num a) nan = nan
plus (num a) (num b) = num (a +ℤ b)

abbrev pub minus : Number → Number → Number
minus nan _ = nan
minus (num a) nan = nan
minus (num a) (num b) = num (a -ℤ b)

pub data OrderType : Type 0 where
  buying selling : OrderType

pub data OrderStatus : Type 0 where
  pending executed rejected : OrderStatus

pub data TraderStatus : Type 0 where
  active suspended : TraderStatus

pub data KycStatus : Type 0 where
  kyc_pending kyc_approved kyc_rejected : KycStatus

-- A trader, found by its `_id`.
pub record Trader : Type 0 where
  pub full_name : String
  pub email : String
  pub status : TraderStatus
  pub kyc_status : KycStatus

pub record PriceHistoryEntry : Type 0 where
  pub price : ℤ
  pub recorded_at : ℕ

-- A stock, found by its `_id`.
pub record Stock : Type 0 where
  pub ticker : String
  pub company_name : String
  pub sector : String
  pub current_price : ℤ
  pub description : String
  pub is_listed : Bool
  pub price_history : List PriceHistoryEntry

-- `{ data, total }`, as `findAll` answers and caches it.
pub record Catalogue : Type 0 where
  pub stocks : Store Stock
  pub total : ℕ

-- A position; `memberId` and `stockId` together are unique.
pub record Position : Type 0 where
  pub member_id : ℕ
  pub stock_id : ℕ
  pub ticker : String
  pub company_name : String
  pub shares : ℕ
  pub avg_buy_price : Number
  pub total_invested : Number

-- An order, found by its `_id`.
pub record Order : Type 0 where
  pub member_id : ℕ
  pub stock_id : ℕ
  pub ticker : String
  pub company_name : String
  pub type_of : OrderType
  pub status : OrderStatus
  pub shares : ℕ
  pub price_per_share : Number
  pub total_amount : Number
  pub profit_loss : Option Number
  pub rejection_reason : Option String
  pub executed_at : Option ℕ

-- A position with its value, and the positions of a member with their totals.
pub record PortfolioPosition : Type 0 where
  pub stock_id : ℕ
  pub ticker : String
  pub company_name : String
  pub shares : ℕ
  pub avg_buy_price : ℤ
  pub total_invested : ℤ
  pub current_price : ℤ
  pub current_value : ℤ
  pub unrealized_pnl : ℤ
  pub unrealized_pnl_percent : ℤ

pub record PortfolioSummary : Type 0 where
  pub positions : List PortfolioPosition
  pub total_invested : ℤ
  pub total_current_value : ℤ
  pub total_unrealized_pnl : ℤ

-- The message of `emitTradeExecuted`, and that of `emitPriceUpdated`.
pub data Event : Type 0 where
  trade_executed :
      (user_id : ℕ) (email name : String) (trade_type : OrderType) (ticker company_name : String)
      (shares : ℕ) (price_per_share total_amount : Number) (profit_loss : Option Number)
      (transaction_id : ℕ)
      → Event
  price_updated : (stock_id : ℕ) (ticker : String) (new_price : ℤ) → Event

-- The database, the Redis keys of the service by their member or stock (the lock, the cached portfolio,
-- the cached stock, the cached catalogue), the messages sent, and the wallet service.
pub record Db (W : Type 0) : Type 0 where
  pub traders : Store Trader
  pub stocks : Store Stock
  pub orders : Store Order
  pub positions : List Position
  pub locks : Store Entry
  pub stock_cache : Store Stock
  pub portfolio_cache : Store PortfolioSummary
  pub catalogue_cache : Option Catalogue
  pub events : List Event
  pub wallet : W

pub data Error : Type 0 where
  trader_not_found account_suspended kyc_required stock_not_found stock_not_available : Error
  ticker_exists insufficient_shares order_not_found position_not_found operation_in_progress : Error
  bad_gateway : (message : String) → Error
  wallet_unavailable : Error

-- What one call draws from outside: the clock, the token of its lock, the `_id` of the document that it
-- creates.
pub record Call : Type 0 where
  pub now : ℕ
  pub lock_token : String
  pub new_id : ℕ

-- An axios error: the status and the message of the response, if there was one.
pub record Failure : Type 0 where
  pub status : Option ℕ
  pub message : Option String

-- The endpoints `internal/wallet/deduct` and `internal/wallet/credit`: member, amount, order. A NaN
-- amount travels as `null`.
pub record WalletApi (W : Type 0) : Type 0 where
  pub deduct : ℕ → Number → ℕ → W → Result Failure ℤ × W
  pub credit : ℕ → Number → ℕ → W → Result Failure ℤ × W
