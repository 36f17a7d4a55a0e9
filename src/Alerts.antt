-- ===== src/Alerts.antt =====
-- Price alerts: apps/trading-service/src/modules/alert/alert.service.ts (and `checkAlerts` of
-- modules/stock/stock.service.ts, which is the same routine), and the worker of
-- apps/alert-worker/src/alert.consumer.ts, which takes the alerts in batches. The service's model is
-- `PriceAlert` and the worker's is `Alert`, so that each has a collection of its own, read in the order
-- in which the database holds it.
pub mod Marking
pub mod Settled
pub mod Once
pub mod Rounds
pub mod Batches
pub mod Skipping
pub mod Tests
use mathlib.Core.Option.{get_or}
use mathlib.Core.Option
use eurisko_final_proejct.Base.{
  ℕ, zero, suc, ◌+◌, ◌*◌, String, Bool, true, false, not, ◌&&◌, ◌||◌, Option, none, some, List, [],
  ◌∷◌, ◌++◌, map, Result, ok, err, Action, ◌>>=◌, ◌>>◌, pure, gets, or_throw, modify, length, take,
  drop, select, ltb, ◌==◌, if◌then◌else◌,
}
use eurisko_final_proejct.Base.Int.{ℤ, leb_ℤ}
use eurisko_final_proejct.Base.Store.{Store, lookup, insert, erase}
use eurisko_final_proejct.Trading.Data.{Trader, Stock}

pub data AlertDirection : Type 0 where
  above below : AlertDirection

-- `PriceAlert` of the trading service and `Alert` of the worker.
pub record Alert : Type 0 where
  pub member_id : ℕ
  pub stock_id : ℕ
  pub ticker : String
  pub target_price : ℤ
  pub direction : AlertDirection
  pub triggered : Bool
  pub member_email : String
  pub member_name : String

-- The message `notification.price.alert`; the worker's has the alert's id, the service's the company.
pub data Event : Type 0 where
  price_alert :
      (user_id : ℕ) (email name ticker company_name : String) (target_price current_price : ℤ)
      (direction : AlertDirection)
      → Event
  worker_alert :
      (user_id : ℕ) (email name ticker : String) (target_price current_price : ℤ)
      (direction : AlertDirection) (alert_id : ℕ)
      → Event

-- The worker's collection, and its messages.
pub record WorkerDb : Type 0 where
  pub alerts : Store Alert
  pub events : List Event

-- The trading service's collections, and its messages.
pub record Db : Type 0 where
  pub alerts : Store Alert
  pub traders : Store Trader
  pub stocks : Store Stock
  pub events : List Event

pub data AlertError : Type 0 where
  stock_not_found trader_not_found alert_not_found : AlertError

-- Has the price reached the target?
abbrev pub reached : ℤ → ℕ × Alert → Bool
reached price (_, a) = elim a.direction [
  | above ↦ leb_ℤ a.target_price price
  | below ↦ leb_ℤ price a.target_price
]

-- `{ stockId, triggered: false }`
abbrev pub is_open : ℕ → ℕ × Alert → Bool
is_open stock (_, a) = a.stock_id == stock && not a.triggered

abbrev pub has_id : List ℕ → ℕ → Bool
has_id [] id = false
has_id (j ∷ ids) id = j == id || has_id ids id

abbrev pub as_triggered : Alert → Alert
as_triggered a = record a { triggered = true }

-- `updateMany({ _id: { $in: ids } }, { $set: { triggered: true } })`
unfoldable pub mark : List ℕ → Store Alert → Store Alert
mark ids [] = []
mark ids ((id, a) ∷ rest) =
    (if has_id ids id then (id, as_triggered a) else (id, a)) ∷ mark ids rest

abbrev pub ids_of : Store Alert → List ℕ
ids_of = map (λ (d : ℕ × Alert). d.0)

-- `CreateAlertDto`
pub record CreateAlertDto : Type 0 where
  pub stock_id : ℕ
  pub target_price : ℤ
  pub direction : AlertDirection

abbrev pub new_alert : ℕ → CreateAlertDto → Stock → Trader → Alert
new_alert member dto stock trader = record {
  member_id = member;
  stock_id = dto.stock_id;
  ticker = stock.ticker;
  target_price = dto.target_price;
  direction = dto.direction;
  triggered = false;
  member_email = trader.email;
  member_name = trader.full_name;
}

-- `create`, with the new document's id.
unfoldable pub create : ℕ → ℕ → CreateAlertDto → Action Db AlertError ℕ
create new_id member dto = do
  stock ← or_throw (← gets (λ db. lookup dto.stock_id db.stocks)) stock_not_found
  trader ← or_throw (← gets (λ db. lookup member db.traders)) trader_not_found
  modify (λ db. record db { alerts = insert new_id (new_alert member dto stock trader) db.alerts })
  pure new_id

-- `findOne({ _id, memberId })`
abbrev pub owned_by : ℕ → Option Alert → Option Alert
owned_by member none = none
owned_by member (some a) = if a.member_id == member then some a else none

unfoldable pub remove : ℕ → ℕ → Action Db AlertError (Unit {0})
remove id member = do
  found ← gets (λ db. owned_by member (lookup id db.alerts))
  alert ← or_throw found alert_not_found
  modify (λ db. record db { alerts = erase id db.alerts })

-- The message of one alert, if its member is a trader.
abbrev pub price_alert_of : ℤ → Option Stock → Option Trader → Alert → List Event
price_alert_of price stock none a = []
price_alert_of price stock (some t) a =
    price_alert a.member_id t.email t.full_name a.ticker
      (get_or (Option.map (λ s. s.company_name) stock) a.ticker) a.target_price price a.direction
    ∷ []

unfoldable pub price_alerts : ℤ → Option Stock → Store Trader → Store Alert → List Event
price_alerts price stock traders [] = []
price_alerts price stock traders ((_, a) ∷ rest) =
    price_alert_of price stock (lookup a.member_id traders) a
    ++ price_alerts price stock traders rest

-- The open alerts of the stock that the price has reached.
unfoldable pub due : ℕ → ℤ → Store Alert → Store Alert
due stock price alerts = select (reached price) (select (is_open stock) alerts)

unfoldable pub check_alerts_for_stock : ℕ → ℤ → Db → Db
check_alerts_for_stock stock price db = elim (due stock price db.alerts) [
  | [] ↦ db
  | d ∷ ds ↦ record db {
    alerts = mark (ids_of (d ∷ ds)) db.alerts;
    events = db.events ++ price_alerts price (lookup stock db.stocks) db.traders (d ∷ ds);
  }
]

abbrev pub batch_size : ℕ
batch_size = 500

abbrev pub notification_chunk : ℕ
notification_chunk = 50

abbrev pub worker_alert_of : ℤ → String → ℕ × Alert → Event
worker_alert_of price ticker (id, a) =
    worker_alert a.member_id a.member_email a.member_name ticker a.target_price price a.direction id

-- The messages of the chunks, with as much fuel as there are alerts.
unfoldable pub emit_chunks : ℕ → ℤ → String → Store Alert → List Event
emit_chunks zero price ticker alerts = []
emit_chunks (suc fuel) price ticker alerts =
    map (worker_alert_of price ticker) (take notification_chunk alerts)
    ++ emit_chunks fuel price ticker (drop notification_chunk alerts)

-- What one batch does.
unfoldable pub trigger : ℤ → String → Store Alert → WorkerDb → WorkerDb
trigger price ticker batch db = elim (select (reached price) batch) [
  | [] ↦ db
  | d ∷ ds ↦ record db {
    alerts = mark (ids_of (d ∷ ds)) db.alerts;
    events = db.events ++ emit_chunks (length (d ∷ ds)) price ticker (d ∷ ds);
  }
]

abbrev pub batch_of : ℕ → ℕ → Store Alert → Store Alert
batch_of stock page alerts =
    take batch_size (drop (page * batch_size) (select (is_open stock) alerts))

-- `onPriceUpdated` from a page on; none is a loop that has run out of fuel.
unfoldable pub on_price_updated : ℕ → ℕ → ℕ → ℤ → String → WorkerDb → Option WorkerDb
on_price_updated zero page stock price ticker db = none
on_price_updated (suc fuel) page stock price ticker db =
    let batch = batch_of stock page db.alerts in
    let after = trigger price ticker batch db in
    let next = on_price_updated fuel (suc page) stock price ticker after in
    if ltb (length batch) batch_size then some after else next
