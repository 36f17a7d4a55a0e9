-- ===== src/Trading/Tests.antt =====
-- Orders of one member for one stock, at a wallet service that always pays and at one that never does.
use eurisko_final_proejct.Base.{
  ℕ, ◌+◌, ◌-◌, ◌≡◌, refl, none, some, true, [], ◌∷◌, ◌++◌, ok, err, arith, ◌/◌,
}
use eurisko_final_proejct.Base.Int.{ℤ, pos, pos_part, ◌+ℤ◌, ◌-ℤ◌, scale}
use eurisko_final_proejct.Base.Store.{lookup, erase}
use eurisko_final_proejct.Redis.{get}
use eurisko_final_proejct.Trading.Data.{
  nan, num, buying, selling, active, kyc_approved, Trader, Stock, Position, Db, insufficient_shares,
  Call, Failure, WalletApi,
}
use eurisko_final_proejct.Trading.Lock.{Pause}
use eurisko_final_proejct.Trading.Position.{is_of, find, take_shares}
use eurisko_final_proejct.Trading.Position.Laws.{AtMostOne}
use eurisko_final_proejct.Trading.Position.Holdings.{shares_of}
use eurisko_final_proejct.Trading.Order.{
  PlaceOrderDto, deduct_error, credit_error, rejected_order, executed_order, has_shares, profit_of,
  buy, sell,
}
use eurisko_final_proejct.Trading.Order.Outcomes.{placed, offered, trade}
use eurisko_final_proejct.Trading.Order.Buying.{MayTrade, Listed, buy_refused, buy_executed}
use eurisko_final_proejct.Trading.Order.Selling.{
  Stored, sell_short, sell_refused, sell_executed, sell_keeps_invested,
}

-- One balance for everybody.
abbrev paying : WalletApi ℤ
paying = record {
  deduct = λ member amount order w. elim amount [
    | nan ↦ (err (record { status = some 400; message = none }), w)
    | num a ↦ (ok (w -ℤ a), w -ℤ a)
  ];
  credit = λ member amount order w. elim amount [
    | nan ↦ (err (record { status = some 400; message = none }), w)
    | num a ↦ (ok (w +ℤ a), w +ℤ a)
  ];
}

abbrev poor : Failure
poor = record { status = some 400; message = some "Insufficient wallet balance" }

abbrev refusing : WalletApi ℤ
refusing = record {
  deduct = λ member amount order w. (err poor, w);
  credit = λ member amount order w. (err poor, w);
}

abbrev pub rounded_down : ℤ → ℕ → ℤ
rounded_down a n = pos (pos_part a / n)

abbrev pub nobody_else : {W : Type 0} → Pause W
nobody_else ms d = d

abbrev pub call : Call
call = record { now = 1000; lock_token = "token"; new_id = 4 }

abbrev pub trader : Trader
trader = record {
  full_name = "Member";
  email = "m@example.org";
  status = active;
  kyc_status = kyc_approved;
}

abbrev pub stock : Stock
stock = record {
  ticker = "ACME";
  company_name = "Acme";
  sector = "tech";
  current_price = pos 2_000_000;
  description = "";
  is_listed = true;
  price_history = [];
}

abbrev pub position : Position
position = record {
  member_id = 7;
  stock_id = 1;
  ticker = "ACME";
  company_name = "Acme";
  shares = 30;
  avg_buy_price = num (pos 1_000_000);
  total_invested = num (pos 30_000_000);
}

abbrev pub ten : PlaceOrderDto
ten = record { stock_id = 1; shares = 10 }

abbrev hundred : PlaceOrderDto
hundred = record { stock_id = 1; shares = 100 }

abbrev pub market : {W : Type 0} → W → Db W
market w = record {
  traders = (7, trader) ∷ [];
  stocks = (1, stock) ∷ [];
  orders = [];
  positions = position ∷ [];
  locks = [];
  stock_cache = [];
  portfolio_cache = [];
  catalogue_cache = none;
  events = [];
  wallet = w;
}

abbrev pub day : Db ℤ
day = market (pos 50_000_000)

pub market-MayTrade : {W : Type 0} (w : W) → MayTrade (market w) 7 trader
unfolding lookup
market-MayTrade w = record { known = refl; is_active = refl; approved = refl }

pub market-Listed : {W : Type 0} (w : W) → Listed (market w) 1 stock
unfolding lookup
market-Listed w = record { uncached = refl; stored = refl; listed = refl }

pub market-Stored : {W : Type 0} (w : W) → Stored (market w) 1 stock
unfolding lookup
market-Stored w = record { uncached = refl; stored = refl }

pub lock_free : {W : Type 0} (w : W) → get 1000 7 (market w).locks ≡ none
unfolding get lookup
lock_free w = refl

pub one_position : {W : Type 0} (w : W) → AtMostOne (is_of 7 1) (market w).positions
unfolding AtMostOne find
one_position w = ((λ e. refl), tt)

enough_held : find (has_shares 7 ten) day.positions ≡ some position
unfolding find
enough_held = refl

too_few_held : find (has_shares 7 hundred) day.positions ≡ none
unfolding find
too_few_held = refl

buy_refused_run :
    let (r, after) = buy refusing rounded_down 10_000 nobody_else call 7 ten day in
    (r ≡ err (deduct_error poor))
    × (after.wallet ≡ pos 50_000_000)
    × (after.positions ≡ day.positions)
    × (lookup 4 after.orders
        ≡ some (
            rejected_order
              (deduct_error poor)
              (placed refusing rounded_down 7 ten trader stock (num (pos 2_000_000)) call day)))
    × (after.events ≡ [])
    × (after.portfolio_cache ≡ [])
    × (get 1000 7 after.locks ≡ none)
buy_refused_run =
    buy_refused refusing rounded_down 10_000 nobody_else call 7 ten day trader stock
      (market-MayTrade (pos 50_000_000)) (market-Listed (pos 50_000_000))
      (lock_free (pos 50_000_000)) refl

buy_executed_run :
    let (r, after) = buy paying rounded_down 10_000 nobody_else call 7 ten day in
    let done =
      executed_order call
        (placed paying rounded_down 7 ten trader stock (num (pos 2_000_000)) call day) in
    (r ≡ ok (some done))
    × (after.wallet ≡ pos 50_000_000 -ℤ scale 10 (pos 2_000_000))
    × (shares_of 7 1 after.positions ≡ shares_of 7 1 day.positions + 10)
    × (lookup 4 after.orders ≡ some done)
    × (after.events
        ≡ []
          ++ trade paying rounded_down 7 ten trader stock (num (pos 2_000_000)) call day buying none
            ∷ [])
    × (after.portfolio_cache ≡ erase 7 [])
    × (get 1000 7 after.locks ≡ none)
buy_executed_run =
    buy_executed paying rounded_down 10_000 nobody_else call 7 ten day trader stock
      (market-MayTrade (pos 50_000_000)) (market-Listed (pos 50_000_000))
      (lock_free (pos 50_000_000)) (one_position (pos 50_000_000)) refl

sell_short_run :
    let (r, after) = sell paying 10_000 nobody_else call 7 hundred day in
    (r ≡ err insufficient_shares)
    × (after.orders ≡ [])
    × (after.positions ≡ day.positions)
    × (after.wallet ≡ pos 50_000_000)
    × (after.events ≡ [])
    × (get 1000 7 after.locks ≡ none)
sell_short_run =
    sell_short paying rounded_down 10_000 nobody_else call 7 hundred day trader stock
      (market-MayTrade (pos 50_000_000)) (market-Stored (pos 50_000_000))
      (lock_free (pos 50_000_000)) too_few_held

sell_refused_example :
    let (r, after) = sell refusing 10_000 nobody_else call 7 ten day in
    (r ≡ err (credit_error poor))
    × (after.wallet ≡ pos 50_000_000)
    × (after.positions ≡ day.positions)
    × (lookup 4 after.orders
        ≡ some (
            rejected_order (credit_error poor) (
              offered refusing rounded_down 7 ten trader stock
                (num (pos 2_000_000))
                call
                day
                (take_shares 10 position))))
    × (after.events ≡ [])
    × (get 1000 7 after.locks ≡ none)
sell_refused_example =
    sell_refused refusing rounded_down 10_000 nobody_else call 7 ten day trader stock
      (market-MayTrade (pos 50_000_000)) (market-Stored (pos 50_000_000))
      (lock_free (pos 50_000_000)) (one_position (pos 50_000_000)) enough_held refl

sell_executed_run :
    let (r, after) = sell paying 10_000 nobody_else call 7 ten day in
    let left = take_shares 10 position in
    let done =
      executed_order call
        (offered paying rounded_down 7 ten trader stock (num (pos 2_000_000)) call day left) in
    (r ≡ ok (some done))
    × (after.wallet ≡ pos 50_000_000 +ℤ scale 10 (pos 2_000_000))
    × (shares_of 7 1 after.positions ≡ shares_of 7 1 day.positions - 10)
    × (lookup 4 after.orders ≡ some done)
    × (after.events
        ≡ []
          ++ trade paying rounded_down 7 ten trader stock
              (num (pos 2_000_000))
              call
              day
              selling
              (some (profit_of ten (num (pos 2_000_000)) left))
            ∷ [])
    × (get 1000 7 after.locks ≡ none)
sell_executed_run =
    sell_executed paying rounded_down 10_000 nobody_else call 7 ten day trader stock
      (market-MayTrade (pos 50_000_000)) (market-Stored (pos 50_000_000))
      (lock_free (pos 50_000_000)) (one_position (pos 50_000_000)) enough_held refl

sell_keeps_invested_example :
    find (is_of 7 1) (sell paying 10_000 nobody_else call 7 ten day).1.positions
    ≡ some (record position { shares = 30 - 10 })
sell_keeps_invested_example =
    sell_keeps_invested paying rounded_down 10_000 nobody_else call 7 ten day trader stock
      (market-MayTrade (pos 50_000_000)) (market-Stored (pos 50_000_000))
      (lock_free (pos 50_000_000)) (one_position (pos 50_000_000)) enough_held (omega arith) refl
