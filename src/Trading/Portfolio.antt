-- ===== src/Trading/Portfolio.antt =====
-- apps/trading-service/src/modules/position/position.service.ts, with `toFloat` of common/utils. Amounts
-- are integers of the grid; what the platform rounds, `toFixed(2)` and the percentage, is a parameter.
-- The stocks are fetched one after another.
pub mod Valued
pub mod Tests
use eurisko_final_proejct.Base.{
  ℕ, Option, none, some, Bool, true, false, ◌&&◌, List, [], ◌∷◌, Result, ok, err, Action, ◌>>=◌,
  ◌>>◌, pure, throw, gets, modify, or_throw, ltb, ◌==◌, select, if◌then◌else◌,
}
use eurisko_final_proejct.Base.Int.{ℤ, pos, ◌+ℤ◌, ◌-ℤ◌, scale, leb_ℤ}
use eurisko_final_proejct.Base.Store.{lookup, insert}
use eurisko_final_proejct.Trading.Data.{
  Number, nan, num, Stock, Position, PortfolioPosition, PortfolioSummary, Db, Error,
  position_not_found,
}
use eurisko_final_proejct.Trading.Stock.{Reading, find_by_id}
use eurisko_final_proejct.Trading.Position.{is_of, find}

-- `toFloat`, which also reads a Decimal128 that went through JSON: 0 in place of NaN.
abbrev pub to_float : Number → ℤ
to_float nan = pos 0
to_float (num a) = a

-- `stock ? toFloat(stock.currentPrice) : 0`
abbrev pub price_or_zero : Option Stock → ℤ
price_or_zero none = pos 0
price_or_zero (some s) = s.current_price

abbrev pub sum_of : (PortfolioPosition → ℤ) → List PortfolioPosition → ℤ
sum_of f [] = pos 0
sum_of f (p ∷ ps) = f p +ℤ sum_of f ps

abbrev pub caught : Result Error Reading → Option Stock
caught (ok r) = some r.stock
caught (err e) = none

module _ {W : Type 0} where
  -- `stockService.findById(id).catch(() => null)`
  unfoldable pub find_or_null : ℕ → Action (Db W) Error (Option Stock)
  find_or_null id db = let (r, after) = find_by_id id db in (ok (caught r), after)

  unfoldable pub fetch_stocks : List Position → Action (Db W) Error (List (Option Stock))
  fetch_stocks [] = pure []
  fetch_stocks (p ∷ ps) = do
    stock ← find_or_null p.stock_id
    rest ← fetch_stocks ps
    pure (stock ∷ rest)

-- `round` is `parseFloat(x.toFixed(2))`, and `percent a b` is `(a / b) * 100`.
module _ (round : ℤ → ℤ) (percent : ℤ → ℤ → ℤ) where
  unfoldable pub position_value : Position → Option Stock → PortfolioPosition
  position_value p stock =
      let price = price_or_zero stock in
      let invested = to_float p.total_invested in
      let value = scale p.shares price in
      let gain = value -ℤ invested in
      record {
        stock_id = p.stock_id;
        ticker = p.ticker;
        company_name = p.company_name;
        shares = p.shares;
        avg_buy_price = to_float p.avg_buy_price;
        total_invested = invested;
        current_price = price;
        current_value = round value;
        unrealized_pnl = round gain;
        unrealized_pnl_percent =
            round (if leb_ℤ invested (pos 0) then pos 0 else percent gain invested);
      }

  -- `positions.map((pos, i) => ...)`, with `stocks[i]`.
  abbrev pub position_values : List Position → List (Option Stock) → List PortfolioPosition
  position_values [] stocks = []
  position_values (p ∷ ps) [] = position_value p none ∷ position_values ps []
  position_values (p ∷ ps) (s ∷ ss) = position_value p s ∷ position_values ps ss

  unfoldable pub summary_of : List PortfolioPosition → PortfolioSummary
  summary_of ps =
      let invested = sum_of (λ p. p.total_invested) ps in
      let value = sum_of (λ p. p.current_value) ps in
      record {
        positions = ps;
        total_invested = round invested;
        total_current_value = round value;
        total_unrealized_pnl = round (value -ℤ invested);
      }

  module _ {W : Type 0} where
    abbrev pub summarize : List Position → Action (Db W) Error PortfolioSummary
    summarize ps = do stocks ← fetch_stocks ps; pure (summary_of (position_values ps stocks))

    abbrev pub or_summarize : ℕ → Option PortfolioSummary → Action (Db W) Error PortfolioSummary
    or_summarize member (some cached) = pure cached
    or_summarize member none = do
      positions ← gets (λ db. select (λ p. p.member_id == member) db.positions)
      summary ← summarize positions
      modify (λ db. record db { portfolio_cache = insert member summary db.portfolio_cache })
      pure summary

    unfoldable pub get_portfolio : ℕ → Action (Db W) Error PortfolioSummary
    get_portfolio member = do
      cached ← gets (λ db. lookup member db.portfolio_cache)
      or_summarize member cached

    unfoldable pub get_portfolio_summary : ℕ → Action (Db W) Error PortfolioSummary
    get_portfolio_summary member = do
      positions ← gets (λ db. select (λ p. p.member_id == member && ltb 0 p.shares) db.positions)
      summarize positions

    unfoldable pub get_position : ℕ → ℕ → Action (Db W) Error PortfolioPosition
    get_position member stock_id = do
      found ← gets (λ db. find (is_of member stock_id) db.positions)
      position ← or_throw found position_not_found
      reading ← find_by_id stock_id
      pure (position_value position (some reading.stock))
