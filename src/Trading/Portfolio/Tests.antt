-- ===== src/Trading/Portfolio/Tests.antt =====
-- The portfolio of a member with one position, at the price that the stock has now.
use eurisko_final_proejct.Base.{◌≡◌, refl, none, some, ok, err, [], ◌∷◌}
use eurisko_final_proejct.Base.Int.{ℤ, pos, scale, ◌+ℤ◌, ◌-ℤ◌}
use eurisko_final_proejct.Base.Store.{lookup}
use eurisko_final_proejct.Trading.Data.{position_not_found}
use eurisko_final_proejct.Trading.Tests.{stock, position, day}
use eurisko_final_proejct.Trading.Examples.{cached_day, cached_day-Coherent}
use eurisko_final_proejct.Trading.Position.{find}
use eurisko_final_proejct.Trading.Stock.{find_by_id}
use eurisko_final_proejct.Trading.Stock.Coherence.{Coherent}
use eurisko_final_proejct.Trading.Portfolio.{position_value, get_portfolio, get_position}
use eurisko_final_proejct.Trading.Portfolio.Valued.{get_portfolio-valued}

-- No rounding, and a percentage that is always 5.
abbrev exact : ℤ → ℤ
exact a = a

abbrev five : ℤ → ℤ → ℤ
five a b = pos 5

nothing_held : (get_position exact five 8 1 day).0 ≡ err position_not_found
unfolding get_position find
nothing_held = refl

one_position :
    (get_position exact five 7 1 day).0 ≡ ok (position_value exact five position (some stock))
unfolding get_position find find_by_id lookup
one_position = refl

none_cached : lookup 7 cached_day.portfolio_cache ≡ none
unfolding lookup
none_cached = refl

get_portfolio-valued_example :
    let (r, after) = get_portfolio exact five 7 cached_day in
    (r
      ≡ ok (record {
        positions =
            record {
              stock_id = 1;
              ticker = "ACME";
              company_name = "Acme";
              shares = 30;
              avg_buy_price = pos 1_000_000;
              total_invested = pos 30_000_000;
              current_price = pos 2_000_000;
              current_value = pos 60_000_000;
              unrealized_pnl = pos 30_000_000;
              unrealized_pnl_percent = pos 5;
            }
            ∷ [];
        total_invested = pos 30_000_000;
        total_current_value = pos 60_000_000;
        total_unrealized_pnl = pos 30_000_000;
      }))
    × (after.positions ≡ cached_day.positions)
    × (after.stocks ≡ cached_day.stocks)
    × Coherent after
    × (get_portfolio exact five 7 after ≡ (r, after))
unfolding lookup scale ◌+ℤ◌ ◌-ℤ◌
get_portfolio-valued_example =
    get_portfolio-valued exact five 7 cached_day cached_day-Coherent none_cached
