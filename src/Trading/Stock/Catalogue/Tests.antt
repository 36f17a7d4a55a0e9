-- ===== src/Trading/Stock/Catalogue/Tests.antt =====
-- Two stocks, one of them taken off the list, and the catalogue in pages.
use eurisko_final_proejct.Base.{
  ◌≡◌, refl, Bool, false, String, none, some, ok, err, [], ◌∷◌, arith, inl,
}
use eurisko_final_proejct.Base.Int.{ℤ, pos}
use eurisko_final_proejct.Base.Store.{Store, lookup, insert, adjust}
use eurisko_final_proejct.Pages.{page_items}
use eurisko_final_proejct.Trading.Data.{Stock, Db, ticker_exists}
use eurisko_final_proejct.Trading.Tests.{call, day}
use eurisko_final_proejct.Trading.Stock.{find_by_id_and_update, delist}
use eurisko_final_proejct.Trading.Stock.Catalogue.{
  CreateStockDto, uses_cache, catalogue, find_all, create, without_history, listed_stock,
}
use eurisko_final_proejct.Trading.Stock.Catalogue.Fresh.{
  first_page, Kept, listed, created, taken_off, done, more, Steps-Kept, find_all_other_limit,
}

-- A store that is in the order of the names, a search that matches nothing, tickers as they are.
abbrev by_name : Store Stock → Store Stock
by_name stocks = stocks

abbrev no_match : String → String → Bool
no_match words name = false

abbrev as_given : String → String
as_given ticker = ticker

abbrev beta : CreateStockDto
beta = record {
  ticker = "BETA";
  company_name = "Beta";
  sector = "Tech";
  current_price = pos 7_000_000;
  description = none;
}

-- The same ticker twice.
again : (create as_given call beta (create as_given call beta day).1).0 ≡ err ticker_exists
unfolding create insert
again = refl

-- The catalogue is read, a stock is created and another one is taken off the list.
abbrev read_day : Db ℤ
read_day = (find_all by_name no_match (first_page none) day).1

abbrev grown_day : Db ℤ
grown_day = (create as_given call beta read_day).1

abbrev last_day : Db ℤ
last_day = (delist 1 grown_day).1

only_beta :
    (find_all by_name no_match (first_page none) last_day).0
    ≡ ok (record { stocks = without_history (4, listed_stock as_given call beta) ∷ []; total = 1 })
unfolding find_all uses_cache create delist find_by_id_and_update lookup adjust insert catalogue
    page_items
only_beta = refl

id_free : lookup 4 read_day.stocks ≡ none
unfolding lookup find_all uses_cache
id_free = refl

day-Kept : Kept by_name no_match as_given day
unfolding lookup
day-Kept = (λ id s e. absurd (ground (arith, e)), inl refl)

Steps-Kept_example : Kept by_name no_match as_given last_day
Steps-Kept_example =
    Steps-Kept by_name no_match as_given
      (more (listed (first_page none) day)
        (more (created call beta read_day id_free) (more (taken_off 1 grown_day) (done last_day))))
      day-Kept

find_all_other_limit_example :
    let (answer, after) = find_all by_name no_match (first_page (some 1)) day in
    find_all by_name no_match (first_page (some 50)) after ≡ (answer, after)
unfolding uses_cache
find_all_other_limit_example =
    find_all_other_limit by_name no_match as_given day (first_page (some 1)) (first_page (some 50))
      refl refl refl
