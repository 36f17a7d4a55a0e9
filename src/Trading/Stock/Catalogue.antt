-- ===== src/Trading/Stock/Catalogue.antt =====
-- `create`, `findAll` and `getPriceHistory` of apps/trading-service/src/modules/stock/stock.service.ts. How
-- the database sorts by the company's name, how it matches a pattern, and `toUpperCase` are parameters.
pub mod Fresh
pub mod Tests
use text.Mathlib.Text.{◌==◌ as str_eq}
use mathlib.Core.Option.{get_or}
use eurisko_final_proejct.Base.{
  ℕ, ◌-◌, String, Option, none, some, Bool, true, false, ◌&&◌, ◌||◌, not, is_some, List, [], ◌∷◌,
  Action, ◌>>=◌, ◌>>◌, pure, throw, gets, modify, or_throw, throw_if, leb, ◌==◌, length, select,
  map, if◌then◌else◌, ok, err,
}
use eurisko_final_proejct.Base.Int.{ℤ}
use eurisko_final_proejct.Base.Store.{Store, lookup, insert}
use eurisko_final_proejct.Pages.{if_given, page_items}
use eurisko_final_proejct.Trading.Data.{
  PriceHistoryEntry, Stock, Catalogue, Db, Error, stock_not_found, ticker_exists, Call,
}

pub record CreateStockDto : Type 0 where
  pub ticker : String
  pub company_name : String
  pub sector : String
  pub current_price : ℤ
  pub description : Option String

-- `StockQueryDto`; an empty text, which the code skips too, counts as none. The page and the limit are
-- at least 1.
pub record StockQuery : Type 0 where
  pub sector : Option String
  pub search : Option String
  pub page : Option ℕ
  pub limit : Option ℕ

abbrev pub has_ticker : String → Store Stock → Bool
has_ticker ticker [] = false
has_ticker ticker ((_, s) ∷ rest) = str_eq s.ticker ticker || has_ticker ticker rest

-- The document that `create` stores.
abbrev pub listed_stock : (String → String) → Call → CreateStockDto → Stock
listed_stock upper c dto = record {
  ticker = upper dto.ticker;
  company_name = dto.company_name;
  sector = dto.sector;
  current_price = dto.current_price;
  description = get_or dto.description "";
  is_listed = true;
  price_history = record { price = dto.current_price; recorded_at = c.now } ∷ [];
}

abbrev pub is_page_one : Option ℕ → Bool
is_page_one none = false
is_page_one (some p) = p == 1

-- `cacheKey` is the catalogue's.
unfoldable pub uses_cache : StockQuery → Bool
uses_cache q = is_page_one q.page && (not (is_some q.search) && not (is_some q.sector))

-- `{ isListed: true }`, with the sector and the search if they are given.
abbrev pub in_catalogue : (String → String → Bool) → StockQuery → ℕ × Stock → Bool
in_catalogue text q (_, s) =
    s.is_listed
    && (if_given q.sector (str_eq s.sector)
        && if_given q.search (λ words. text words s.company_name || text words s.ticker))

-- The projection `{ priceHistory: 0 }`.
abbrev pub without_history : ℕ × Stock → ℕ × Stock
without_history (id, s) = (id, record s { price_history = [] })

module _ (by_name : Store Stock → Store Stock) (text : String → String → Bool) where
  -- `{ data, total }`, from the database.
  unfoldable pub catalogue : StockQuery → Store Stock → Catalogue
  catalogue q stocks = record {
    stocks =
        map without_history
          (page_items by_name (in_catalogue text q) (get_or q.page 1) (get_or q.limit 20) stocks);
    total = length (select (in_catalogue text q) stocks);
  }

  abbrev pub answered : {W : Type 0} → Option Catalogue → StockQuery → Action (Db W) Error Catalogue
  answered (some cached) q db = (ok cached, db)
  answered none q db =
      let result = catalogue q db.stocks in (ok result, record db { catalogue_cache = some result })

  unfoldable pub find_all : {W : Type 0} → StockQuery → Action (Db W) Error Catalogue
  find_all q db =
      if uses_cache q then answered db.catalogue_cache q db else (ok (catalogue q db.stocks), db)

abbrev pub recorded_from : Option ℕ → List PriceHistoryEntry → List PriceHistoryEntry
recorded_from date = select (λ h. if_given date (λ d. leb d h.recorded_at))

abbrev pub recorded_to : Option ℕ → List PriceHistoryEntry → List PriceHistoryEntry
recorded_to date = select (λ h. if_given date (λ d. leb h.recorded_at d))

module _ {W : Type 0} where
  unfoldable pub create : (String → String) → Call → CreateStockDto → Action (Db W) Error Stock
  create upper c dto = do
    exists ← gets (λ db. has_ticker (upper dto.ticker) db.stocks)
    throw_if exists ticker_exists
    modify (λ db. record db { stocks = insert c.new_id (listed_stock upper c dto) db.stocks })
    modify (λ db. record db { catalogue_cache = none })
    pure (listed_stock upper c dto)

  unfoldable pub get_price_history :
      ℕ → Option ℕ → Option ℕ → Action (Db W) Error (List PriceHistoryEntry)
  get_price_history id from to = do
    found ← gets (λ db. lookup id db.stocks)
    stock ← or_throw found stock_not_found
    pure (recorded_to to (recorded_from from stock.price_history))
