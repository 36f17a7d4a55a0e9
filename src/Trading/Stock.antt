-- ===== src/Trading/Stock.antt =====
-- apps/trading-service/src/modules/stock/stock.service.ts: the stocks, each read through a cache that holds
-- its JSON text. The entries of the cache are those that have not expired.
pub mod Coherence
pub mod Catalogue
use eurisko_final_proejct.Base.{
  ℕ, ◌+◌, ◌-◌, String, Option, none, some, Bool, true, false, List, [], ◌∷◌, ◌++◌, Action, ◌>>=◌,
  ◌>>◌, pure, throw, gets, modify, or_throw, throw_if, drop, length, if◌then◌else◌, ok, err,
}
use eurisko_final_proejct.Base.Int.{ℤ}
use eurisko_final_proejct.Base.Store.{lookup, insert, adjust, erase}
use eurisko_final_proejct.Trading.Data.{
  Number, nan, num, PriceHistoryEntry, Stock, Event, price_updated, Db, Error, stock_not_found,
  stock_not_available, Call,
}

abbrev pub price_history_max : ℕ
price_history_max = 365

-- `UpdateStockDto`; an empty company name or sector, which the code skips too, counts as none.
pub record UpdateStockDto : Type 0 where
  pub company_name : Option String
  pub sector : Option String
  pub description : Option String
  pub current_price : Option ℤ

abbrev pub or_old : {A : Type 0} → Option A → A → A
or_old none old = old
or_old (some a) old = a

-- `$push` with `$each: [entry]` and `$slice: -365`: the last 365 entries stay.
unfoldable pub pushed : PriceHistoryEntry → List PriceHistoryEntry → List PriceHistoryEntry
pushed entry history = let all = history ++ entry ∷ [] in drop (length all - price_history_max) all

abbrev pub new_history : Call → Option ℤ → List PriceHistoryEntry → List PriceHistoryEntry
new_history c none history = history
new_history c (some p) history = pushed (record { price = p; recorded_at = c.now }) history

abbrev pub updated_stock : Call → UpdateStockDto → Stock → Stock
updated_stock c dto s = record s {
  company_name = or_old dto.company_name s.company_name;
  sector = or_old dto.sector s.sector;
  description = or_old dto.description s.description;
  current_price = or_old dto.current_price s.current_price;
  price_history = new_history c dto.current_price s.price_history;
}

abbrev pub delisted : Stock → Stock
delisted s = record s { is_listed = false }

-- A stock as `findById` gives it. JSON turns a `Decimal128` into an object, which `toString` does not
-- print as a number.
pub record Reading : Type 0 where
  pub stock : Stock
  pub from_cache : Bool

-- `parseFloat(stock.currentPrice.toString())`
abbrev pub price_of : Reading → Number
price_of r = if r.from_cache then nan else num r.stock.current_price

module _ {W : Type 0} where
  unfoldable pub find_by_id : ℕ → Action (Db W) Error Reading
  find_by_id id db = elim (lookup id db.stock_cache) [
    | some s ↦ (ok (record { stock = s; from_cache = true }), db)
    | none ↦ elim (lookup id db.stocks) [
      | none ↦ (err stock_not_found, db)
      | some s ↦ (
        ok (record { stock = s; from_cache = false }),
        record db { stock_cache = insert id s db.stock_cache },
      )
    ]
  ]

  unfoldable pub find_listed_by_id : ℕ → Action (Db W) Error Reading
  find_listed_by_id id = do
    reading ← find_by_id id
    throw_if (if reading.stock.is_listed then false else true) stock_not_available
    pure reading

  -- `cacheService.del` of the stock and of the catalogue.
  abbrev pub invalidate : ℕ → Action (Db W) Error (Unit {0})
  invalidate id =
      modify (λ db. record db { stock_cache = erase id db.stock_cache; catalogue_cache = none })

  -- `findByIdAndUpdate(id, ..., { new: true })`
  unfoldable pub find_by_id_and_update : ℕ → (Stock → Stock) → Action (Db W) Error (Option Stock)
  find_by_id_and_update id f db = elim (lookup id db.stocks) [
    | none ↦ (ok none, db)
    | some s ↦ (ok (some (f s)), record db { stocks = adjust id f db.stocks })
  ]

  abbrev pub emit_price : ℕ → Stock → Option ℤ → Action (Db W) Error (Unit {0})
  emit_price id s none = pure tt
  emit_price id s (some p) =
      modify (λ db. record db { events = db.events ++ price_updated id s.ticker p ∷ [] })

  unfoldable pub update : Call → ℕ → UpdateStockDto → Action (Db W) Error Stock
  update c id dto = do
    found ← find_by_id_and_update id (updated_stock c dto)
    stock ← or_throw found stock_not_found
    invalidate id
    emit_price id stock dto.current_price
    pure stock

  unfoldable pub delist : ℕ → Action (Db W) Error Stock
  delist id = do
    found ← find_by_id_and_update id delisted
    stock ← or_throw found stock_not_found
    invalidate id
    pure stock
