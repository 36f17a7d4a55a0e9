-- ===== src/Trading/Position.antt =====
-- The positions collection (apps/trading-service/src/database/schemas/position.schema.ts), and
-- `upsertPosition` of modules/order/order.service.ts. The quotient of the average price is a parameter:
-- it is the platform's division, rounded.
pub mod Laws
pub mod Holdings
use eurisko_final_proejct.Base.{
  ℕ, ◌+◌, ◌-◌, String, Bool, true, false, ◌&&◌, Option, none, some, List, [], ◌∷◌, ◌++◌, ok, Action,
  gets, modify, ◌>>=◌, ◌==◌, leb, if◌then◌else◌, ◌≡◌, arith,
}
use eurisko_final_proejct.Base.Int.{ℤ}
use eurisko_final_proejct.Trading.Data.{Number, nan, num, times, plus, Position, Db, Error}

-- `{ memberId, stockId }`
abbrev pub is_of : ℕ → ℕ → Position → Bool
is_of member stock p = p.member_id == member && p.stock_id == stock

-- `findOne`
unfoldable pub find : (Position → Bool) → List Position → Option Position
find q [] = none
find q (p ∷ ps) = let rest = find q ps in if q p then some p else rest

-- The update part of `findOneAndUpdate`: the first document that the query finds.
unfoldable pub update_first :
    (Position → Bool) → (Position → Position) → List Position → List Position
update_first q f [] = []
update_first q f (p ∷ ps) = let rest = update_first q f ps in if q p then f p ∷ ps else p ∷ rest

-- `deleteOne`
unfoldable pub delete_first : (Position → Bool) → List Position → List Position
delete_first q [] = []
delete_first q (p ∷ ps) = let rest = delete_first q ps in if q p then ps else p ∷ rest

-- `$inc: { shares }`, with a positive and with a negative number.
abbrev pub add_shares : ℕ → Position → Position
add_shares n p = record p { shares = p.shares + n }

abbrev pub take_shares : ℕ → Position → Position
take_shares n p = record p { shares = p.shares - n }

-- A quotient of the grid.
abbrev pub over : (ℤ → ℕ → ℤ) → Number → ℕ → Number
over divide nan n = nan
over divide (num a) n = num (divide a n)

abbrev pub new_position : ℕ → ℕ → String → String → ℕ → Number → Position
new_position member stock ticker company shares price = record {
  member_id = member;
  stock_id = stock;
  ticker = ticker;
  company_name = company;
  shares = shares;
  avg_buy_price = price;
  total_invested = times shares price;
}

-- `$inc` of the shares, `$set` of the two prices computed from the document that was read.
abbrev pub bought : (ℤ → ℕ → ℤ) → Position → ℕ → Number → Position → Position
bought divide existing shares price p =
    let new_total = plus existing.total_invested (times shares price) in
    record p {
      shares = p.shares + shares;
      avg_buy_price = over divide new_total (existing.shares + shares);
      total_invested = new_total;
    }

unfoldable pub upsert :
    (ℤ → ℕ → ℤ) → ℕ → ℕ → String → String → ℕ → Number → List Position → List Position
upsert divide member stock ticker company shares price ps = elim (find (is_of member stock) ps) [
  | none ↦ ps ++ new_position member stock ticker company shares price ∷ []
  | some existing ↦ update_first (is_of member stock) (bought divide existing shares price) ps
]

abbrev pub upsert_position :
    {W : Type 0}
    → (ℤ → ℕ → ℤ)
    → ℕ
    → ℕ
    → String
    → String
    → ℕ
    → Number
    → Action (Db W) Error (Unit {0})
upsert_position divide member stock ticker company shares price = modify (λ db. record db {
  positions = upsert divide member stock ticker company shares price db.positions;
})
