-- ===== src/Trading/Examples.antt =====
-- The member's lock in other hands, and a stock in the cache.
use eurisko_final_proejct.Base.{
  ℕ, ◌+◌, ◌≤◌, ◌≡◌, ◌≢◌, refl, Bool, none, some, [], ◌∷◌, ok, err, length, pure, Action,
}
use eurisko_final_proejct.Base.Int.{ℤ, pos}
use eurisko_final_proejct.Base.Store.{lookup}
use eurisko_final_proejct.Redis.{Entry, get}
use eurisko_final_proejct.Trading.Data.{Db, Error, operation_in_progress, Call}
use eurisko_final_proejct.Trading.Lock.{with_member_lock}
use eurisko_final_proejct.Trading.Lock.Exclusion.{
  with_member_lock-conflict, with_member_lock-released,
}
use eurisko_final_proejct.Trading.Stock.{
  UpdateStockDto, updated_stock, delisted, pushed, price_history_max, find_by_id, update, delist,
}
use eurisko_final_proejct.Trading.Stock.Coherence.{
  Coherent, announced, find_by_id-Coherent, update-Coherent, delist-Coherent, length-pushed,
}
use eurisko_final_proejct.Trading.Tests.{nobody_else, call, stock, day, lock_free}

-- Another call holds the lock until 9000.
abbrev other : Entry
other = record { value = "other"; expires_at = 9000 }

abbrev busy : Db ℤ
busy = record day { locks = (7, other) ∷ [] }

held_at : get 1000 7 busy.locks ≡ some other
unfolding get lookup
held_at = refl

held_after : get (1000 + 200) 7 busy.locks ≡ some other
unfolding get lookup
held_after = refl

held_still : get (1000 + 200 + 400) 7 busy.locks ≡ some other
unfolding get lookup
held_still = refl

abbrev answer_one : Call → Action (Db ℤ) Error ℕ
answer_one c = pure 1

with_member_lock-conflict_run :
    with_member_lock 10_000 nobody_else call 7 answer_one busy ≡ (err operation_in_progress, busy)
with_member_lock-conflict_run =
    with_member_lock-conflict 10_000 nobody_else call 7 answer_one busy held_at held_after
      held_still

with_member_lock-released_run :
    (get 1000 7 (with_member_lock 10_000 nobody_else call 7 answer_one day).1.locks ≡ none)
    × ((k : ℕ)
        → 7 ≢ k
        → lookup k (with_member_lock 10_000 nobody_else call 7 answer_one day).1.locks
          ≡ lookup k day.locks)
with_member_lock-released_run =
    with_member_lock-released 10_000 nobody_else call 7 answer_one day (lock_free (pos 50_000_000))
      refl

-- A day on which the stock is in the cache.
abbrev pub cached_day : Db ℤ
cached_day = record day { stock_cache = (1, stock) ∷ [] }

pub cached_day-Coherent : Coherent cached_day
cached_day-Coherent id s e = e

stock_there : lookup 1 cached_day.stocks ≡ some stock
unfolding lookup
stock_there = refl

abbrev new_price : UpdateStockDto
new_price = record {
  company_name = none;
  sector = none;
  description = none;
  current_price = some (pos 3_000_000);
}

find_by_id-Coherent_run :
    let (r, after) = find_by_id 1 cached_day in
    ((b : Bool) × (r ≡ ok (record { stock = stock; from_cache = b }))) × Coherent after
find_by_id-Coherent_run = find_by_id-Coherent 1 cached_day stock cached_day-Coherent stock_there

update-Coherent_run :
    let (r, after) = update call 1 new_price cached_day in
    (r ≡ ok (updated_stock call new_price stock))
    × (lookup 1 after.stocks ≡ some (updated_stock call new_price stock))
    × (lookup 1 after.stock_cache ≡ none)
    × (after.events ≡ announced 1 cached_day stock (some (pos 3_000_000)))
    × Coherent after
update-Coherent_run =
    update-Coherent 1 cached_day call new_price stock cached_day-Coherent stock_there

delist-Coherent_run :
    let (r, after) = delist 1 cached_day in
    (r ≡ ok (delisted stock))
    × (lookup 1 after.stocks ≡ some (delisted stock))
    × (lookup 1 after.stock_cache ≡ none)
    × Coherent after
delist-Coherent_run = delist-Coherent 1 cached_day stock cached_day-Coherent stock_there

length-pushed_run :
    length (pushed (record { price = pos 1; recorded_at = 5 }) []) ≤ price_history_max
length-pushed_run = length-pushed (record { price = pos 1; recorded_at = 5 }) []
