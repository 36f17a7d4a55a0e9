-- ===== src/Alerts/Tests.antt =====
-- Alerts of one stock: two of them, and 501 of them.
use eurisko_final_proejct.Base.{
  ℕ, zero, suc, ◌≤◌, ◌≡◌, refl, ap, false, true, some, [], ◌∷◌, ◌++◌, map, length, select, arith,
  is_some,
}
use eurisko_final_proejct.Base.Int.{pos}
use eurisko_final_proejct.Base.Store.{Store}
use eurisko_final_proejct.Alerts.{
  above, below, Alert, Db, WorkerDb, is_open, has_id, reached, ids_of, due, worker_alert_of,
  check_alerts_for_stock, on_price_updated,
}
use eurisko_final_proejct.Alerts.Once.{check_alerts_for_stock_once}
use eurisko_final_proejct.Alerts.Batches.{on_price_updated_total, on_price_updated_agrees}
use eurisko_final_proejct.Alerts.Skipping.{on_price_updated_skips}

abbrev alert : Alert
alert = record {
  member_id = 7;
  stock_id = 1;
  ticker = "ACME";
  target_price = pos 2_000_000;
  direction = above;
  triggered = false;
  member_email = "m@example.org";
  member_name = "Member";
}

abbrev two : Db
two = record {
  alerts = (1, alert) ∷ (2, record alert { direction = below }) ∷ [];
  traders = [];
  stocks = [];
  events = [];
}

-- The worker's collection, with the same alerts.
abbrev two_open : WorkerDb
two_open = record { alerts = two.alerts; events = [] }

first_due : due 1 (pos 3_000_000) two.alerts ≡ (1, alert) ∷ []
unfolding due
first_due = refl

check_alerts_for_stock_once_run :
    let after = check_alerts_for_stock 1 (pos 3_000_000) two in
    (due 1 (pos 3_000_000) after.alerts ≡ [])
    × (check_alerts_for_stock 1 (pos 3_000_000) after ≡ after)
check_alerts_for_stock_once_run = check_alerts_for_stock_once 1 (pos 3_000_000) two

on_price_updated_total_example :
    is_some (on_price_updated 3 0 1 (pos 3_000_000) "ACME" two_open) ≡ true
on_price_updated_total_example = on_price_updated_total 1 (pos 3_000_000) "ACME" two_open

on_price_updated_agrees_example :
    let hit = record alert { triggered = true } in
    let other = record alert { direction = below } in
    (after : WorkerDb) × (on_price_updated 1 0 1 (pos 3_000_000) "ACME" two_open ≡ some after)
    × (after.alerts ≡ (1, hit) ∷ (2, other) ∷ [])
    × ((check_alerts_for_stock 1 (pos 3_000_000) two).alerts ≡ (1, hit) ∷ (2, other) ∷ [])
    × (after.events ≡ map (worker_alert_of (pos 3_000_000) "ACME") ((1, alert) ∷ []))
    × (due 1 (pos 3_000_000) after.alerts ≡ [])
unfolding due
on_price_updated_agrees_example =
    on_price_updated_agrees 0 1 (pos 3_000_000) "ACME" two_open two refl ((refl, tt), (tt, tt))
      (omega arith)

-- So many alerts, with the ids below.
abbrev many : ℕ → Store Alert
many zero = []
many (suc n) = (n, alert) ∷ many n

abbrev last_alert : Store Alert
last_alert = (1_000, alert) ∷ []

abbrev crowd : ℕ → WorkerDb
crowd n = record { alerts = many n ++ last_alert; events = [] }

many_open : (n : ℕ) → select (is_open 1) (crowd n).alerts ≡ many n ++ last_alert
many_open zero = refl
many_open (suc n) = ap (λ l. (n, alert) ∷ l) (many_open n)

many_due : (n : ℕ) → select (reached (pos 3_000_000)) (many n) ≡ many n
many_due zero = refl
many_due (suc n) = ap (λ l. (n, alert) ∷ l) (many_due n)

length-many : (n : ℕ) → length (many n) ≡ n
length-many zero = refl
length-many (suc n) = ap suc (length-many n)

many_apart : (n : ℕ) → n ≤ 1_000 → has_id (ids_of (many n)) 1_000 ≡ false
many_apart zero le = refl
many_apart (suc n) le = ground (arith, many_apart n (omega arith))

on_price_updated_skips_example :
    (after : WorkerDb) × (on_price_updated 2 0 1 (pos 3_000_000) "ACME" (crowd 500) ≡ some after)
    × (select (is_open 1) after.alerts ≡ last_alert)
    × (after.events ≡ map (worker_alert_of (pos 3_000_000) "ACME") (many 500))
on_price_updated_skips_example =
    on_price_updated_skips 0 1 (pos 3_000_000) "ACME" (crowd 500) (many 500) last_alert
      (many_open 500) (length-many 500) (omega arith) (many_due 500)
      (many_apart 500 (omega arith), tt)
