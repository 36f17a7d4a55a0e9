-- ===== src/Alerts/Batches.antt =====
-- The worker's loop ends, and a stock with fewer than 500 open alerts is handled as by the trading
-- service's routine.
use eurisko_final_proejct.Base.{
  ℕ, suc, ◌<◌, String, ◌≡◌, true, some, [], ◌++◌, map, select, length, length-select-le, arith, ap,
  ◌∙◌, is_some,
}
use eurisko_final_proejct.Base.Int.{ℤ}
use eurisko_final_proejct.Alerts.{
  WorkerDb, Db, mark, ids_of, is_open, due, trigger, batch_of, batch_size, worker_alert_of,
  on_price_updated, check_alerts_for_stock,
}
use eurisko_final_proejct.Alerts.Marking.{due-mark}
use eurisko_final_proejct.Alerts.Settled.{Distinct, settled, mark-settled}
use eurisko_final_proejct.Alerts.Rounds.{
  enough_from, take_all, check_marks, trigger_all, on_price_updated-last,
}

-- The loop ends: with one round for each alert and one more, it returns, from whatever state.
pub on_price_updated_total :
    (stock : ℕ) (price : ℤ) (ticker : String) (db : WorkerDb)
    → is_some (on_price_updated (suc (length db.alerts)) 0 stock price ticker db) ≡ true
on_price_updated_total stock price ticker db =
    enough_from price ticker (suc (length db.alerts)) 0 stock db (omega arith)
      (omega (arith, length-select-le (is_open stock) db.alerts))

-- With fewer than 500 open alerts of the stock, and no two alerts with the same id, the worker ends
-- after one batch: it marks exactly the open alerts that the price has reached, which are those that
-- the trading service's routine marks at the same price in a collection with the same alerts; it
-- tells the members of them, each once and in order; and no open alert is left that the price has
-- reached.
pub on_price_updated_agrees :
    (fuel stock : ℕ) (price : ℤ) (ticker : String) (db : WorkerDb) (service : Db)
    → service.alerts ≡ db.alerts
    → Distinct db.alerts
    → length (select (is_open stock) db.alerts) < batch_size
    → (after : WorkerDb) × (on_price_updated (suc fuel) 0 stock price ticker db ≡ some after)
      × (after.alerts ≡ map (settled stock price) db.alerts)
      × ((check_alerts_for_stock stock price service).alerts ≡ map (settled stock price) db.alerts)
      × (after.events ≡ db.events ++ map (worker_alert_of price ticker) (due stock price db.alerts))
      × (due stock price after.alerts ≡ [])
unfolding due
on_price_updated_agrees fuel stock price ticker db service alike distinct small =
    let found = select (is_open stock) db.alerts in
    let whole : batch_of stock 0 db.alerts ≡ found = take_all found small in
    let last : on_price_updated (suc fuel) 0 stock price ticker db
        ≡ some (trigger price ticker found db) =
      on_price_updated-last price ticker fuel 0 stock db (rw whole small)
      ∙ ap (λ b. some (trigger price ticker b db)) whole in
    let (marked, told) = trigger_all price ticker found db in
    let done = mark-settled stock price db.alerts distinct in
    (
      trigger price ticker found db,
      last,
      marked ∙ done,
      check_marks stock price service ∙ ap (λ l. mark (ids_of (due stock price l)) l) alike ∙ done,
      told,
      ap (due stock price) marked ∙ due-mark stock price db.alerts,
    )
