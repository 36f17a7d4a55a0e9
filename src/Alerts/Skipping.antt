-- ===== src/Alerts/Skipping.antt =====
-- The worker pages over a query that shrinks as it marks: what it never reaches.
use eurisko_final_proejct.Base.{
  ℕ, suc, ◌≤◌, String, ◌≡◌, refl, true, false, some, List, [], ◌∷◌, ◌++◌, map, All, select, length,
  take, drop, drop_of_length_le, arith, ap, ◌∙◌, sym,
}
use eurisko_final_proejct.Base.Int.{ℤ}
use eurisko_final_proejct.Base.Store.{Store}
use eurisko_final_proejct.Alerts.{
  Alert, WorkerDb, reached, is_open, has_id, mark, ids_of, trigger, batch_of, batch_size,
  worker_alert_of, on_price_updated,
}
use eurisko_final_proejct.Alerts.Marking.{unmarked, select-mark}
use eurisko_final_proejct.Alerts.Rounds.{
  trigger-none, trigger_all, on_price_updated-last, on_price_updated-next,
}

abbrev pub Among : List ℕ → Store Alert → Type 0
Among ids = All (λ d. has_id ids d.0 ≡ true)

abbrev pub Apart : List ℕ → Store Alert → Type 0
Apart ids = All (λ d. has_id ids d.0 ≡ false)

Among-cons : (j : ℕ) (ids : List ℕ) (docs : Store Alert) → Among ids docs → Among (j ∷ ids) docs
Among-cons j ids [] all = tt
Among-cons j ids (d ∷ docs) (here, rest) = (ground (arith, here), Among-cons j ids docs rest)

Among-own : (docs : Store Alert) → Among (ids_of docs) docs
Among-own [] = tt
Among-own (d ∷ docs) = (ground arith, Among-cons d.0 (ids_of docs) docs (Among-own docs))

select-Among :
    (ids : List ℕ) (docs rest : Store Alert)
    → Among ids docs
    → select (unmarked ids) (docs ++ rest) ≡ select (unmarked ids) rest
select-Among ids [] rest all = refl
select-Among ids (d ∷ docs) rest (here, others) =
    ground (arith, here, select-Among ids docs rest others)

select-Apart :
    (ids : List ℕ) (docs : Store Alert) → Apart ids docs → select (unmarked ids) docs ≡ docs
select-Apart ids [] all = refl
select-Apart ids (d ∷ docs) (here, others) = ground (arith, here, select-Apart ids docs others)

take-append : {A : Type 0} (xs ys : List A) → take (length xs) (xs ++ ys) ≡ xs
take-append [] ys = refl
take-append (x ∷ xs) ys = ap (λ l. x ∷ l) (take-append xs ys)

-- If a stock has 500 open alerts that the price has reached, and then up to 500 more with other ids, the
-- worker triggers the 500, skips as many among the ones that are left, finds none and ends: the others
-- stay open and nobody is told of them, even where the price has reached them too.
pub on_price_updated_skips :
    (fuel stock : ℕ) (price : ℤ) (ticker : String) (db : WorkerDb) (first rest : Store Alert)
    → select (is_open stock) db.alerts ≡ first ++ rest
    → length first ≡ batch_size
    → length rest ≤ batch_size
    → select (reached price) first ≡ first
    → Apart (ids_of first) rest
    → (after : WorkerDb) × (on_price_updated (suc (suc fuel)) 0 stock price ticker db ≡ some after)
      × (select (is_open stock) after.alerts ≡ rest)
      × (after.events ≡ db.events ++ map (worker_alert_of price ticker) first)
on_price_updated_skips fuel stock price ticker db first rest found full few all_due apart =
    let batch : batch_of stock 0 db.alerts ≡ first =
      ap (take batch_size) found
      ∙ ap (λ n. take n (first ++ rest)) (sym full)
      ∙ take-append first rest in
    let after = trigger price ticker first db in
    let (marked, told) = trigger_all price ticker first db in
    let left : select (is_open stock) after.alerts ≡ rest =
      ap (select (is_open stock)) (marked ∙ ap (λ l. mark (ids_of l) db.alerts) all_due)
      ∙ select-mark stock (ids_of first) db.alerts
      ∙ ap (select (unmarked (ids_of first))) found
      ∙ select-Among (ids_of first) first rest (Among-own first)
      ∙ select-Apart (ids_of first) rest apart in
    let second : batch_of stock 1 after.alerts ≡ [] =
      ap (λ l. take batch_size (drop batch_size l)) left
      ∙ ap (take batch_size) (drop_of_length_le batch_size rest few) in
    let first_round : on_price_updated (suc (suc fuel)) 0 stock price ticker db
        ≡ on_price_updated (suc fuel) 1 stock price ticker after =
      on_price_updated-next price ticker (suc fuel) 0 stock db
        (omega (arith, ap length batch, full))
      ∙ ap (λ b. on_price_updated (suc fuel) 1 stock price ticker (trigger price ticker b db))
          batch in
    let second_round : on_price_updated (suc fuel) 1 stock price ticker after ≡ some after =
      on_price_updated-last price ticker fuel 1 stock after (omega (arith, ap length second))
      ∙ ap (λ b. some (trigger price ticker b after)) second
      ∙ ap (λ d. some d) (trigger-none price ticker [] after refl) in
    (
      after,
      first_round ∙ second_round,
      left,
      told ∙ ap (λ l. db.events ++ map (worker_alert_of price ticker) l) all_due,
    )
