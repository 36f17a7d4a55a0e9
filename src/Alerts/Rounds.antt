-- ===== src/Alerts/Rounds.antt =====
-- One round of the worker: the batch, its messages, and what is left for the next.
use eurisko_final_proejct.Base.{
  ℕ, zero, suc, ◌+◌, ◌*◌, ◌≤◌, ◌<◌, String, ◌≡◌, refl, true, false, some, List, [], ◌∷◌, ◌++◌, map,
  select, length, take, drop, length-drop, append_nil, take-append-drop, arith, inl, inr,
  Bool-cases, ap, ◌∙◌, sym, ltb, is_some,
}
use eurisko_final_proejct.Base.Int.{ℤ}
use eurisko_final_proejct.Base.Store.{Store}
use eurisko_final_proejct.Alerts.{
  Alert, Db, WorkerDb, reached, is_open, mark, ids_of, due, trigger, batch_of, batch_size,
  emit_chunks, worker_alert_of, on_price_updated, check_alerts_for_stock, notification_chunk,
}
use eurisko_final_proejct.Alerts.Marking.{length-mark_le}
use eurisko_final_proejct.Alerts.Once.{List-cases, check-none, check-some}

ltb-true : (a b : ℕ) → a < b → ltb a b ≡ true
ltb-true a b lt = ground (arith, lt)

ltb-false : (a b : ℕ) → b ≤ a → ltb a b ≡ false
ltb-false a b le = ground (arith, le)

lt_of : (a b : ℕ) → ltb a b ≡ true → a < b
lt_of a b e = ground (arith, e)

le_of : (a b : ℕ) → ltb a b ≡ false → b ≤ a
le_of a b e = ground (arith, e)

module _ {A : Type 0} where
  length-take : (n : ℕ) (xs : List A) → n ≤ length xs → length (take n xs) ≡ n
  length-take zero xs le = refl
  length-take (suc n) [] le = absurd (omega arith)
  length-take (suc n) (x ∷ xs) le = ap suc (length-take n xs (omega arith))

  length-take_lt : (n : ℕ) (xs : List A) → length (take n xs) < n → take n xs ≡ xs
  length-take_lt zero xs lt = absurd (omega arith)
  length-take_lt (suc n) [] lt = refl
  length-take_lt (suc n) (x ∷ xs) lt = ap (λ l. x ∷ l) (length-take_lt n xs (omega arith))

  length-take_le : (n : ℕ) (xs : List A) → length (take n xs) ≤ length xs
  length-take_le zero xs = omega arith
  length-take_le (suc n) [] = omega arith
  length-take_le (suc n) (x ∷ xs) = omega (arith, length-take_le n xs)

pub take_all : (found : Store Alert) → length found < batch_size → take batch_size found ≡ found
take_all found small =
    length-take_lt batch_size found (omega (arith, length-take_le batch_size found, small))

mark_nil : (alerts : Store Alert) → mark [] alerts ≡ alerts
unfolding mark
mark_nil [] = refl
mark_nil ((id, a) ∷ rest) = ap (λ l. (id, a) ∷ l) (mark_nil rest)

pub check_marks :
    (stock : ℕ) (price : ℤ) (db : Db)
    → (check_alerts_for_stock stock price db).alerts
      ≡ mark (ids_of (due stock price db.alerts)) db.alerts
check_marks stock price db = elim (List-cases (due stock price db.alerts)) [
  | inl empty ↦ rw (check-none stock price db empty, empty) (sym (mark_nil db.alerts))
  | inr (d, ds, found) ↦ rw (check-some stock price db found, found) refl
]

module _ (price : ℤ) (ticker : String) where
  pub trigger-none :
      (batch : Store Alert) (db : WorkerDb)
      → select (reached price) batch ≡ []
      → trigger price ticker batch db ≡ db
  unfolding trigger
  trigger-none batch db e = rw (e, trigger) refl

  trigger-some :
      (batch : Store Alert) (db : WorkerDb) {d : ℕ × Alert} {ds : Store Alert}
      → select (reached price) batch ≡ d ∷ ds
      → trigger price ticker batch db ≡ record db {
        alerts = mark (ids_of (d ∷ ds)) db.alerts;
        events = db.events ++ emit_chunks (length (d ∷ ds)) price ticker (d ∷ ds);
      }
  unfolding trigger
  trigger-some batch db e = rw (e, trigger) refl

  trigger_open :
      (stock : ℕ) (batch : Store Alert) (db : WorkerDb)
      → length (select (is_open stock) (trigger price ticker batch db).alerts)
        ≤ length (select (is_open stock) db.alerts)
  trigger_open stock batch db = elim (List-cases (select (reached price) batch)) [
    | inl empty ↦ rw (trigger-none batch db empty) (omega arith)
    | inr (d, ds, found) ↦
        rw (trigger-some batch db found) (length-mark_le stock (ids_of (d ∷ ds)) db.alerts)
  ]

  module _ (fuel page stock : ℕ) (db : WorkerDb) where
    pub on_price_updated-last :
        length (batch_of stock page db.alerts) < batch_size
        → on_price_updated (suc fuel) page stock price ticker db
          ≡ some (trigger price ticker (batch_of stock page db.alerts) db)
    unfolding on_price_updated
    on_price_updated-last small = rw (ltb-true _ batch_size small) refl

    pub on_price_updated-next :
        batch_size ≤ length (batch_of stock page db.alerts)
        → on_price_updated (suc fuel) page stock price ticker db
          ≡ on_price_updated fuel
              (suc page)
              stock
              price
              ticker
              (trigger price ticker (batch_of stock page db.alerts) db)
    unfolding on_price_updated
    on_price_updated-next full = rw (ltb-false _ batch_size full) refl

  -- Enough fuel for the open alerts that there are from a page on.
  pub enough_from :
      (fuel page stock : ℕ) (db : WorkerDb)
      → 1 ≤ fuel
      → length (select (is_open stock) db.alerts) < (fuel + page) * batch_size
      → is_some (on_price_updated fuel page stock price ticker db) ≡ true
  enough_from zero page stock db pos bound = absurd (omega arith)
  enough_from (suc fuel) page stock db pos bound =
      let rest = drop (page * batch_size) (select (is_open stock) db.alerts) in
      elim (Bool-cases (ltb (length (batch_of stock page db.alerts)) batch_size)) [
        | inl small ↦ rw (on_price_updated-last fuel page stock db (lt_of _ batch_size small)) refl
        | inr full ↦
            let enough_left = length-drop (page * batch_size) (select (is_open stock) db.alerts) in
            let taken = length-take_le batch_size rest in
            let le = le_of _ batch_size full in
            let kept = trigger_open stock (batch_of stock page db.alerts) db in
            rw (on_price_updated-next fuel page stock db le) (
              enough_from fuel (suc page) stock _ (omega (arith, enough_left, taken, le, bound))
                (omega (arith, kept, bound)))
      ]

  chunk-append :
      (xs ys : Store Alert)
      → map (worker_alert_of price ticker) (xs ++ ys)
        ≡ map (worker_alert_of price ticker) xs ++ map (worker_alert_of price ticker) ys
  chunk-append [] ys = refl
  chunk-append (d ∷ xs) ys = ap (λ l. worker_alert_of price ticker d ∷ l) (chunk-append xs ys)

  -- The chunks tell of every alert once, in order.
  pub emit_chunks-all :
      (fuel : ℕ) (found : Store Alert)
      → length found ≤ fuel
      → emit_chunks fuel price ticker found ≡ map (worker_alert_of price ticker) found
  unfolding emit_chunks
  emit_chunks-all zero [] le = refl
  emit_chunks-all zero (d ∷ found) le = absurd (omega arith)
  emit_chunks-all (suc fuel) [] le = emit_chunks-all fuel [] (omega arith)
  emit_chunks-all (suc fuel) (d ∷ found) le =
      let all = d ∷ found in
      let rest =
        emit_chunks-all fuel (drop notification_chunk all)
          (omega (arith, length-drop notification_chunk all, le)) in
      ap (λ l. map (worker_alert_of price ticker) (take notification_chunk all) ++ l) rest
      ∙ sym (chunk-append (take notification_chunk all) (drop notification_chunk all))
      ∙ ap (map (worker_alert_of price ticker)) (take-append-drop notification_chunk all)

  -- What one batch does, whether it holds anything due or not.
  pub trigger_all :
      (batch : Store Alert) (db : WorkerDb)
      → ((trigger price ticker batch db).alerts
          ≡ mark (ids_of (select (reached price) batch)) db.alerts)
        × ((trigger price ticker batch db).events
            ≡ db.events ++ map (worker_alert_of price ticker) (select (reached price) batch))
  trigger_all batch db = elim (List-cases (select (reached price) batch)) [
    | inl empty ↦
        rw (trigger-none batch db empty, empty) (sym (mark_nil db.alerts), append_nil db.events)
    | inr (d, ds, found) ↦
        rw (trigger-some batch db found, found)
          (
            refl,
            ap (λ l. db.events ++ l) (emit_chunks-all (length (d ∷ ds)) (d ∷ ds) (omega arith)),
          )
  ]
