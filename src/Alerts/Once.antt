-- ===== src/Alerts/Once.antt =====
-- The trading service's routine tells each member once.
use eurisko_final_proejct.Base.{ℕ, ◌≡◌, refl, List, [], ◌∷◌, ◌++◌, inl, inr, ap, ◌∙◌, sym, ◌⊎◌}
use eurisko_final_proejct.Base.Int.{ℤ}
use eurisko_final_proejct.Base.Store.{Store, lookup}
use eurisko_final_proejct.Alerts.{
  Alert, Db, mark, ids_of, due, price_alerts, check_alerts_for_stock,
}
use eurisko_final_proejct.Alerts.Marking.{due-mark}

-- The state after the routine, written with the alerts that are due.
abbrev pub checked : ℕ → ℤ → Store Alert → Db → Db
checked stock price found db = record db {
  alerts = mark (ids_of found) db.alerts;
  events = db.events ++ price_alerts price (lookup stock db.stocks) db.traders found;
}

pub List-cases : {A : Type 0} (xs : List A) → (xs ≡ []) ⊎ ((y : A) × (ys : List A) × (xs ≡ y ∷ ys))
List-cases [] = inl refl
List-cases (x ∷ xs) = inr (x, xs, refl)

module _ (stock : ℕ) (price : ℤ) (db : Db) where
  pub check-none : due stock price db.alerts ≡ [] → check_alerts_for_stock stock price db ≡ db
  unfolding check_alerts_for_stock
  check-none e = rw (e, check_alerts_for_stock) refl

  pub check-some :
      {d : ℕ × Alert} {ds : Store Alert}
      → due stock price db.alerts ≡ d ∷ ds
      → check_alerts_for_stock stock price db ≡ checked stock price (d ∷ ds) db
  unfolding check_alerts_for_stock
  check-some e = rw (e, check_alerts_for_stock) refl

-- After the routine, no open alert of the stock is left that the price has reached, and the routine at
-- the same price changes and tells nothing more.
pub check_alerts_for_stock_once :
    (stock : ℕ) (price : ℤ) (db : Db)
    → let after = check_alerts_for_stock stock price db in
      (due stock price after.alerts ≡ []) × (check_alerts_for_stock stock price after ≡ after)
check_alerts_for_stock_once stock price db = elim (List-cases (due stock price db.alerts)) [
  | inl empty ↦ rw (check-none stock price db empty) (empty, check-none stock price db empty)
  | inr (d, ds, found) ↦
      let settled : due stock price (mark (ids_of (d ∷ ds)) db.alerts) ≡ [] =
        ap (λ l. due stock price (mark (ids_of l) db.alerts)) (sym found)
        ∙ due-mark stock price db.alerts in
      rw (check-some stock price db found)
        (settled, check-none stock price (checked stock price (d ∷ ds) db) settled)
]
