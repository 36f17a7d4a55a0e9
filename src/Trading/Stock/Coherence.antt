-- ===== src/Trading/Stock/Coherence.antt =====
-- The stock cache holds what the database holds: every change of a stock deletes its entry.
use eurisko_final_proejct.Base.{
  ℕ, ◌-◌, ◌≤◌, ◌≡◌, refl, ap, Bool, Option, none, some, true, false, List, [], ◌∷◌, ◌++◌, ok, arith,
  inl, inr, Option-cases, Bool-cases, length, length-drop, ◌==◌,
}
use eurisko_final_proejct.Base.Int.{ℤ}
use eurisko_final_proejct.Base.Store.{
  lookup, insert, adjust, erase, lookup-insert, lookup-adjust, lookup-erase, lookup-adjust_self,
}
use eurisko_final_proejct.Trading.Data.{PriceHistoryEntry, Stock, Event, price_updated, Db, Call}
use eurisko_final_proejct.Trading.Stock.{
  UpdateStockDto, updated_stock, delisted, pushed, price_history_max, find_by_id,
  find_by_id_and_update, update, delist,
}

module _ {W : Type 0} where
  -- Every cached stock is the stored one.
  abbrev pub Coherent : Db W → Type 0
  Coherent db =
      (id : ℕ) (s : Stock) → lookup id db.stock_cache ≡ some s → lookup id db.stocks ≡ some s

  module _ (id : ℕ) (db : Db W) where
    pub find_by_id-cached :
        {s : Stock}
        → lookup id db.stock_cache ≡ some s
        → find_by_id id db ≡ (ok (record { stock = s; from_cache = true }), db)
    unfolding find_by_id
    find_by_id-cached cached = ground (arith, cached)

    pub find_by_id-stored :
        {s : Stock}
        → lookup id db.stock_cache ≡ none
        → lookup id db.stocks ≡ some s
        → find_by_id id db ≡ (
          ok (record { stock = s; from_cache = false }),
          record db { stock_cache = insert id s db.stock_cache },
        )
    unfolding find_by_id
    find_by_id-stored missing stored = ground (arith, missing, stored)

    -- If every cached stock is the stored one, a read of a stored stock gives that stock, whether
    -- it comes from the cache or not, and every cached stock is still the stored one.
    pub find_by_id-Coherent :
        (s : Stock)
        → Coherent db
        → lookup id db.stocks ≡ some s
        → let (r, after) = find_by_id id db in
          ((b : Bool) × (r ≡ ok (record { stock = s; from_cache = b }))) × Coherent after
    find_by_id-Coherent s true_cache stored = elim (Option-cases (lookup id db.stock_cache)) [
      | inl missing ↦ rw (find_by_id-stored missing stored) ((false, refl), after_read)
      | inr (t, cached) ↦
          let same : t ≡ s = ground (arith, true_cache id t cached, stored) in
          rw (find_by_id-cached cached)
            ((true, ap (λ x. ok (record { stock = x; from_cache = true })) same), true_cache)
    ]
      where
        after_read :
            (j : ℕ) (t : Stock)
            → lookup j (insert id s db.stock_cache) ≡ some t
            → lookup j db.stocks ≡ some t
        after_read j t e = elim (Bool-cases (id == j)) [
          | inl same ↦ ground (arith, e, lookup-insert id j s db.stock_cache, stored)
          | inr other ↦ true_cache j t (ground (arith, e, lookup-insert id j s db.stock_cache))
        ]

    abbrev pub changed : (Stock → Stock) → Db W
    changed f = record db {
      stocks = adjust id f db.stocks;
      stock_cache = erase id db.stock_cache;
      catalogue_cache = none;
    }

    changed-Coherent : (f : Stock → Stock) → Coherent db → Coherent (changed f)
    changed-Coherent f true_cache j t e = elim (Bool-cases (id == j)) [
      | inl same ↦ absurd (ground (arith, e, lookup-erase id j db.stock_cache))
      | inr other ↦
          let kept : lookup j db.stocks ≡ some t =
            true_cache j t (ground (arith, e, lookup-erase id j db.stock_cache)) in
          ground (arith, lookup-adjust id j f db.stocks, kept)
    ]

    find_by_id_and_update-done :
        (f : Stock → Stock) {s : Stock}
        → lookup id db.stocks ≡ some s
        → find_by_id_and_update id f db
          ≡ (ok (some (f s)), record db { stocks = adjust id f db.stocks })
    unfolding find_by_id_and_update
    find_by_id_and_update-done f stored = ground (arith, stored)

    -- The messages after an update.
    abbrev pub announced : Stock → Option ℤ → List Event
    announced s none = db.events
    announced s (some p) = db.events ++ price_updated id s.ticker p ∷ []

    pub update-done :
        (c : Call) (dto : UpdateStockDto) {s : Stock}
        → lookup id db.stocks ≡ some s
        → update c id dto db ≡ (
          ok (updated_stock c dto s),
          record (changed (updated_stock c dto)) { events = announced s dto.current_price },
        )
    unfolding update
    update-done c dto stored =
        ground (arith, find_by_id_and_update-done (updated_stock c dto) stored)

    pub delist-done :
        {s : Stock}
        → lookup id db.stocks ≡ some s
        → delist id db ≡ (ok (delisted s), changed delisted)
    unfolding delist
    delist-done stored = ground (arith, find_by_id_and_update-done delisted stored)

    uncached : lookup id (erase id db.stock_cache) ≡ none
    uncached = ground (arith, lookup-erase id id db.stock_cache)

    -- If every cached stock is the stored one, an update of a stored stock answers with the changed
    -- stock, stores it, deletes the cached one, and sends a message if a price was given and none
    -- otherwise; every cached stock is still the stored one.
    pub update-Coherent :
        (c : Call) (dto : UpdateStockDto) (s : Stock)
        → Coherent db
        → lookup id db.stocks ≡ some s
        → let (r, after) = update c id dto db in
          (r ≡ ok (updated_stock c dto s))
          × (lookup id after.stocks ≡ some (updated_stock c dto s))
          × (lookup id after.stock_cache ≡ none)
          × (after.events ≡ announced s dto.current_price)
          × Coherent after
    update-Coherent c dto s true_cache stored = rw (update-done c dto stored) (
      refl,
      lookup-adjust_self id (updated_stock c dto) db.stocks stored,
      uncached,
      refl,
      changed-Coherent (updated_stock c dto) true_cache,
    )

    -- If every cached stock is the stored one, delisting a stored stock answers with it and stores
    -- it as not listed, and deletes the cached one; every cached stock is still the stored one.
    pub delist-Coherent :
        (s : Stock)
        → Coherent db
        → lookup id db.stocks ≡ some s
        → let (r, after) = delist id db in
          (r ≡ ok (delisted s))
          × (lookup id after.stocks ≡ some (delisted s))
          × (lookup id after.stock_cache ≡ none)
          × Coherent after
    delist-Coherent s true_cache stored = rw (delist-done stored) (
      refl,
      lookup-adjust_self id delisted db.stocks stored,
      uncached,
      changed-Coherent delisted true_cache,
    )

-- After a price is pushed, the history has at most 365 entries, however many it had.
pub length-pushed :
    (e : PriceHistoryEntry) (h : List PriceHistoryEntry) → length (pushed e h) ≤ price_history_max
unfolding pushed
length-pushed e h =
    omega (arith, length-drop (length (h ++ e ∷ []) - price_history_max) (h ++ e ∷ []))
