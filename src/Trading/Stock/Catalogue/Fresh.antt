-- ===== src/Trading/Stock/Catalogue/Fresh.antt =====
-- Both caches of the stocks through all that the service does to stocks, and what the catalogue's key
-- leaves out.
use eurisko_final_proejct.Base.{
  ℕ, ◌≡◌, refl, sym, ap, subst, Bool, true, false, String, Option, none, some, ok, err, arith, ◌⊎◌,
  inl, inr, Option-cases, Bool-cases,
}
use eurisko_final_proejct.Base.Store.{Store, lookup, insert, lookup-insert}
use eurisko_final_proejct.Trading.Data.{Stock, Catalogue, Db, Call, ticker_exists}
use eurisko_final_proejct.Trading.Stock.{
  UpdateStockDto, find_by_id, find_by_id_and_update, update, delist,
}
use eurisko_final_proejct.Trading.Stock.Coherence.{
  Coherent, find_by_id-cached, find_by_id-stored, find_by_id-Coherent, update-done, delist-done,
  update-Coherent, delist-Coherent,
}
use eurisko_final_proejct.Trading.Stock.Catalogue.{
  CreateStockDto, StockQuery, listed_stock, has_ticker, uses_cache, catalogue, find_all, create,
}

-- The first page of the whole catalogue.
abbrev pub first_page : Option ℕ → StockQuery
first_page limit = record { sector = none; search = none; page = some 1; limit = limit }

first_page-only :
    (sector words : Option String) (page limit : Option ℕ)
    → let q : StockQuery = record { sector = sector; search = words; page = page; limit = limit } in
      uses_cache q ≡ true → q ≡ first_page limit
unfolding uses_cache
first_page-only none none (some p) limit e =
    let at : ℕ → StockQuery =
      λ k. record { sector = none; search = none; page = some k; limit = limit } in
    let one : p ≡ 1 = ground (arith, e) in ap at {x = p} {y = 1} one
first_page-only (some s) none (some p) limit e = absurd (ground (arith, e))
first_page-only (some s) (some w) (some p) limit e = absurd (ground (arith, e))
first_page-only none (some w) (some p) limit e = absurd (ground (arith, e))
first_page-only sector words none limit e = absurd (ground (arith, e))

uses_cache-first_page : (q : StockQuery) → uses_cache q ≡ true → q ≡ first_page q.limit
uses_cache-first_page q e = first_page-only q.sector q.search q.page q.limit e

module _ {W : Type 0} (by_name : Store Stock → Store Stock) (text : String → String → Bool)
    (upper : String → String) where
  -- The cached catalogue is the first page, with some limit, of what is stored.
  abbrev pub Fresh : Db W → Type 0
  Fresh db =
      (db.catalogue_cache ≡ none)
      ⊎ ((limit : Option ℕ) × (db.catalogue_cache
            ≡ some (catalogue by_name text (first_page limit) db.stocks)))

  -- What a call does to the stocks; a new document's `_id` is new.
  pub data Step : Db W → Db W → Type 0 where
    read : (id : ℕ) (db : Db W) → Step db (find_by_id id db).1
    listed : (q : StockQuery) (db : Db W) → Step db (find_all by_name text q db).1
    created :
        (c : Call) (dto : CreateStockDto) (db : Db W)
        → lookup c.new_id db.stocks ≡ none
        → Step db (create upper c dto db).1
    updated :
        (c : Call) (id : ℕ) (dto : UpdateStockDto) (db : Db W) → Step db (update c id dto db).1
    taken_off : (id : ℕ) (db : Db W) → Step db (delist id db).1

  pub data Steps : Db W → Db W → Type 0 where
    done : (db : Db W) → Steps db db
    more : {db after last : Db W} → Step db after → Steps after last → Steps db last

  abbrev pub Kept : Db W → Type 0
  Kept db = Coherent db × Fresh db

  kept : (db after : Db W) → db ≡ after → Kept db → Kept after
  kept db after e k = subst Kept e k

  module _ (db : Db W) where
    find_by_id-missing : (id : ℕ) → lookup id db.stocks ≡ none → (find_by_id id db).1 ≡ db
    unfolding find_by_id
    find_by_id-missing id absent = elim (Option-cases (lookup id db.stock_cache)) [
      | inl missing ↦ ground (arith, missing, absent)
      | inr (s, cached) ↦ ground (arith, cached)
    ]

    update-missing :
        (c : Call) (id : ℕ) (dto : UpdateStockDto)
        → lookup id db.stocks ≡ none
        → (update c id dto db).1 ≡ db
    unfolding update find_by_id_and_update
    update-missing c id dto absent = ground (arith, absent)

    delist-missing : (id : ℕ) → lookup id db.stocks ≡ none → (delist id db).1 ≡ db
    unfolding delist find_by_id_and_update
    delist-missing id absent = ground (arith, absent)

    find_by_id-Kept : (id : ℕ) → Kept db → Kept (find_by_id id db).1
    find_by_id-Kept id (true_cache, fresh) = elim (Option-cases (lookup id db.stocks)) [
      | inl absent ↦
          kept db (find_by_id id db).1 (sym (find_by_id-missing id absent)) (true_cache, fresh)
      | inr (s, stored) ↦ elim (Option-cases (lookup id db.stock_cache)) [
        | inl missing ↦ (
          (find_by_id-Coherent id db s true_cache stored).1,
          rw (find_by_id-stored id db missing stored) fresh,
        )
        | inr (t, cached) ↦ rw (find_by_id-cached id db cached) (true_cache, fresh)
      ]
    ]

    update-Kept : (c : Call) (id : ℕ) (dto : UpdateStockDto) → Kept db → Kept (update c id dto db).1
    update-Kept c id dto (true_cache, fresh) = elim (Option-cases (lookup id db.stocks)) [
      | inl missing ↦
          kept db (update c id dto db).1 (sym (update-missing c id dto missing)) (true_cache, fresh)
      | inr (s, stored) ↦ (
        (update-Coherent id db c dto s true_cache stored).4,
        inl (ap (λ r. r.1.catalogue_cache) (update-done id db c dto stored)),
      )
    ]

    delist-Kept : (id : ℕ) → Kept db → Kept (delist id db).1
    delist-Kept id (true_cache, fresh) = elim (Option-cases (lookup id db.stocks)) [
      | inl missing ↦ kept db (delist id db).1 (sym (delist-missing id missing)) (true_cache, fresh)
      | inr (s, stored) ↦ (
        (delist-Coherent id db s true_cache stored).3,
        inl (ap (λ r. r.1.catalogue_cache) (delist-done id db stored)),
      )
    ]

    find_all-part :
        (q : StockQuery)
        → uses_cache q ≡ false
        → find_all by_name text q db ≡ (ok (catalogue by_name text q db.stocks), db)
    unfolding find_all
    find_all-part q part = rw part refl

    find_all-hit :
        (q : StockQuery) {cached : Catalogue}
        → uses_cache q ≡ true
        → db.catalogue_cache ≡ some cached
        → find_all by_name text q db ≡ (ok cached, db)
    unfolding find_all
    find_all-hit q whole hit = ground (arith, whole, hit)

    find_all-miss :
        (q : StockQuery)
        → uses_cache q ≡ true
        → db.catalogue_cache ≡ none
        → let result = catalogue by_name text q db.stocks in
          find_all by_name text q db ≡ (ok result, record db { catalogue_cache = some result })
    unfolding find_all
    find_all-miss q whole miss = ground (arith, whole, miss)

    find_all-Kept : (q : StockQuery) → Kept db → Kept (find_all by_name text q db).1
    find_all-Kept q (true_cache, fresh) = elim (Bool-cases (uses_cache q)) [
      | inl whole ↦ elim (Option-cases db.catalogue_cache) [
        | inl missing ↦ rw (find_all-miss q whole missing) (
          true_cache,
          inr (
            q.limit,
            ap (λ r. some (catalogue by_name text r db.stocks)) (uses_cache-first_page q whole),
          ),
        )
        | inr (page, cached) ↦ rw (find_all-hit q whole cached) (true_cache, fresh)
      ]
      | inr part ↦ rw (find_all-part q part) (true_cache, fresh)
    ]

    create-refused :
        (c : Call) (dto : CreateStockDto)
        → has_ticker (upper dto.ticker) db.stocks ≡ true
        → create upper c dto db ≡ (err ticker_exists, db)
    unfolding create
    create-refused c dto there = rw there refl

    create-done :
        (c : Call) (dto : CreateStockDto)
        → has_ticker (upper dto.ticker) db.stocks ≡ false
        → let stock = listed_stock upper c dto in
          create upper c dto db ≡ (
            ok stock,
            record db { stocks = insert c.new_id stock db.stocks; catalogue_cache = none },
          )
    unfolding create
    create-done c dto not_there = rw not_there refl

    insert-Coherent :
        (id : ℕ) (stock : Stock)
        → lookup id db.stocks ≡ none
        → Coherent db
        → (j : ℕ) (s : Stock) → lookup j db.stock_cache ≡ some s
        → lookup j (insert id stock db.stocks) ≡ some s
    insert-Coherent id stock free true_cache j s hit =
        let held = true_cache j s hit in
        ground (arith, held, free, lookup-insert id j stock db.stocks)

    create-Kept :
        (c : Call) (dto : CreateStockDto)
        → lookup c.new_id db.stocks ≡ none
        → Kept db
        → Kept (create upper c dto db).1
    create-Kept c dto free (true_cache, fresh) =
        elim (Bool-cases (has_ticker (upper dto.ticker) db.stocks)) [
          | inl there ↦ rw (create-refused c dto there) (true_cache, fresh)
          | inr not_there ↦
              rw (create-done c dto not_there)
                (insert-Coherent c.new_id (listed_stock upper c dto) free true_cache, inl refl)
        ]

  Step-Kept : {db after : Db W} → Step db after → Kept db → Kept after
  Step-Kept (read id db) k = find_by_id-Kept db id k
  Step-Kept (listed q db) k = find_all-Kept db q k
  Step-Kept (created c dto db free) k = create-Kept db c dto free k
  Step-Kept (updated c id dto db) k = update-Kept db c id dto k
  Step-Kept (taken_off id db) k = delist-Kept db id k

  -- If every cached stock is the stored one, and the cached catalogue, if there is one, is the first
  -- page of the listed stocks under some limit, then both hold after any sequence of reads of a stock,
  -- readings of the catalogue, creations with a new id, updates and delistings, refused ones included.
  pub Steps-Kept : {db after : Db W} → Steps db after → Kept db → Kept after
  Steps-Kept (done db) k = k
  Steps-Kept (more step rest) k = Steps-Kept rest (Step-Kept step k)

  -- If nothing is cached, and two queries both ask for the first page without a sector or a search, then
  -- the second one, whatever its limit, is answered with the page that was cut for the limit of the
  -- first.
  pub find_all_other_limit :
      (db : Db W) (q r : StockQuery)
      → uses_cache q ≡ true
      → uses_cache r ≡ true
      → db.catalogue_cache ≡ none
      → let (answer, after) = find_all by_name text q db in
        find_all by_name text r after ≡ (answer, after)
  find_all_other_limit db q r whole also missing = rw (find_all-miss db q whole missing) (
      find_all-hit (record db { catalogue_cache = some (catalogue by_name text q db.stocks) }) r
        also refl)
