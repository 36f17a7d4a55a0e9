-- ===== src/Trading/Portfolio/Valued.antt =====
-- A portfolio is the member's positions at the stored prices, from the cache or not.
use eurisko_final_proejct.Base.{
  ℕ, ◌≡◌, refl, ap, subst, ◌∙◌, select-select, select-All, Action, Option, none, some, true, ◌&&◌,
  List, [], ◌∷◌, ok, arith, inl, inr, Option-cases, if◌then◌else◌, ltb, ◌==◌, select, map, All,
}
use eurisko_final_proejct.Base.Int.{ℤ, pos, ◌+ℤ◌, ◌-ℤ◌, scale, ltb_ℤ, leb_ℤ}
use eurisko_final_proejct.Base.Store.{Store, lookup, insert, lookup-insert_self}
use eurisko_final_proejct.Trading.Data.{
  Number, nan, num, Stock, Position, PortfolioPosition, PortfolioSummary, Db, Error,
}
use eurisko_final_proejct.Trading.Stock.{find_by_id}
use eurisko_final_proejct.Trading.Stock.Coherence.{Coherent, find_by_id-stored, find_by_id-Coherent}
use eurisko_final_proejct.Trading.Portfolio.{
  to_float, position_value, position_values, sum_of, summary_of, summarize, find_or_null,
  fetch_stocks, get_portfolio, get_portfolio_summary,
}

-- An amount of a document, where a NaN counts as 0.
abbrev pub amount : Number → ℤ
amount nan = pos 0
amount (num a) = a

abbrev pub cost : Position → ℤ
cost p = amount p.total_invested

abbrev pub total : (Position → ℤ) → List Position → ℤ
total f [] = pos 0
total f (p ∷ ps) = f p +ℤ total f ps

same_amount : (n : Number) → to_float n ≡ amount n
same_amount nan = refl
same_amount (num a) = refl

positive_cost :
    (a x : ℤ) → (if leb_ℤ a (pos 0) then pos 0 else x) ≡ (if ltb_ℤ (pos 0) a then x else pos 0)
positive_cost a x = ground arith

module _ {W : Type 0} where
  -- What a fetch leaves and answers: only the stock cache changes, and it still holds stored stocks.
  Fetched : {A : Type 0} → Action (Db W) Error A → A → Db W → Type 0
  Fetched fetch answer db =
      (cache : Store Stock) × (fetch db ≡ (ok answer, record db { stock_cache = cache }))
      × Coherent (record db { stock_cache = cache })

  find_or_null-Fetched :
      (id : ℕ) (db : Db W) → Coherent db → Fetched (find_or_null id) (lookup id db.stocks) db
  unfolding Fetched find_or_null find_by_id
  find_or_null-Fetched id db true_cache = elim (Option-cases (lookup id db.stock_cache)) [
    | inr (t, cached) ↦ (db.stock_cache, ground (arith, cached, true_cache id t cached), true_cache)
    | inl missing ↦ elim (Option-cases (lookup id db.stocks)) [
      | inl absent ↦ (db.stock_cache, ground (arith, missing, absent), true_cache)
      | inr (s, stored) ↦ (
        insert id s db.stock_cache,
        ground (arith, missing, stored),
        subst Coherent (ap (λ r. r.1) (find_by_id-stored id db missing stored))
            (find_by_id-Coherent id db s true_cache stored).1,
      )
    ]
  ]

  abbrev stored_stocks : Db W → List Position → List (Option Stock)
  stored_stocks db = map (λ p. lookup p.stock_id db.stocks)

  fetch_stocks-Fetched :
      (ps : List Position) (db : Db W)
      → Coherent db
      → Fetched (fetch_stocks ps) (stored_stocks db ps) db
  unfolding Fetched fetch_stocks
  fetch_stocks-Fetched [] db true_cache = (db.stock_cache, refl, true_cache)
  fetch_stocks-Fetched (p ∷ ps) db true_cache =
      let (cache, one, true_one) = find_or_null-Fetched p.stock_id db true_cache in
      let (last, rest, true_last) =
        fetch_stocks-Fetched ps (record db { stock_cache = cache }) true_one in
      (last, ground (arith, one, rest), true_last)

  module _ (round : ℤ → ℤ) (percent : ℤ → ℤ → ℤ) where
    -- What a portfolio is to say. A position, at the price of the stored stock, or 0 if there is none.
    abbrev pub stored_price : Db W → ℕ → ℤ
    stored_price db id = elim (lookup id db.stocks) [ none ↦ pos 0 | some s ↦ s.current_price ]

    abbrev pub value : Db W → Position → ℤ
    value db p = scale p.shares (stored_price db p.stock_id)

    abbrev pub worth : Db W → Position → PortfolioPosition
    worth db p = record {
      stock_id = p.stock_id;
      ticker = p.ticker;
      company_name = p.company_name;
      shares = p.shares;
      avg_buy_price = amount p.avg_buy_price;
      total_invested = cost p;
      current_price = stored_price db p.stock_id;
      current_value = round (value db p);
      unrealized_pnl = round (value db p -ℤ cost p);
      unrealized_pnl_percent =
          round (if ltb_ℤ (pos 0) (cost p) then percent (value db p -ℤ cost p) (cost p) else pos 0);
    }

    -- The positions, and the totals of their costs and of their rounded values.
    abbrev pub valued : Db W → List Position → PortfolioSummary
    valued db ps = record {
      positions = map (worth db) ps;
      total_invested = round (total cost ps);
      total_current_value = round (total (λ p. round (value db p)) ps);
      total_unrealized_pnl = round (total (λ p. round (value db p)) ps -ℤ total cost ps);
    }

    position_value-worth :
        (db : Db W) (p : Position)
        → position_value round percent p (lookup p.stock_id db.stocks) ≡ worth db p
    unfolding position_value
    position_value-worth db p =
        rw
          (
            same_amount p.total_invested,
            same_amount p.avg_buy_price,
            positive_cost (cost p) (percent (value db p -ℤ cost p) (cost p)),
          )
          refl

    position_values-worth :
        (db : Db W) (ps : List Position)
        → position_values round percent ps (stored_stocks db ps) ≡ map (worth db) ps
    position_values-worth db [] = refl
    position_values-worth db (p ∷ ps) =
        ap (λ x. x ∷ position_values round percent ps (stored_stocks db ps))
          (position_value-worth db p)
        ∙ ap (λ l. worth db p ∷ l) (position_values-worth db ps)

    sum_of-worth :
        (f : PortfolioPosition → ℤ) (g : Position → ℤ) (db : Db W) (ps : List Position)
        → ((p : Position) → f (worth db p) ≡ g p)
        → sum_of f (map (worth db) ps) ≡ total g ps
    sum_of-worth f g db [] same = refl
    sum_of-worth f g db (p ∷ ps) same =
        ap (λ a. a +ℤ sum_of f (map (worth db) ps)) (same p)
        ∙ ap (λ a. g p +ℤ a) (sum_of-worth f g db ps same)

    summary_of-worth :
        (db : Db W) (ps : List Position)
        → summary_of round percent (position_values round percent ps (stored_stocks db ps))
          ≡ valued db ps
    unfolding summary_of
    summary_of-worth db ps =
        rw
          (
            position_values-worth db ps,
            sum_of-worth (λ p. p.total_invested) cost db ps (λ p. refl),
            sum_of-worth (λ p. p.current_value) (λ p. round (value db p)) db ps (λ p. refl),
          )
          refl

    summarize-Fetched :
        (ps : List Position) (db : Db W)
        → Coherent db
        → Fetched (summarize round percent ps) (valued db ps) db
    unfolding Fetched
    summarize-Fetched ps db true_cache =
        let (cache, stocks, true_after) = fetch_stocks-Fetched ps db true_cache in
        (cache, ground (arith, stocks, summary_of-worth db ps), true_after)

    module _ (member : ℕ) (db : Db W) where
      abbrev pub held : List Position
      held = select (λ p. p.member_id == member) db.positions

      get_portfolio-cached :
          {summary : PortfolioSummary}
          → lookup member db.portfolio_cache ≡ some summary
          → get_portfolio round percent member db ≡ (ok summary, db)
      unfolding get_portfolio
      get_portfolio-cached hit = ground (arith, hit)

      get_portfolio-computed :
          Coherent db
          → lookup member db.portfolio_cache ≡ none
          → (cache : Store Stock) × (get_portfolio round percent member db ≡ (
            ok (valued db held),
            record db {
              stock_cache = cache;
              portfolio_cache = insert member (valued db held) db.portfolio_cache;
            },
          ))
            × Coherent (record db { stock_cache = cache })
      unfolding get_portfolio Fetched
      get_portfolio-computed true_cache missing =
          let (cache, summary, true_after) = summarize-Fetched held db true_cache in
          (cache, ground (arith, missing, summary), true_after)

    -- If every cached stock is the stored one and no summary of the member is cached, then getPortfolio
    -- answers with all positions of the member, each with the value of its shares at the price of the
    -- stored stock, or at 0 if the stock is gone, its cost, and the difference, and with the totals of the
    -- costs and of the rounded values; the positions and the stocks are as before, every cached stock is
    -- still the stored one, and a second getPortfolio gives the same answer and changes nothing.
    pub get_portfolio-valued :
        (member : ℕ) (db : Db W)
        → Coherent db
        → lookup member db.portfolio_cache ≡ none
        → let (r, after) = get_portfolio round percent member db in
          (r ≡ ok (valued db (held member db)))
          × (after.positions ≡ db.positions)
          × (after.stocks ≡ db.stocks)
          × Coherent after
          × (get_portfolio round percent member after ≡ (r, after))
    get_portfolio-valued member db true_cache missing =
        let (cache, done, true_after) = get_portfolio-computed member db true_cache missing in
        let after : Db W = record db {
          stock_cache = cache;
          portfolio_cache = insert member (valued db (held member db)) db.portfolio_cache;
        } in
        rw done (
          refl,
          refl,
          refl,
          true_after,
          get_portfolio-cached member after
              (lookup-insert_self member (valued db (held member db)) db.portfolio_cache),
        )

    -- If every cached stock is the stored one and the member's positions all have shares, then
    -- getPortfolioSummary answers with the same summary, without the cache of the portfolios.
    pub get_portfolio_summary-valued :
        (member : ℕ) (db : Db W)
        → Coherent db
        → All (λ p. ltb 0 p.shares ≡ true) (held member db)
        → (get_portfolio_summary round percent member db).0 ≡ ok (valued db (held member db))
    unfolding get_portfolio_summary Fetched
    get_portfolio_summary-valued member db true_cache all =
        let (cache, summary, true_after) = summarize-Fetched (held member db) db true_cache in
        let same : select (λ p. p.member_id == member && ltb 0 p.shares) db.positions
            ≡ held member db =
          select-select (λ p. p.member_id == member) (λ p. ltb 0 p.shares) db.positions
          ∙ select-All (λ p. ltb 0 p.shares) (held member db) all in
        ap (λ ps. (summarize round percent ps db).0) same ∙ ap (λ r. r.0) summary
