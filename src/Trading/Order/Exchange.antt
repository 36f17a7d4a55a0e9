-- ===== src/Trading/Order/Exchange.antt =====
-- What the orders need of the wallet service, and what they do with the member's money and shares
-- together: all or nothing, unless the answer is lost.
use eurisko_final_proejct.Base.{
  ℕ, ◌+◌, ◌-◌, Result, ok, err, ◌≡◌, none, some, true, false, is_ok, Option, ◌≤◌, arith, inl, inr,
  ◌⊎◌, refl, Option-cases, ◌∙◌, ap,
}
use eurisko_final_proejct.Base.Int.{ℤ, ◌-ℤ◌, ◌+ℤ◌, ◌≤ℤ◌, scale}
use eurisko_final_proejct.Base.Store.{lookup}
use eurisko_final_proejct.Redis.{get}
use eurisko_final_proejct.Trading.Data.{
  executed, nan, num, Trader, Stock, Order, Db, Error, wallet_unavailable, Call, Failure, WalletApi,
}
use eurisko_final_proejct.Trading.Stock.{find_by_id, find_listed_by_id}
use eurisko_final_proejct.Trading.Lock.{Pause}
use eurisko_final_proejct.Trading.Lock.Exclusion.{locked, with_member_lock-free}
use eurisko_final_proejct.Trading.Position.{is_of, find}
use eurisko_final_proejct.Trading.Position.Laws.{AtMostOne}
use eurisko_final_proejct.Trading.Position.Holdings.{shares_of, shares_of-enough}
use eurisko_final_proejct.Trading.Order.{
  PlaceOrderDto, has_shares, deduct_error, buy, buy_locked, sell,
}
use eurisko_final_proejct.Trading.Order.Outcomes.{buy_locked-refused}
use eurisko_final_proejct.Trading.Order.Buying.{
  MayTrade, assert_can_trade-ok, Listed, buy_refused, buy_executed,
}
use eurisko_final_proejct.Trading.Order.Selling.{Stored, sell_short, sell_refused, sell_executed}

-- The contract of the wallet service. `fresh` holds of an order that it has not seen, and `lost` of an
-- order for which the money may have moved although no answer comes back.
pub record WalletLaws {W : Type 0} (api : WalletApi W) : Type 1 where
  pub funds : W → ℕ → ℤ
  pub fresh : ℕ → W → Type 0
  pub lost : ℕ → Type 0
  pub nan_refused :
      (member order : ℕ) (w : W) → (f : Failure) × (api.deduct member nan order w ≡ (err f, w))
  pub deducted :
      (member : ℕ) (amount : ℤ) (order : ℕ) (w : W) {b : ℤ} {w' : W}
      → fresh order w
      → api.deduct member (num amount) order w ≡ (ok b, w')
      → (amount ≤ℤ funds w member) × (funds w' member ≡ funds w member -ℤ amount)
  pub not_deducted :
      (member : ℕ) (amount : ℤ) (order : ℕ) (w : W) {f : Failure} {w' : W}
      → fresh order w
      → api.deduct member (num amount) order w ≡ (err f, w')
      → (funds w' member ≡ funds w member)
        ⊎ (lost order
            × (f.status ≡ none)
            × (amount ≤ℤ funds w member)
            × (funds w' member ≡ funds w member -ℤ amount))
  pub credited :
      (member : ℕ) (amount : ℤ) (order : ℕ) (w : W) {b : ℤ} {w' : W}
      → fresh order w
      → api.credit member (num amount) order w ≡ (ok b, w')
      → funds w' member ≡ funds w member +ℤ amount
  pub not_credited :
      (member : ℕ) (amount : ℤ) (order : ℕ) (w : W) {f : Failure} {w' : W}
      → fresh order w
      → api.credit member (num amount) order w ≡ (err f, w')
      → (funds w' member ≡ funds w member)
        ⊎ (lost order × (funds w' member ≡ funds w member +ℤ amount))

answer-cases :
    {F W : Type 0} (x : Result F ℤ × W)
    → ((f : F) × (w : W) × (x ≡ (err f, w))) ⊎ ((b : ℤ) × (w : W) × (x ≡ (ok b, w)))
answer-cases (err f, w) = inl (f, w, refl)
answer-cases (ok b, w) = inr (b, w, refl)

module _ {W : Type 0} (api : WalletApi W) (laws : WalletLaws api) (divide : ℤ → ℕ → ℤ) (ttl : ℕ)
    (pause : Pause W) (c : Call) (member : ℕ) (dto : PlaceOrderDto) (db : Db W) (t : Trader)
    (s : Stock) where
  -- Both sides have moved, and the caller has the order; neither has, and the caller has an error; or the
  -- answer was lost, and the money has moved although the caller has an error and the shares stay.
  abbrev pub Bought : ℤ → ℕ → Result Error (Option Order) → Db W → Type 0
  Bought had held r after =
      let price = scale dto.shares s.current_price in
      ((o : Order) × (r ≡ ok (some o))
        × (lookup c.new_id after.orders ≡ some o)
        × (o.status ≡ executed)
        × (price ≤ℤ had)
        × (laws.funds after.wallet member ≡ had -ℤ price)
        × (shares_of member dto.stock_id after.positions ≡ held + dto.shares))
      ⊎ (((is_ok r ≡ false)
            × (laws.funds after.wallet member ≡ had)
            × (shares_of member dto.stock_id after.positions ≡ held))
          ⊎ (laws.lost c.new_id
              × (r ≡ err wallet_unavailable)
              × (price ≤ℤ had)
              × (laws.funds after.wallet member ≡ had -ℤ price)
              × (shares_of member dto.stock_id after.positions ≡ held)))

  unanswered : (f : Failure) → f.status ≡ none → deduct_error f ≡ wallet_unavailable
  unanswered f none_ = rw none_ refl

  pub buy_exchange :
      MayTrade db member t
      → Listed db dto.stock_id s
      → get c.now member db.locks ≡ none
      → AtMostOne (is_of member dto.stock_id) db.positions
      → laws.fresh c.new_id db.wallet
      → let (r, after) = buy api divide ttl pause c member dto db in
        Bought (laws.funds db.wallet member) (shares_of member dto.stock_id db.positions) r after
  buy_exchange may found free one fresh =
      let price = scale dto.shares s.current_price in
      elim (answer-cases (api.deduct member (num price) c.new_id db.wallet)) [
        | inl (f, w, e) ↦
            let (failed, wallet, kept, _, _, _, _) =
              buy_refused api divide ttl pause c member dto db t s may found free e in
            let same = ap (λ ps. shares_of member dto.stock_id ps) kept in
            let left = ap (λ v. laws.funds v member) wallet in
            elim (laws.not_deducted member price c.new_id db.wallet fresh e) [
              | inl unmoved ↦ inr (inl (ap is_ok failed, left ∙ unmoved, same))
              | inr (lost, silent, enough, moved) ↦ inr (
                  inr (
                    lost,
                    failed ∙ ap (λ x. err x) (unanswered f silent),
                    enough,
                    left ∙ moved,
                    same,
                  ))
            ]
        | inr (b, w, e) ↦
            let (done, wallet, more, stored, _, _, _) =
              buy_executed api divide ttl pause c member dto db t s may found free one e in
            let (enough, less) = laws.deducted member price c.new_id db.wallet fresh e in
            inl (_, done, stored, refl, enough, ap (λ v. laws.funds v member) wallet ∙ less, more)
      ]

  -- The same of a sale, whose shares were there.
  abbrev pub Sold : ℤ → ℕ → Result Error (Option Order) → Db W → Type 0
  Sold had held r after =
      let price = scale dto.shares s.current_price in
      ((o : Order) × (r ≡ ok (some o))
        × (lookup c.new_id after.orders ≡ some o)
        × (o.status ≡ executed)
        × (laws.funds after.wallet member ≡ had +ℤ price)
        × (dto.shares ≤ held)
        × (shares_of member dto.stock_id after.positions ≡ held - dto.shares))
      ⊎ (((is_ok r ≡ false)
            × (laws.funds after.wallet member ≡ had)
            × (shares_of member dto.stock_id after.positions ≡ held))
          ⊎ (laws.lost c.new_id
              × (r ≡ err wallet_unavailable)
              × (laws.funds after.wallet member ≡ had +ℤ price)
              × (shares_of member dto.stock_id after.positions ≡ held)))

  pub sell_exchange :
      MayTrade db member t
      → Stored db dto.stock_id s
      → get c.now member db.locks ≡ none
      → AtMostOne (is_of member dto.stock_id) db.positions
      → laws.fresh c.new_id db.wallet
      → let (r, after) = sell api ttl pause c member dto db in
        Sold (laws.funds db.wallet member) (shares_of member dto.stock_id db.positions) r after
  sell_exchange may found free one fresh =
      let price = scale dto.shares s.current_price in
      elim (Option-cases (find (has_shares member dto) db.positions)) [
        | inl short ↦
            let (failed, _, kept, wallet, _, _) =
              sell_short api divide ttl pause c member dto db t s may found free short in
            inr (
              inl (
                ap is_ok failed,
                ap (λ v. laws.funds v member) wallet,
                ap (λ ps. shares_of member dto.stock_id ps) kept,
              ))
        | inr (p, held) ↦ elim (answer-cases (api.credit member (num price) c.new_id db.wallet)) [
          | inl (f, w, e) ↦
              let (failed, wallet, kept, _, _, _) =
                sell_refused api divide ttl pause c member dto db t s may found free one held e in
              let same = ap (λ ps. shares_of member dto.stock_id ps) kept in
              let left = ap (λ v. laws.funds v member) wallet in
              elim (laws.not_credited member price c.new_id db.wallet fresh e) [
                | inl unmoved ↦ inr (inl (ap is_ok failed, left ∙ unmoved, same))
                | inr (lost, moved) ↦ inr (inr (lost, failed, left ∙ moved, same))
              ]
          | inr (b, w, e) ↦
              let (done, wallet, less, stored, _, _) =
                sell_executed api divide ttl pause c member dto db t s may found free one held e in
              let more = laws.credited member price c.new_id db.wallet fresh e in
              inl (
                _,
                done,
                stored,
                refl,
                ap (λ v. laws.funds v member) wallet ∙ more,
                shares_of-enough member dto.stock_id dto.shares db.positions one held,
                less,
              )
        ]
      ]

  -- While a listed stock is in the cache, every order of a trader that may trade, with the member's
  -- lock free, to buy it fails with the client's error: its price is read as NaN, and the wallet
  -- service refuses that.
  pub buy_cached :
      MayTrade db member t
      → lookup dto.stock_id db.stock_cache ≡ some s
      → s.is_listed ≡ true
      → get c.now member db.locks ≡ none
      → (f : Failure) × ((buy api divide ttl pause c member dto db).0 ≡ err (deduct_error f))
  unfolding buy find_by_id find_listed_by_id
  buy_cached may held listed free =
      let (f, refused) = laws.nan_refused member c.new_id db.wallet in
      let body = buy_locked api divide member dto t s nan in
      let ran = with_member_lock-free ttl pause c member body db free in
      let out =
        buy_locked-refused api divide member dto t s nan c (locked ttl c member db) refused in
      (f, ground (arith, assert_can_trade-ok may, held, listed, ran, out))
