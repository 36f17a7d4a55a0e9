-- ===== src/Wiring/Tests.antt =====
-- Orders of a member whose wallet holds 100.
use eurisko_final_proejct.Base.{
  ℕ, ◌+◌, ◌-◌, String, ◌≡◌, ◌⊎◌, refl, some, ◌≤◌, false, is_ok, ok, err, [], ◌∷◌,
}
use eurisko_final_proejct.Base.Int.{pos, ◌+ℤ◌, ◌-ℤ◌, ◌≤ℤ◌, scale}
use eurisko_final_proejct.Base.Store.{lookup}
use eurisko_final_proejct.Wallet.Data as wallet_data
use eurisko_final_proejct.Wallet.Transactions.{has_key}
use eurisko_final_proejct.Wallet.Internal.{deduct_key, credit_key}
use eurisko_final_proejct.Wallet.Ledger.{balance_of}
use eurisko_final_proejct.Wallet.Calls.Tests.{cfg, empty, holding}
use eurisko_final_proejct.Wallet.Calls.Tests as wallet_tests
use eurisko_final_proejct.Trading.Data.{Order, executed, Db, Failure, wallet_unavailable}
use eurisko_final_proejct.Trading.Position.Holdings.{shares_of}
use eurisko_final_proejct.Trading.Order.{buy, sell, deduct_error}
use eurisko_final_proejct.Trading.Order.Exchange.{buy_cached}
use eurisko_final_proejct.Trading.Order.Buying.{MayTrade}
use eurisko_final_proejct.Trading.Tests.{
  rounded_down, nobody_else, call, trader, stock, ten, market, market-MayTrade, market-Listed,
  market-Stored, lock_free, one_position,
}
use eurisko_final_proejct.Wiring.{Delivery, answer_lost, wallet_api, wallet_laws}
use eurisko_final_proejct.Wiring.Orders.{buy_settled, sell_settled}

abbrev funded : wallet_data.Db
funded = record empty { wallets = (7, holding 100) ∷ [] }

abbrev calls : ℕ → wallet_data.Call
calls order = wallet_tests.call 1000 order

abbrev text_of : ℕ → String
text_of order = "o4"

abbrev error_text : wallet_data.Error → String
error_text e = "refused"

new_deduct : has_key (deduct_key "o4") funded.transactions ≡ false
unfolding has_key
new_deduct = refl

new_credit : has_key (credit_key "o4") funded.transactions ≡ false
unfolding has_key
new_credit = refl

-- The answer for the order is lost.
abbrev lossy : ℕ → Delivery
lossy order = answer_lost

buy_settled_example :
    let (r, after) =
      buy
        (wallet_api cfg calls text_of error_text "invalid" lossy)
        rounded_down
        10_000
        nobody_else
        call
        7
        ten
        (market funded) in
    let price = scale 10 (pos 2_000_000) in
    let had = balance_of 7 funded.wallets in
    let held = shares_of 7 1 (market funded).positions in
    ((o : Order) × (r ≡ ok (some o))
      × (lookup 4 after.orders ≡ some o)
      × (o.status ≡ executed)
      × (price ≤ℤ had)
      × (balance_of 7 after.wallet.wallets ≡ had -ℤ price)
      × (shares_of 7 1 after.positions ≡ held + 10))
    ⊎ (((is_ok r ≡ false)
          × (balance_of 7 after.wallet.wallets ≡ had)
          × (shares_of 7 1 after.positions ≡ held))
        ⊎ ((lossy 4 ≡ answer_lost)
            × (r ≡ err wallet_unavailable)
            × (price ≤ℤ had)
            × (balance_of 7 after.wallet.wallets ≡ had -ℤ price)
            × (shares_of 7 1 after.positions ≡ held)))
buy_settled_example =
    buy_settled cfg calls text_of error_text "invalid" lossy rounded_down 10_000 nobody_else call 7
      ten (market funded) trader stock (market-MayTrade funded) (market-Listed funded)
      (lock_free funded) (one_position funded) new_deduct new_credit

sell_settled_example :
    let (r, after) =
      sell
        (wallet_api cfg calls text_of error_text "invalid" lossy)
        10_000
        nobody_else
        call
        7
        ten
        (market funded) in
    let price = scale 10 (pos 2_000_000) in
    let had = balance_of 7 funded.wallets in
    let held = shares_of 7 1 (market funded).positions in
    ((o : Order) × (r ≡ ok (some o))
      × (lookup 4 after.orders ≡ some o)
      × (o.status ≡ executed)
      × (balance_of 7 after.wallet.wallets ≡ had +ℤ price)
      × (10 ≤ held)
      × (shares_of 7 1 after.positions ≡ held - 10))
    ⊎ (((is_ok r ≡ false)
          × (balance_of 7 after.wallet.wallets ≡ had)
          × (shares_of 7 1 after.positions ≡ held))
        ⊎ ((lossy 4 ≡ answer_lost)
            × (r ≡ err wallet_unavailable)
            × (balance_of 7 after.wallet.wallets ≡ had +ℤ price)
            × (shares_of 7 1 after.positions ≡ held)))
sell_settled_example =
    sell_settled cfg calls text_of error_text "invalid" lossy rounded_down 10_000 nobody_else call 7
      ten (market funded) trader stock (market-MayTrade funded) (market-Stored funded)
      (lock_free funded) (one_position funded) new_deduct new_credit

-- The same market while the stock is in the cache.
abbrev cached_market : Db wallet_data.Db
cached_market = record (market funded) { stock_cache = (1, stock) ∷ [] }

cached_market-MayTrade : MayTrade cached_market 7 trader
unfolding lookup
cached_market-MayTrade = record { known = refl; is_active = refl; approved = refl }

cached_stock : lookup 1 cached_market.stock_cache ≡ some stock
unfolding lookup
cached_stock = refl

buy_cached_example :
    (f : Failure) × ((buy
        (wallet_api cfg calls text_of error_text "invalid" lossy)
        rounded_down
        10_000
        nobody_else
        call
        7
        ten
        cached_market).0
      ≡ err (deduct_error f))
buy_cached_example =
    buy_cached (wallet_api cfg calls text_of error_text "invalid" lossy)
      (wallet_laws cfg calls text_of error_text "invalid" lossy) rounded_down 10_000 nobody_else
      call 7 ten cached_market trader stock cached_market-MayTrade cached_stock refl
      (lock_free funded)
