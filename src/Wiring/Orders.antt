-- ===== src/Wiring/Orders.antt =====
-- The orders of the trading service against the wallet service.
use eurisko_final_proejct.Base.{
  ℕ, ◌+◌, ◌-◌, String, ◌≡◌, ◌⊎◌, ◌≤◌, false, none, some, ok, err, is_ok,
}
use eurisko_final_proejct.Base.Store.{lookup}
use eurisko_final_proejct.Base.Int.{ℤ, ◌-ℤ◌, ◌+ℤ◌, ◌≤ℤ◌, scale}
use eurisko_final_proejct.Redis.{get}
use eurisko_final_proejct.Wallet.Data as wallet_data
use eurisko_final_proejct.Wallet.Transactions.{has_key}
use eurisko_final_proejct.Wallet.Internal.{deduct_key, credit_key}
use eurisko_final_proejct.Wallet.Ledger.{balance_of}
use eurisko_final_proejct.Trading.Data.{
  executed, Trader, Stock, Order, Db, Call, wallet_unavailable,
}
use eurisko_final_proejct.Trading.Lock.{Pause}
use eurisko_final_proejct.Trading.Position.{is_of}
use eurisko_final_proejct.Trading.Position.Laws.{AtMostOne}
use eurisko_final_proejct.Trading.Position.Holdings.{shares_of}
use eurisko_final_proejct.Trading.Order.{PlaceOrderDto, buy, sell}
use eurisko_final_proejct.Trading.Order.Buying.{MayTrade, Listed}
use eurisko_final_proejct.Trading.Order.Selling.{Stored}
use eurisko_final_proejct.Trading.Order.Exchange.{buy_exchange, sell_exchange}
use eurisko_final_proejct.Wiring.{Delivery, answer_lost, wallet_api, wallet_laws}

module _ (cfg : wallet_data.Config) (calls : ℕ → wallet_data.Call) (order_text : ℕ → String)
    (text : wallet_data.Error → String) (invalid : String) (network : ℕ → Delivery)
    (divide : ℤ → ℕ → ℤ) (ttl : ℕ) (pause : Pause wallet_data.Db) (c : Call) (member : ℕ)
    (dto : PlaceOrderDto) (db : Db wallet_data.Db) (t : Trader) (s : Stock) where
  -- A buy order of a trader that may trade, for a listed stock that is not in the cache, with the
  -- member's lock free, at most one position of the member and the stock, and an order id that the
  -- wallet service has not seen, ends in one of three ways. It answers with the order, which is stored
  -- as executed, and the balance covered the cost and is less by it and the shares are more by the
  -- order's. It fails, and both are as before. Or the wallet service took the money and its answer was lost on the network: then it fails as
  -- unavailable, the balance is less by the cost, and the shares are as before.
  pub buy_settled :
      MayTrade db member t
      → Listed db dto.stock_id s
      → get c.now member db.locks ≡ none
      → AtMostOne (is_of member dto.stock_id) db.positions
      → has_key (deduct_key (order_text c.new_id)) db.wallet.transactions ≡ false
      → has_key (credit_key (order_text c.new_id)) db.wallet.transactions ≡ false
      → let (r, after) =
          buy
            (wallet_api cfg calls order_text text invalid network)
            divide
            ttl
            pause
            c
            member
            dto
            db in
        let price = scale dto.shares s.current_price in
        let had = balance_of member db.wallet.wallets in
        let held = shares_of member dto.stock_id db.positions in
        ((o : Order) × (r ≡ ok (some o))
          × (lookup c.new_id after.orders ≡ some o)
          × (o.status ≡ executed)
          × (price ≤ℤ had)
          × (balance_of member after.wallet.wallets ≡ had -ℤ price)
          × (shares_of member dto.stock_id after.positions ≡ held + dto.shares))
        ⊎ (((is_ok r ≡ false)
              × (balance_of member after.wallet.wallets ≡ had)
              × (shares_of member dto.stock_id after.positions ≡ held))
            ⊎ ((network c.new_id ≡ answer_lost)
                × (r ≡ err wallet_unavailable)
                × (price ≤ℤ had)
                × (balance_of member after.wallet.wallets ≡ had -ℤ price)
                × (shares_of member dto.stock_id after.positions ≡ held)))
  unfolding wallet_laws
  buy_settled may found free one new_deduct new_credit =
      buy_exchange (wallet_api cfg calls order_text text invalid network)
        (wallet_laws cfg calls order_text text invalid network) divide ttl pause c member dto db t s
        may found free one (new_deduct, new_credit)

  -- A sell order of a trader that may trade, for a stored stock that is not in the cache, with the
  -- member's lock free, at most one position of the member and the stock, and an order id that the
  -- wallet service has not seen, ends in one of three ways. It answers with the order, which is stored
  -- as executed, the member had the shares, the balance is more by the proceeds and the shares are
  -- less by the order's. It fails, and both are as before. Or the wallet service gave the money and its answer was lost on the network: then it
  -- fails as unavailable, the balance is more by the proceeds, and the shares are as before.
  pub sell_settled :
      MayTrade db member t
      → Stored db dto.stock_id s
      → get c.now member db.locks ≡ none
      → AtMostOne (is_of member dto.stock_id) db.positions
      → has_key (deduct_key (order_text c.new_id)) db.wallet.transactions ≡ false
      → has_key (credit_key (order_text c.new_id)) db.wallet.transactions ≡ false
      → let (r, after) =
          sell (wallet_api cfg calls order_text text invalid network) ttl pause c member dto db in
        let price = scale dto.shares s.current_price in
        let had = balance_of member db.wallet.wallets in
        let held = shares_of member dto.stock_id db.positions in
        ((o : Order) × (r ≡ ok (some o))
          × (lookup c.new_id after.orders ≡ some o)
          × (o.status ≡ executed)
          × (balance_of member after.wallet.wallets ≡ had +ℤ price)
          × (dto.shares ≤ held)
          × (shares_of member dto.stock_id after.positions ≡ held - dto.shares))
        ⊎ (((is_ok r ≡ false)
              × (balance_of member after.wallet.wallets ≡ had)
              × (shares_of member dto.stock_id after.positions ≡ held))
            ⊎ ((network c.new_id ≡ answer_lost)
                × (r ≡ err wallet_unavailable)
                × (balance_of member after.wallet.wallets ≡ had +ℤ price)
                × (shares_of member dto.stock_id after.positions ≡ held)))
  unfolding wallet_laws
  sell_settled may found free one new_deduct new_credit =
      sell_exchange (wallet_api cfg calls order_text text invalid network)
        (wallet_laws cfg calls order_text text invalid network) divide ttl pause c member dto db t s
        may found free one (new_deduct, new_credit)
