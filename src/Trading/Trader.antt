-- ===== src/Trading/Trader.antt =====
-- apps/trading-service/src/modules/trader/trader.service.ts: the read-model of the members, and the guard
-- of every order.
use eurisko_final_proejct.Base.{
  ℕ, Bool, true, false, Action, ◌>>=◌, ◌>>◌, pure, gets, modify, or_throw, throw_if, if◌then◌else◌,
}
use eurisko_final_proejct.Base.Store.{lookup, adjust}
use eurisko_final_proejct.Trading.Data.{
  Trader, TraderStatus, active, suspended, KycStatus, kyc_approved, Db, Error, trader_not_found,
  account_suspended, kyc_required,
}

abbrev pub is_suspended : TraderStatus → Bool
is_suspended suspended = true
is_suspended active = false

abbrev pub is_approved : KycStatus → Bool
is_approved kyc_approved = true
is_approved _ = false

module _ {W : Type 0} where
  unfoldable pub update_status : ℕ → TraderStatus → Action (Db W) Error (Unit {0})
  update_status member status =
      modify
        (λ db. record db { traders = adjust member (λ t. record t { status = status }) db.traders })

  unfoldable pub update_kyc_status : ℕ → KycStatus → Action (Db W) Error (Unit {0})
  update_kyc_status member kyc =
      modify (λ db. record db {
        traders = adjust member (λ t. record t { kyc_status = kyc }) db.traders;
      })

  unfoldable pub assert_can_trade : ℕ → Action (Db W) Error Trader
  assert_can_trade member = do
    found ← gets (λ db. lookup member db.traders)
    trader ← or_throw found trader_not_found
    throw_if (is_suspended trader.status) account_suspended
    throw_if (if is_approved trader.kyc_status then false else true) kyc_required
    pure trader
