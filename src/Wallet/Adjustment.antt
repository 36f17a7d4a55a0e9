-- ===== src/Wallet/Adjustment.antt =====
-- `manualAdjustment` of apps/wallet-service/src/modules/wallet/wallet.service.ts.

use Prim.Native.String
use eurisko_final_proejct.Base.{
  ℕ, ◌+◌, ◌*◌, ◌/◌, String, none, some, Action, pure, throw_if, modify, ◌>>=◌, ◌>>◌, if◌then◌else◌,
}
use eurisko_final_proejct.Base.Int.{ℤ, pos, pos_part, ◌+ℤ◌, abs, ltb_ℤ, leb_ℤ}
use eurisko_final_proejct.Base.Store.{adjust}
use eurisko_final_proejct.Wallet.Data.{
  manual_credit, manual_debit, TransactionType, completed, Wallet, Db, Error, negative_adjustment,
  Call, Config,
}
use eurisko_final_proejct.Wallet.Transactions.{CreateTransactionInput, create}
use eurisko_final_proejct.Wallet.Lock.{with_lock}
use eurisko_final_proejct.Wallet.Service.{get_wallet, key_of_three}

-- `toFixed(2)` of an amount that is not negative.
abbrev pub to_cents : ℤ → ℤ
to_cents a = pos ((pos_part a + 5000) / 10_000 * 10_000)

abbrev pub manual_key : Call → String → ℕ → String
manual_key c cms_user user = String.◌++◌ "manual:" (key_of_three cms_user (c.id_text user) c.uuid)

abbrev pub adjustment_type : ℤ → TransactionType
adjustment_type amount = if leb_ℤ (pos 0) amount then manual_credit else manual_debit

abbrev pub adjustment_record : Call → ℕ → ℤ → String → String → Wallet → ℤ → CreateTransactionInput
adjustment_record c user amount justification cms_user wallet new_balance = record {
  user_id = user;
  type_of = adjustment_type amount;
  status = completed;
  amount = abs amount;
  balance_before = wallet.balance;
  balance_after = some new_balance;
  currency = wallet.currency;
  idempotency_key = manual_key c cms_user user;
  stripe_payment_intent_id = none;
  stripe_session_id = none;
  adjustment_note = some justification;
  processed_by_cms_user_id = some cms_user;
  processed_at = some c.now;
}

abbrev pub set_balance : ℤ → Wallet → Wallet
set_balance b w = record w { balance = b }

unfoldable pub adjust_balance : Call → ℕ → ℤ → String → String → Action Db Error (ℤ × ℕ)
adjust_balance c user amount justification cms_user = do
  wallet ← get_wallet user
  let new_balance = wallet.balance +ℤ amount
  throw_if (ltb_ℤ new_balance (pos 0)) negative_adjustment
  modify (λ db. record db { wallets = adjust user (set_balance new_balance) db.wallets })
  id ← create c (adjustment_record c user amount justification cms_user wallet new_balance)
  pure (to_cents new_balance, id)

unfoldable pub manual_adjustment : Config → Call → ℕ → ℤ → String → String → Action Db Error (ℤ × ℕ)
manual_adjustment cfg c user amount justification cms_user =
    with_lock cfg c user (adjust_balance c user amount justification cms_user)
