-- ===== src/Wallet/Internal.antt =====
-- apps/wallet-service/src/modules/wallet/internal-wallet.service.ts: the debit and the credit that the
-- trading service asks for, keyed by its order.
use Prim.Native.String
use eurisko_final_proejct.Base.{
  ℕ, String, Option, none, some, Action, pure, throw, or_throw, throw_if, ◌>>=◌, ◌>>◌,
  if◌then◌else◌,
}
use eurisko_final_proejct.Base.Int.{ℤ, ltb_ℤ, ◌+ℤ◌}
use eurisko_final_proejct.Wallet.Data.{
  TransactionType, buy, sell, pending, Wallet, Db, Error, wallet_not_found, insufficient_balance,
  Call, Config,
}
use eurisko_final_proejct.Wallet.Transactions.{
  CreateTransactionInput, exists_by_idempotency_key, create, mark_completed, mark_rejected,
}
use eurisko_final_proejct.Wallet.Lock.{with_lock}
use eurisko_final_proejct.Wallet.Service.{find_one_and_update, anyway, covers, debited, get_wallet}

abbrev pub deduct_key : String → String
deduct_key order = String.◌++◌ "trade:deduct:" order

abbrev pub credit_key : String → String
credit_key order = String.◌++◌ "trade:credit:" order

abbrev pub trade_record : TransactionType → ℕ → ℤ → Wallet → String → CreateTransactionInput
trade_record side user amount wallet key = record {
  user_id = user;
  type_of = side;
  status = pending;
  amount = amount;
  balance_before = wallet.balance;
  balance_after = none;
  currency = wallet.currency;
  idempotency_key = key;
  stripe_payment_intent_id = none;
  stripe_session_id = none;
  adjustment_note = none;
  processed_by_cms_user_id = none;
  processed_at = none;
}

abbrev pub lost_race : String
lost_race = "Insufficient balance (concurrent race)"

abbrev settle_trade : Call → ℕ → Option Wallet → Action Db Error ℤ
settle_trade c id none = do mark_rejected c id lost_race (some "system"); throw insufficient_balance
settle_trade c id (some updated) = do mark_completed c id updated.balance none; pure updated.balance

-- The part of `deduct` inside the lock.
unfoldable pub debit_order : Call → ℕ → ℤ → String → Action Db Error ℤ
debit_order c user amount key = do
  wallet ← get_wallet user
  throw_if (ltb_ℤ wallet.balance amount) insufficient_balance
  id ← create c (trade_record buy user amount wallet key)
  updated ← find_one_and_update user (covers amount) (debited amount)
  settle_trade c id updated

-- The answer to a repeated call.
abbrev pub current_balance : ℕ → Action Db Error ℤ
current_balance user = do wallet ← get_wallet user; pure wallet.balance

unfoldable pub deduct : Config → Call → ℕ → ℤ → String → Action Db Error ℤ
deduct cfg c user amount order = do
  already ← exists_by_idempotency_key (deduct_key order)
  if already
      then current_balance user
      else with_lock cfg c user (debit_order c user amount (deduct_key order))

abbrev pub credited : ℤ → Wallet → Wallet
credited amount w = record w { balance = w.balance +ℤ amount }

-- The part of `credit` inside the lock.
unfoldable pub credit_order : Call → ℕ → ℤ → String → Action Db Error ℤ
credit_order c user amount key = do
  wallet ← get_wallet user
  id ← create c (trade_record sell user amount wallet key)
  found ← find_one_and_update user anyway (credited amount)
  updated ← or_throw found wallet_not_found
  mark_completed c id updated.balance none
  pure updated.balance

unfoldable pub credit : Config → Call → ℕ → ℤ → String → Action Db Error ℤ
credit cfg c user amount order = do
  already ← exists_by_idempotency_key (credit_key order)
  if already
      then current_balance user
      else with_lock cfg c user (credit_order c user amount (credit_key order))
