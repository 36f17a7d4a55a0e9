-- ===== src/Wallet/Service.antt =====
-- apps/wallet-service/src/modules/wallet/wallet.service.ts: deposits and the withdrawal workflow, each
-- handler as one run that no other call interrupts and that ends before its lock expires.
use mathlib.Core.Option.{get_or}
use Prim.Native.String
use eurisko_final_proejct.Base.{
  ℕ, ◌+◌, ◌-◌, ◌*◌, ◌/◌, String, Bool, true, false, Option, none, some, [], ◌∷◌, ◌++◌, ok, Action,
  pure, throw, gets, or_throw, throw_if, modify, ◌>>=◌, ◌>>◌, ltb, if◌then◌else◌,
}
use eurisko_final_proejct.Base.Int.{ℤ, pos, ◌+ℤ◌, ◌-ℤ◌, ltb_ℤ, leb_ℤ}
use eurisko_final_proejct.Base.Store.{lookup, insert, adjust}
use eurisko_final_proejct.Wallet.Data.{
  deposit, withdrawal, TransactionType, TransactionStatus, pending, Wallet, Transaction, Event,
  wallet_credited, withdrawal_requested, withdrawal_processed, Db, Error, wallet_not_found,
  insufficient_balance, transaction_not_found, not_a_withdrawal, auto_rejected, holding_period,
  already_settled, MemberContext, Call, Config,
}
use eurisko_final_proejct.Wallet.Transactions.{
  CreateTransactionInput, exists_by_idempotency_key, create, mark_completed, mark_rejected,
  find_by_id,
}
use eurisko_final_proejct.Wallet.Lock.{with_lock}

-- `StripeDepositInput`
pub record StripeDepositInput : Type 0 where
  pub user_id : ℕ
  pub amount : ℤ
  pub currency : String
  pub idempotency_key : String
  pub stripe_session_id : String
  pub stripe_payment_intent_id : Option String

abbrev pub emit : Event → Action Db Error (Unit {0})
emit e = modify (λ db. record db { events = db.events ++ e ∷ [] })

abbrev pub find_wallet : ℕ → Action Db Error (Option Wallet)
find_wallet user = gets (λ db. lookup user db.wallets)

-- `findOneAndUpdate({ userId, <guard> }, <update>, { new: true })`: one atomic step of the database.
unfoldable pub find_one_and_update :
    ℕ → (Wallet → Bool) → (Wallet → Wallet) → Action Db Error (Option Wallet)
find_one_and_update user guard update db = elim (lookup user db.wallets) [
  | none ↦ (ok none, db)
  | some w ↦
      if guard w
      then (ok (some (update w)), record db { wallets = adjust user update db.wallets })
      else (ok none, db)
]

abbrev pub anyway : Wallet → Bool
anyway _ = true

abbrev pub new_wallet : Wallet
new_wallet = record { balance = pos 0; currency = "USD"; last_deposit_at = none }

-- An upsert with `$setOnInsert`.
unfoldable pub ensure_wallet : ℕ → Action Db Error Wallet
ensure_wallet user db = elim (lookup user db.wallets) [
  | none ↦ (ok new_wallet, record db { wallets = insert user new_wallet db.wallets })
  | some w ↦ (ok w, db)
]

abbrev pub get_wallet : ℕ → Action Db Error Wallet
get_wallet user = do or_throw (← find_wallet user) wallet_not_found

-- `$inc` of the balance, and `$set` of the last deposit.
abbrev pub deposited : ℤ → ℕ → Wallet → Wallet
deposited amount now w = record w { balance = w.balance +ℤ amount; last_deposit_at = some now }

abbrev pub debited : ℤ → Wallet → Wallet
debited amount w = record w { balance = w.balance -ℤ amount }

-- `balance: { $gte: amount }`
abbrev pub covers : ℤ → Wallet → Bool
covers amount w = leb_ℤ amount w.balance

abbrev pub deposit_record : StripeDepositInput → ℤ → CreateTransactionInput
deposit_record input balance = record {
  user_id = input.user_id;
  type_of = deposit;
  status = pending;
  amount = input.amount;
  balance_before = balance;
  balance_after = none;
  currency = input.currency;
  idempotency_key = input.idempotency_key;
  stripe_payment_intent_id = input.stripe_payment_intent_id;
  stripe_session_id = some input.stripe_session_id;
  adjustment_note = none;
  processed_by_cms_user_id = none;
  processed_at = none;
}

-- Steps 3 to 7 of `processStripeDeposit`, inside the lock.
unfoldable pub credit_deposit : Call → StripeDepositInput → Action Db Error (Unit {0})
credit_deposit c input = do
  wallet ← ensure_wallet input.user_id
  id ← create c (deposit_record input wallet.balance)
  updated ← find_one_and_update input.user_id anyway (deposited input.amount c.now)
  credited ← or_throw updated wallet_not_found
  mark_completed c id credited.balance none
  emit (wallet_credited input.user_id "" "" input.amount credited.balance input.currency id)

unfoldable pub process_stripe_deposit :
    Config → Call → StripeDepositInput → Action Db Error (Unit {0})
process_stripe_deposit cfg c input = do
  already_processed ← exists_by_idempotency_key input.idempotency_key
  if already_processed then pure tt else with_lock cfg c input.user_id (credit_deposit c input)

abbrev pub ms_per_hr : ℕ
ms_per_hr = 3_600_000

-- `Math.ceil(ms / (60 * 60 * 1000))`
abbrev pub ceil_hrs : ℕ → ℕ
ceil_hrs ms = (ms + 3_599_999) / ms_per_hr

-- The 48-hour rule. The source's `elapsed < holdMs` is written with the date on the other side, where
-- the numbers do not go below 0.
unfoldable pub check_hold : Config → Call → Option ℕ → Action Db Error (Unit {0})
check_hold cfg c none = pure tt
check_hold cfg c (some last) =
    let hold_ms = get_or cfg.withdrawal_hold_hrs 48 * ms_per_hr in
    throw_if (ltb c.now (last + hold_ms)) (holding_period (ceil_hrs (last + hold_ms - c.now)))

abbrev pub key_of_three : String → String → String → String
key_of_three a b c = String.◌++◌ a (String.◌++◌ ":" (String.◌++◌ b (String.◌++◌ ":" c)))

abbrev pub withdrawal_key : Call → ℕ → String
withdrawal_key c user = key_of_three "withdrawal" (c.id_text user) c.uuid

abbrev pub withdrawal_record : Call → ℕ → ℤ → Wallet → CreateTransactionInput
withdrawal_record c user amount wallet = record {
  user_id = user;
  type_of = withdrawal;
  status = pending;
  amount = amount;
  balance_before = wallet.balance;
  balance_after = none;
  currency = wallet.currency;
  idempotency_key = withdrawal_key c user;
  stripe_payment_intent_id = none;
  stripe_session_id = none;
  adjustment_note = none;
  processed_by_cms_user_id = none;
  processed_at = none;
}

unfoldable pub request_withdrawal : Config → Call → MemberContext → ℤ → Action Db Error ℕ
request_withdrawal cfg c member amount = do
  wallet ← get_wallet member.user_id
  check_hold cfg c wallet.last_deposit_at
  throw_if (ltb_ℤ wallet.balance amount) insufficient_balance
  id ← create c (withdrawal_record c member.user_id amount wallet)
  emit (withdrawal_requested member.user_id member.email member.name amount wallet.currency id)
  pure id

-- The validation that approval and rejection share: a pending withdrawal.
abbrev pub is_withdrawal : TransactionType → Bool
is_withdrawal withdrawal = true
is_withdrawal _ = false

abbrev pub is_pending : TransactionStatus → Bool
is_pending pending = true
is_pending _ = false

unfoldable pub pending_withdrawal : ℕ → Action Db Error Transaction
pending_withdrawal id = do
  transaction ← or_throw (← find_by_id id) transaction_not_found
  throw_if (if is_withdrawal transaction.type_of then false else true) not_a_withdrawal
  throw_if (if is_pending transaction.status then false else true)
      (already_settled transaction.status)
  pure transaction

abbrev pub too_low : String
too_low = "Insufficient balance at time of approval"

abbrev settle_debit :
    Call → ℕ → String → MemberContext → Transaction → Option Wallet → Action Db Error (Unit {0})
settle_debit c id cms_user member transaction none = do
  mark_rejected c id too_low (some cms_user)
  emit (
      withdrawal_processed member.user_id member.email member.name transaction.amount false
        (some too_low) transaction.currency id)
  throw auto_rejected
settle_debit c id cms_user member transaction (some updated) = do
  mark_completed c id updated.balance (some cms_user)
  emit (
      withdrawal_processed member.user_id member.email member.name transaction.amount true none
        transaction.currency id)

-- The part of `approveWithdrawal` inside the lock: the conditional debit, then the settlement.
unfoldable pub debit_withdrawal :
    Call → ℕ → Transaction → String → MemberContext → Action Db Error (Unit {0})
debit_withdrawal c id transaction cms_user member = do
  updated ←
      find_one_and_update transaction.user_id (covers transaction.amount)
        (debited transaction.amount)
  settle_debit c id cms_user member transaction updated

unfoldable pub approve_withdrawal :
    Config → Call → ℕ → String → MemberContext → Action Db Error (Unit {0})
approve_withdrawal cfg c id cms_user member = do
  transaction ← pending_withdrawal id
  with_lock cfg c transaction.user_id (debit_withdrawal c id transaction cms_user member)

unfoldable pub reject_withdrawal :
    Call → ℕ → String → String → MemberContext → Action Db Error (Unit {0})
reject_withdrawal c id reason cms_user member = do
  transaction ← pending_withdrawal id
  mark_rejected c id reason (some cms_user)
  emit (
      withdrawal_processed transaction.user_id member.email member.name transaction.amount false
        (some reason) transaction.currency id)
