-- ===== src/Wallet/Transactions.antt =====
-- apps/wallet-service/src/modules/transaction/transaction.service.ts: creation, settlement and lookup
-- of the audit records.

use text.Mathlib.Text.{◌==◌ as str_eq}
use eurisko_final_proejct.Base.{
  ℕ, String, Bool, false, ◌||◌, Option, none, some, [], ◌∷◌, Action, gets, modify, throw_if, pure,
  if◌then◌else◌, ◌>>=◌, ◌>>◌,
}
use eurisko_final_proejct.Base.Int.{ℤ}
use eurisko_final_proejct.Base.Store.{Store, lookup, insert, adjust}
use eurisko_final_proejct.Wallet.Data.{
  TransactionType, TransactionStatus, completed, rejected, Transaction, Db, Error, duplicate_key,
  Call,
}

-- `CreateTransactionInput`
pub record CreateTransactionInput : Type 0 where
  pub user_id : ℕ
  pub type_of : TransactionType
  pub status : TransactionStatus
  pub amount : ℤ
  pub balance_before : ℤ
  pub balance_after : Option ℤ
  pub currency : String
  pub idempotency_key : String
  pub stripe_payment_intent_id : Option String
  pub stripe_session_id : Option String
  pub adjustment_note : Option String
  pub processed_by_cms_user_id : Option String
  pub processed_at : Option ℕ

-- `countDocuments({ idempotencyKey }) > 0`, and the test of the unique index.
unfoldable pub has_key : String → Store Transaction → Bool
has_key key [] = false
has_key key ((_, t) ∷ ts) = str_eq t.idempotency_key key || has_key key ts

abbrev pub exists_by_idempotency_key : String → Action Db Error Bool
exists_by_idempotency_key key = gets (λ db. has_key key db.transactions)

abbrev pub document : Call → CreateTransactionInput → Transaction
document c input = record {
  user_id = input.user_id;
  type_of = input.type_of;
  status = input.status;
  amount = input.amount;
  balance_before = input.balance_before;
  balance_after = input.balance_after;
  currency = input.currency;
  stripe_payment_intent_id = input.stripe_payment_intent_id;
  stripe_session_id = input.stripe_session_id;
  idempotency_key = input.idempotency_key;
  processed_by_cms_user_id = input.processed_by_cms_user_id;
  rejection_reason = none;
  adjustment_note = input.adjustment_note;
  processed_at = input.processed_at;
  created_at = c.now;
}

-- The id of the new document; error 11000 of the unique index becomes a `ConflictException`.
unfoldable pub create : Call → CreateTransactionInput → Action Db Error ℕ
create c input = do
  duplicate ← gets (λ db. has_key input.idempotency_key db.transactions)
  throw_if duplicate duplicate_key
  modify (λ db. record db { transactions = insert c.new_id (document c input) db.transactions })
  pure c.new_id

-- `...(processedByCmsUserId ? { processedByCmsUserId } : {})`: an empty text counts as none.
abbrev pub or_kept : Option String → Option String → Option String
or_kept none old = old
or_kept (some s) old = if str_eq s "" then old else some s

abbrev pub complete : Call → ℤ → Option String → Transaction → Transaction
complete c balance_after by t = record t {
  status = completed;
  balance_after = some balance_after;
  processed_at = some c.now;
  processed_by_cms_user_id = or_kept by t.processed_by_cms_user_id;
}

abbrev pub reject : Call → String → Option String → Transaction → Transaction
reject c reason by t = record t {
  status = rejected;
  rejection_reason = some reason;
  processed_at = some c.now;
  processed_by_cms_user_id = or_kept by t.processed_by_cms_user_id;
}

abbrev pub mark_completed : Call → ℕ → ℤ → Option String → Action Db Error (Unit {0})
mark_completed c id balance_after by =
    modify
      (λ db. record db { transactions = adjust id (complete c balance_after by) db.transactions })

abbrev pub mark_rejected : Call → ℕ → String → Option String → Action Db Error (Unit {0})
mark_rejected c id reason by =
    modify (λ db. record db { transactions = adjust id (reject c reason by) db.transactions })

abbrev pub find_by_id : ℕ → Action Db Error (Option Transaction)
find_by_id id = gets (λ db. lookup id db.transactions)
