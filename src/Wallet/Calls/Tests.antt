-- ===== src/Wallet/Calls/Tests.antt =====
-- Runs of the wallet's handlers at concrete inputs: a deposit of 100, a withdrawal of 60 after the holding
-- period, its approval and its refusals, and orders of the trading service.
use eurisko_final_proejct.Base.{ℕ, ◌*◌, ◌≡◌, refl, none, some, []}
use eurisko_final_proejct.Base.Int.{ℤ, pos, ◌+ℤ◌, ◌-ℤ◌}
use eurisko_final_proejct.Base.Store.{lookup, insert, adjust, erase}
use eurisko_final_proejct.Redis.{get, set_nx, compare_del}
use eurisko_final_proejct.Wallet.Data.{
  withdrawal, pending, Wallet, Transaction, MemberContext, Db, Call, Config,
}
use eurisko_final_proejct.Wallet.Transactions.{has_key, create}
use eurisko_final_proejct.Wallet.Lock.{acquire, release, with_lock}
use eurisko_final_proejct.Wallet.Service.{
  StripeDepositInput, find_one_and_update, ensure_wallet, credit_deposit, process_stripe_deposit,
  check_hold, request_withdrawal, pending_withdrawal, debit_withdrawal, approve_withdrawal,
}
use eurisko_final_proejct.Wallet.Internal.{debit_order, deduct}

abbrev pub cfg : Config
cfg = record {
  min_deposit = none;
  max_deposit = none;
  withdrawal_hold_hrs = none;
  lock_ttl_ms = none;
}

-- The call at a time, with its new id.
abbrev pub call : ℕ → ℕ → Call
call now new_id = record {
  now = now;
  lock_token = "token";
  uuid = "uuid";
  new_id = new_id;
  id_text = λ _. "7";
}

abbrev pub member : MemberContext
member = record { user_id = 7; email = "m@example.org"; name = "Member" }

-- 10^6 units of the grid.
abbrev pub dollars : ℕ → ℤ
dollars n = pos (n * 1_000_000)

abbrev pub empty : Db
empty = record { wallets = []; transactions = []; locks = []; events = [] }

abbrev pub checkout : StripeDepositInput
checkout = record {
  user_id = 7;
  amount = dollars 100;
  currency = "USD";
  idempotency_key = "evt_1";
  stripe_session_id = "cs_1";
  stripe_payment_intent_id = none;
}

-- 50 hours later.
abbrev pub later : ℕ
later = 180_000_000

abbrev pub funded : Db
funded = (process_stripe_deposit cfg (call 0 1) checkout empty).1

abbrev pub requested : Db
requested = (request_withdrawal cfg (call later 2) member (dollars 60) funded).1

abbrev pub approved : Db
approved = (approve_withdrawal cfg (call later 3) 2 "cms" member requested).1

abbrev pub bought : Db
bought = (deduct cfg (call later 4) 7 (dollars 90) "o1" requested).1

-- The document of the request.
abbrev pub waiting : Transaction
waiting = record {
  user_id = 7;
  type_of = withdrawal;
  status = pending;
  amount = dollars 60;
  balance_before = dollars 100;
  balance_after = none;
  currency = "USD";
  stripe_payment_intent_id = none;
  stripe_session_id = none;
  idempotency_key = "withdrawal:7:uuid";
  processed_by_cms_user_id = none;
  rejection_reason = none;
  adjustment_note = none;
  processed_at = none;
  created_at = later;
}

abbrev pub holding : ℕ → Wallet
holding n = record { balance = dollars n; currency = "USD"; last_deposit_at = some 0 }

deposit_credits : lookup 7 funded.wallets ≡ some (holding 100)
unfolding lookup insert adjust get set_nx compare_del has_key create acquire release with_lock
    find_one_and_update ensure_wallet credit_deposit process_stripe_deposit ◌+ℤ◌
deposit_credits = refl

request_is_filed : lookup 2 requested.transactions ≡ some waiting
unfolding lookup insert adjust get set_nx compare_del has_key create acquire release with_lock
    find_one_and_update ensure_wallet credit_deposit process_stripe_deposit check_hold
    request_withdrawal ◌+ℤ◌
request_is_filed = refl

approval_debits : lookup 7 approved.wallets ≡ some (holding 40)
unfolding lookup insert adjust erase get set_nx compare_del has_key create acquire release with_lock
    find_one_and_update ensure_wallet credit_deposit process_stripe_deposit check_hold
    request_withdrawal pending_withdrawal debit_withdrawal approve_withdrawal ◌+ℤ◌ ◌-ℤ◌
approval_debits = refl

order_debits : lookup 7 bought.wallets ≡ some (holding 10)
unfolding lookup insert adjust erase get set_nx compare_del has_key create acquire release with_lock
    find_one_and_update ensure_wallet credit_deposit process_stripe_deposit check_hold
    request_withdrawal debit_order deduct ◌+ℤ◌ ◌-ℤ◌
order_debits = refl
