-- ===== src/Wallet/Examples.antt =====
-- The theorems about the wallet at concrete calls.

use text.Mathlib.TextEquality.{eq_iff}
use eurisko_final_proejct.Base.{
  ℕ, ◌+◌, ◌*◌, ◌≤◌, ◌<◌, ◌≡◌, ◌≢◌, refl, String, none, some, ok, err, false, arith,
}
use eurisko_final_proejct.Base.Int.{◌≤ℤ◌, ◌+ℤ◌, ◌-ℤ◌, int_laws}
use eurisko_final_proejct.Base.Store.{lookup, insert, adjust, erase}
use eurisko_final_proejct.Redis.{get, set_nx, compare_del}
use eurisko_final_proejct.Wallet.Data.{
  pending, completed, rejected, Wallet, Transaction, Db, holding_period, auto_rejected,
}
use eurisko_final_proejct.Wallet.Transactions.{has_key, create, complete}
use eurisko_final_proejct.Wallet.Lock.{acquire, release, with_lock}
use eurisko_final_proejct.Wallet.Service.{
  StripeDepositInput, find_one_and_update, ensure_wallet, credit_deposit, process_stripe_deposit,
  check_hold, request_withdrawal, pending_withdrawal, debit_withdrawal, approve_withdrawal,
  reject_withdrawal, ms_per_hr,
}
use eurisko_final_proejct.Wallet.Internal.{debit_order, deduct, deduct_key}
use eurisko_final_proejct.Wallet.Ledger.{Agree, NonNegative, balance_of, net, effect}
use eurisko_final_proejct.Wallet.Ledger.Machine.{Moves, ledger}
use eurisko_final_proejct.Wallet.Calls.{
  Step, Steps, start, later as then_, stripe_webhook, withdraw, approve, decline, Step-Moves,
  Steps-Agree, Steps-NonNegative, Steps-closed,
}
use eurisko_final_proejct.Wallet.Calls.Tests.{
  cfg, call, member, dollars, empty, checkout, later, funded, requested, approved, bought, waiting,
  holding,
}
use eurisko_final_proejct.Wallet.Approval.{
  approve_withdrawal_covered, approve_withdrawal_short, request_withdrawal_accepted,
  request_withdrawal_early, hold_ms,
}
use eurisko_final_proejct.Wallet.Idempotence.Trades.{Debited, deduct-Debited, deduct_once}

deposit-Step : Step empty funded
unfolding lookup insert adjust erase get set_nx compare_del has_key create acquire release with_lock
    find_one_and_update ensure_wallet credit_deposit process_stripe_deposit check_hold
    request_withdrawal pending_withdrawal debit_withdrawal approve_withdrawal debit_order deduct
    ◌+ℤ◌ ◌-ℤ◌ balance_of net effect
deposit-Step = stripe_webhook cfg (call 0 1) checkout refl (omega int_laws) refl

request-Step : Step funded requested
unfolding lookup insert adjust erase get set_nx compare_del has_key create acquire release with_lock
    find_one_and_update ensure_wallet credit_deposit process_stripe_deposit check_hold
    request_withdrawal pending_withdrawal debit_withdrawal approve_withdrawal debit_order deduct
    ◌+ℤ◌ ◌-ℤ◌ balance_of net effect
request-Step = withdraw cfg (call later 2) member (dollars 60) refl refl

approve-Step : Step requested approved
unfolding lookup insert adjust erase get set_nx compare_del has_key create acquire release with_lock
    find_one_and_update ensure_wallet credit_deposit process_stripe_deposit check_hold
    request_withdrawal pending_withdrawal debit_withdrawal approve_withdrawal debit_order deduct
    ◌+ℤ◌ ◌-ℤ◌ balance_of net effect
approve-Step = approve cfg (call later 3) 2 "cms" member refl

empty-Agree : Agree empty.wallets empty.transactions
unfolding lookup insert adjust erase get set_nx compare_del has_key create acquire release with_lock
    find_one_and_update ensure_wallet credit_deposit process_stripe_deposit check_hold
    request_withdrawal pending_withdrawal debit_withdrawal approve_withdrawal debit_order deduct
    ◌+ℤ◌ ◌-ℤ◌ balance_of net effect
empty-Agree user = refl

empty-NonNegative : NonNegative empty.wallets
unfolding lookup insert adjust erase get set_nx compare_del has_key create acquire release with_lock
    find_one_and_update ensure_wallet credit_deposit process_stripe_deposit check_hold
    request_withdrawal pending_withdrawal debit_withdrawal approve_withdrawal debit_order deduct
    ◌+ℤ◌ ◌-ℤ◌ balance_of net effect
empty-NonNegative user = omega int_laws

Step-Moves_example : Moves (ledger requested) (ledger approved)
Step-Moves_example = Step-Moves approve-Step

whole_run : Steps empty approved
whole_run = then_ (then_ (then_ start deposit-Step) request-Step) approve-Step

Steps-Agree_example : Agree approved.wallets approved.transactions
Steps-Agree_example = Steps-Agree whole_run empty-Agree

Steps-NonNegative_example : NonNegative approved.wallets
Steps-NonNegative_example = Steps-NonNegative whole_run empty-NonNegative

-- The record of the approved withdrawal.
abbrev settled_waiting : Transaction
settled_waiting = complete (call later 3) (dollars 40) (some "cms") waiting

abbrev declined : Db
declined = (reject_withdrawal (call later 5) 2 "late" "cms" member approved).1

decline-Step : Step approved declined
decline-Step = decline (call later 5) 2 "late" "cms" member refl

approved_record : lookup 2 approved.transactions ≡ some settled_waiting
unfolding lookup insert adjust erase get set_nx compare_del has_key create acquire release with_lock
    find_one_and_update ensure_wallet credit_deposit process_stripe_deposit check_hold
    request_withdrawal pending_withdrawal debit_withdrawal approve_withdrawal debit_order deduct
    ◌+ℤ◌ ◌-ℤ◌ balance_of net effect
approved_record = refl

not_pending : settled_waiting.status ≢ pending
not_pending e = ground (arith, e)

Steps-closed_example : lookup 2 declined.transactions ≡ some settled_waiting
Steps-closed_example = Steps-closed 2 (then_ start decline-Step) approved_record not_pending

pub waiting_found : lookup 2 requested.transactions ≡ some waiting
unfolding lookup insert adjust erase get set_nx compare_del has_key create acquire release with_lock
    find_one_and_update ensure_wallet credit_deposit process_stripe_deposit check_hold
    request_withdrawal pending_withdrawal debit_withdrawal approve_withdrawal debit_order deduct
    ◌+ℤ◌ ◌-ℤ◌ balance_of net effect
waiting_found = refl

requested_wallet : lookup 7 requested.wallets ≡ some (holding 100)
unfolding lookup insert adjust erase get set_nx compare_del has_key create acquire release with_lock
    find_one_and_update ensure_wallet credit_deposit process_stripe_deposit check_hold
    request_withdrawal pending_withdrawal debit_withdrawal approve_withdrawal debit_order deduct
    ◌+ℤ◌ ◌-ℤ◌ balance_of net effect
requested_wallet = refl

pub requested_free : get later 7 requested.locks ≡ none
unfolding lookup insert adjust erase get set_nx compare_del has_key create acquire release with_lock
    find_one_and_update ensure_wallet credit_deposit process_stripe_deposit check_hold
    request_withdrawal pending_withdrawal debit_withdrawal approve_withdrawal debit_order deduct
    ◌+ℤ◌ ◌-ℤ◌ balance_of net effect
requested_free = refl

cms_named : ◌≢◌ {A = String} "cms" ""
cms_named e = absurd (ground (arith, (eq_iff "cms" "").1 e))

approve_withdrawal_covered_example :
    let (r, after) = approve_withdrawal cfg (call later 3) 2 "cms" member requested in
    (r ≡ ok tt)
    × (lookup 7 after.wallets ≡ some (record (holding 100) { balance = dollars 100 -ℤ dollars 60 }))
    × (lookup 2 after.transactions
        ≡ some (record waiting {
          status = completed;
          balance_after = some (dollars 100 -ℤ dollars 60);
          processed_at = some later;
          processed_by_cms_user_id = some "cms";
        }))
    × ((k : ℕ) → k ≢ 7 → lookup k after.wallets ≡ lookup k requested.wallets)
    × ((k : ℕ) → k ≢ 2 → lookup k after.transactions ≡ lookup k requested.transactions)
    × (get later 7 after.locks ≡ none)
approve_withdrawal_covered_example =
    approve_withdrawal_covered cfg (call later 3) 2 "cms" member requested waiting (holding 100)
      waiting_found refl refl requested_wallet (omega int_laws) cms_named requested_free

bought_found : lookup 2 bought.transactions ≡ some waiting
unfolding lookup insert adjust erase get set_nx compare_del has_key create acquire release with_lock
    find_one_and_update ensure_wallet credit_deposit process_stripe_deposit check_hold
    request_withdrawal pending_withdrawal debit_withdrawal approve_withdrawal debit_order deduct
    ◌+ℤ◌ ◌-ℤ◌ balance_of net effect
bought_found = refl

bought_wallet : lookup 7 bought.wallets ≡ some (holding 10)
unfolding lookup insert adjust erase get set_nx compare_del has_key create acquire release with_lock
    find_one_and_update ensure_wallet credit_deposit process_stripe_deposit check_hold
    request_withdrawal pending_withdrawal debit_withdrawal approve_withdrawal debit_order deduct
    ◌+ℤ◌ ◌-ℤ◌ balance_of net effect
bought_wallet = refl

bought_free : get later 7 bought.locks ≡ none
unfolding lookup insert adjust erase get set_nx compare_del has_key create acquire release with_lock
    find_one_and_update ensure_wallet credit_deposit process_stripe_deposit check_hold
    request_withdrawal pending_withdrawal debit_withdrawal approve_withdrawal debit_order deduct
    ◌+ℤ◌ ◌-ℤ◌ balance_of net effect
bought_free = refl

approve_withdrawal_short_example :
    let (r, after) = approve_withdrawal cfg (call later 5) 2 "cms" member bought in
    (r ≡ err auto_rejected)
    × (after.wallets ≡ bought.wallets)
    × (lookup 2 after.transactions
        ≡ some (record waiting {
          status = rejected;
          rejection_reason = some "Insufficient balance at time of approval";
          processed_at = some later;
          processed_by_cms_user_id = some "cms";
        }))
    × ((k : ℕ) → k ≢ 2 → lookup k after.transactions ≡ lookup k bought.transactions)
    × (get later 7 after.locks ≡ none)
approve_withdrawal_short_example =
    approve_withdrawal_short cfg (call later 5) 2 "cms" member bought waiting (holding 10)
      bought_found refl refl bought_wallet (omega int_laws) cms_named bought_free

request_answers : (request_withdrawal cfg (call later 2) member (dollars 60) funded).0 ≡ ok 2
unfolding lookup insert adjust erase get set_nx compare_del has_key create acquire release with_lock
    find_one_and_update ensure_wallet credit_deposit process_stripe_deposit check_hold
    request_withdrawal pending_withdrawal debit_withdrawal approve_withdrawal debit_order deduct
    ◌+ℤ◌ ◌-ℤ◌ balance_of net effect
request_answers = refl

request_withdrawal_accepted_example :
    ((w : Wallet) × (lookup 7 funded.wallets ≡ some w)
      × (dollars 60 ≤ℤ w.balance)
      × ((last : ℕ) → w.last_deposit_at ≡ some last → last + hold_ms cfg ≤ later))
    × (requested.wallets ≡ funded.wallets)
request_withdrawal_accepted_example =
    request_withdrawal_accepted cfg (call later 2) member (dollars 60) funded 2 request_answers

funded_wallet : lookup 7 funded.wallets ≡ some (holding 100)
unfolding lookup insert adjust erase get set_nx compare_del has_key create acquire release with_lock
    find_one_and_update ensure_wallet credit_deposit process_stripe_deposit check_hold
    request_withdrawal pending_withdrawal debit_withdrawal approve_withdrawal debit_order deduct
    ◌+ℤ◌ ◌-ℤ◌ balance_of net effect
funded_wallet = refl

request_withdrawal_early_example :
    (hrs : ℕ) × (request_withdrawal cfg (call 5 2) member (dollars 60) funded
      ≡ (err (holding_period hrs), funded))
    × (0 + hold_ms cfg ≤ 5 + hrs * ms_per_hr)
    × (5 + hrs * ms_per_hr < 0 + hold_ms cfg + ms_per_hr)
request_withdrawal_early_example =
    request_withdrawal_early cfg (call 5 2) member (dollars 60) funded (holding 100) 0 funded_wallet
      refl (omega arith)

order_new : has_key (deduct_key "o1") requested.transactions ≡ false
unfolding lookup insert adjust erase get set_nx compare_del has_key create acquire release with_lock
    find_one_and_update ensure_wallet credit_deposit process_stripe_deposit check_hold
    request_withdrawal pending_withdrawal debit_withdrawal approve_withdrawal debit_order deduct
    ◌+ℤ◌ ◌-ℤ◌ balance_of net effect
order_new = refl

order_answers : (deduct cfg (call later 4) 7 (dollars 90) "o1" requested).0 ≡ ok (dollars 10)
unfolding lookup insert adjust erase get set_nx compare_del has_key create acquire release with_lock
    find_one_and_update ensure_wallet credit_deposit process_stripe_deposit check_hold
    request_withdrawal pending_withdrawal debit_withdrawal approve_withdrawal debit_order deduct
    ◌+ℤ◌ ◌-ℤ◌ balance_of net effect
order_answers = refl

deduct-Debited_run : Debited 7 (dollars 90) (dollars 10) (deduct_key "o1") requested bought
deduct-Debited_run =
    deduct-Debited cfg (call later 4) 7 (dollars 90) (dollars 10) "o1" requested order_new
      order_answers

-- The order is asked for again after another deposit of 100.
abbrev second_checkout : StripeDepositInput
second_checkout = record checkout { idempotency_key = "deposit:2" }

abbrev richer : Db
richer = (process_stripe_deposit cfg (call (later + 1) 8) second_checkout bought).1

second-Step : Step bought richer
unfolding lookup insert adjust erase get set_nx compare_del has_key create acquire release with_lock
    find_one_and_update ensure_wallet credit_deposit process_stripe_deposit check_hold
    request_withdrawal pending_withdrawal debit_withdrawal approve_withdrawal debit_order deduct
    ◌+ℤ◌ ◌-ℤ◌ balance_of net effect
second-Step = stripe_webhook cfg (call (later + 1) 8) second_checkout refl (omega int_laws) refl

deduct_once_example :
    (w : Wallet) × (lookup 7 richer.wallets ≡ some w)
    × (deduct cfg (call later 6) 7 (dollars 20) "o1" richer ≡ (ok w.balance, richer))
deduct_once_example =
    deduct_once cfg cfg (call later 4) (call later 6) 7 (dollars 90) (dollars 20) (dollars 10) "o1"
      requested order_new order_answers (then_ start second-Step)

pub funded-NonNegative : NonNegative requested.wallets
funded-NonNegative =
    Steps-NonNegative (then_ (then_ start deposit-Step) request-Step) empty-NonNegative
