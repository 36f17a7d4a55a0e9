-- ===== src/Wallet/Lock/Tests.antt =====
-- The wallet's lock, free and in other hands.
use text.Mathlib.TextEquality.{eq_iff}
use eurisko_final_proejct.Base.{ℕ, ◌≡◌, ◌≢◌, refl, none, some, [], ◌∷◌, err, arith}
use eurisko_final_proejct.Base.Int.{◌+ℤ◌, ◌-ℤ◌}
use eurisko_final_proejct.Base.Store.{lookup, insert, adjust, erase}
use eurisko_final_proejct.Redis.{Entry, get, set_nx, compare_del}
use eurisko_final_proejct.Wallet.Data.{Db, wallet_locked}
use eurisko_final_proejct.Wallet.Transactions.{has_key, create}
use eurisko_final_proejct.Wallet.Lock.{acquire, release, with_lock}
use eurisko_final_proejct.Wallet.Lock.Exclusion.{with_lock-held, with_lock-released, release-late}
use eurisko_final_proejct.Wallet.Service.{
  find_one_and_update, ensure_wallet, credit_deposit, process_stripe_deposit, check_hold,
  request_withdrawal, pending_withdrawal, debit_withdrawal, approve_withdrawal, get_wallet,
}
use eurisko_final_proejct.Wallet.Internal.{debit_order, deduct}
use eurisko_final_proejct.Wallet.Ledger.{balance_of, net, effect}
use eurisko_final_proejct.Wallet.Calls.Tests.{cfg, call, empty}

-- The lock of user 7 in other hands until 9.
abbrev other : Entry
other = record { value = "other"; expires_at = 9 }

abbrev busy : Db
busy = record empty { locks = (7, other) ∷ [] }

held_by_other : get 5 7 busy.locks ≡ some other
unfolding lookup insert adjust erase get set_nx compare_del has_key create acquire release with_lock
    find_one_and_update ensure_wallet credit_deposit process_stripe_deposit check_hold
    request_withdrawal pending_withdrawal debit_withdrawal approve_withdrawal debit_order deduct
    ◌+ℤ◌ ◌-ℤ◌ balance_of net effect
held_by_other = refl

with_lock-held_run : with_lock cfg (call 5 1) 7 (get_wallet 7) busy ≡ (err wallet_locked, busy)
with_lock-held_run = with_lock-held cfg (call 5 1) 7 (get_wallet 7) busy held_by_other

busy_free : get 20 7 busy.locks ≡ none
unfolding lookup insert adjust erase get set_nx compare_del has_key create acquire release with_lock
    find_one_and_update ensure_wallet credit_deposit process_stripe_deposit check_hold
    request_withdrawal pending_withdrawal debit_withdrawal approve_withdrawal debit_order deduct
    ◌+ℤ◌ ◌-ℤ◌ balance_of net effect
busy_free = refl

with_lock-released_run :
    (get 20 7 (with_lock cfg (call 20 1) 7 (get_wallet 7) busy).1.locks ≡ none)
    × ((k : ℕ)
        → 7 ≢ k
        → lookup k (with_lock cfg (call 20 1) 7 (get_wallet 7) busy).1.locks ≡ lookup k busy.locks)
unfolding lookup insert adjust erase get set_nx compare_del has_key create acquire release with_lock
    find_one_and_update ensure_wallet credit_deposit process_stripe_deposit check_hold
    request_withdrawal pending_withdrawal debit_withdrawal approve_withdrawal debit_order deduct
    ◌+ℤ◌ ◌-ℤ◌ balance_of net effect
with_lock-released_run = with_lock-released cfg (call 20 1) 7 (get_wallet 7) busy busy_free refl

tokens_differ : other.value ≢ "token"
tokens_differ e = ground (arith, (eq_iff other.value "token").1 e)

release-late_run : release (call 5 1) 7 "token" busy ≡ busy
release-late_run = release-late (call 5 1) 7 "token" busy held_by_other tokens_differ
