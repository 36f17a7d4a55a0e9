-- ===== src/Wallet/Race/Tests.antt =====
-- Two approvals of one withdrawal.

use eurisko_final_proejct.Base.{◌+◌, ◌≡◌, refl, none, some, [], ◌∷◌, arith}
use eurisko_final_proejct.Base.Int.{◌+ℤ◌, ◌-ℤ◌, int_laws}
use eurisko_final_proejct.Base.Store.{lookup, insert, adjust, erase}
use eurisko_final_proejct.Redis.{get, set_nx, compare_del}
use eurisko_final_proejct.Wallet.Data.{Db}
use eurisko_final_proejct.Wallet.Transactions.{has_key, create}
use eurisko_final_proejct.Wallet.Lock.{acquire, release, with_lock}
use eurisko_final_proejct.Wallet.Service.{
  find_one_and_update, ensure_wallet, credit_deposit, process_stripe_deposit, check_hold,
  request_withdrawal, pending_withdrawal, debit_withdrawal, approve_withdrawal,
}
use eurisko_final_proejct.Wallet.Internal.{debit_order, deduct}
use eurisko_final_proejct.Wallet.Ledger.{NonNegative, balance_of, net, effect}
use eurisko_final_proejct.Wallet.Calls.Tests.{
  cfg, call, dollars, later, requested, waiting, holding,
}
use eurisko_final_proejct.Wallet.Race.{begin, run, finished}
use eurisko_final_proejct.Wallet.Race.Solvent.{run-NonNegative}
use eurisko_final_proejct.Wallet.Race.Double.{run-double, both_validate_first}
use eurisko_final_proejct.Wallet.Examples.{waiting_found, requested_free, funded-NonNegative}

run-NonNegative_example :
    NonNegative
      (run cfg 2 "cms" (λ _. call later 3) (0 ∷ 1 ∷ 1 ∷ 0 ∷ 1 ∷ []) (begin requested)).db.wallets
run-NonNegative_example =
    run-NonNegative cfg 2 "cms" (λ _. call later 3) (0 ∷ 1 ∷ 1 ∷ 0 ∷ 1 ∷ []) (begin requested)
      funded-NonNegative

-- A wallet that covers the withdrawal of 60 twice.
abbrev rich : Db
rich = record requested { wallets = (7, holding 150) ∷ [] }

rich_wallet : lookup 7 rich.wallets ≡ some (holding 150)
unfolding lookup insert adjust erase get set_nx compare_del has_key create acquire release with_lock
    find_one_and_update ensure_wallet credit_deposit process_stripe_deposit check_hold
    request_withdrawal pending_withdrawal debit_withdrawal approve_withdrawal debit_order deduct
    ◌+ℤ◌ ◌-ℤ◌ balance_of net effect
rich_wallet = refl

run-double_example :
    let s = run cfg 2 "cms" (λ i. call (later + i) 3) both_validate_first (begin rich) in
    (s.pc 0 ≡ finished none)
    × (s.pc 1 ≡ finished none)
    × (lookup 7 s.db.wallets
        ≡ some (record (holding 150) { balance = dollars 150 -ℤ dollars 60 -ℤ dollars 60 }))
run-double_example =
    run-double cfg 2 "cms" (λ i. call (later + i) 3) rich waiting (holding 150) waiting_found refl
      refl rich_wallet (omega int_laws) (omega int_laws) requested_free (omega arith)
