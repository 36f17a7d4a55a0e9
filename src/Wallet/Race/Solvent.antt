-- ===== src/Wallet/Race/Solvent.antt =====
-- However approvals interleave, no wallet falls below zero: the database tests the balance and takes the
-- amount in one step.
use eurisko_final_proejct.Base.{
  ℕ, String, ◌≡◌, [], ◌∷◌, List, inl, inr, Option-cases, Bool-cases, arith,
}
use eurisko_final_proejct.Base.Int.{ℤ, sub_nonneg}
use eurisko_final_proejct.Base.Store.{lookup}
use eurisko_final_proejct.Wallet.Data.{Transaction, Db, Call, Config}
use eurisko_final_proejct.Wallet.Service.{pending_withdrawal, find_one_and_update, covers, debited}
use eurisko_final_proejct.Wallet.Lock.{acquire, release}
use eurisko_final_proejct.Wallet.Outcomes.{
  find_one_and_update-missing, find_one_and_update-refused, find_one_and_update-done,
}
use eurisko_final_proejct.Wallet.Ledger.{NonNegative}
use eurisko_final_proejct.Wallet.Ledger.Net.{NonNegative-adjust}
use eurisko_final_proejct.Wallet.Race.{
  Pc, fetch, validated, inside, refused, paid, closing, finished, advance, System, step, run,
}

debit-NonNegative :
    (user : ℕ) (amount : ℤ) (db : Db)
    → NonNegative db.wallets
    → NonNegative (find_one_and_update user (covers amount) (debited amount) db).1.wallets
debit-NonNegative user amount db h = elim (Option-cases (lookup user db.wallets)) [
  | inl missing ↦
      rw (find_one_and_update-missing user (covers amount) (debited amount) db missing) h
  | inr (w, held) ↦ elim (Bool-cases (covers amount w)) [
    | inl enough ↦
        rw (find_one_and_update-done user (covers amount) (debited amount) db held enough) (
          NonNegative-adjust user (debited amount) w db.wallets held
            (sub_nonneg amount w.balance (ground arith)) h)
    | inr short ↦
        rw (find_one_and_update-refused user (covers amount) (debited amount) db held short) h
  ]
]

-- The other round trips leave the wallets alone.
pending_withdrawal-wallets : (id : ℕ) (db : Db) → (pending_withdrawal id db).1.wallets ≡ db.wallets
unfolding pending_withdrawal
pending_withdrawal-wallets id db = ground arith

acquire-wallets :
    (cfg : Config) (c : Call) (user : ℕ) (db : Db) → (acquire cfg c user db).1.wallets ≡ db.wallets
unfolding acquire
acquire-wallets cfg c user db = ground arith

module _ (cfg : Config) (id : ℕ) (cms_user : String) where
  advance-wallets_fetch :
      (c : Call) (db : Db)
      → (advance cfg id cms_user c fetch db).1.wallets ≡ (pending_withdrawal id db).1.wallets
  unfolding advance
  advance-wallets_fetch c db = ground arith

  advance-wallets_validated :
      (c : Call) (t : Transaction) (db : Db)
      → (advance cfg id cms_user c (validated t) db).1.wallets
        ≡ (acquire cfg c t.user_id db).1.wallets
  unfolding advance
  advance-wallets_validated c t db = ground arith

  advance-wallets_inside :
      (c : Call) (t : Transaction) (db : Db)
      → (advance cfg id cms_user c (inside t) db).1.wallets
        ≡ (find_one_and_update t.user_id (covers t.amount) (debited t.amount) db).1.wallets
  unfolding advance
  advance-wallets_inside c t db = ground arith

  advance-NonNegative :
      (c : Call) (p : Pc) (db : Db)
      → NonNegative db.wallets
      → NonNegative (advance cfg id cms_user c p db).1.wallets
  unfolding advance release
  advance-NonNegative c fetch db h =
      rw (advance-wallets_fetch c db, pending_withdrawal-wallets id db) h
  advance-NonNegative c (validated t) db h =
      rw (advance-wallets_validated c t db, acquire-wallets cfg c t.user_id db) h
  advance-NonNegative c (inside t) db h =
      rw (advance-wallets_inside c t db) (debit-NonNegative t.user_id t.amount db h)
  advance-NonNegative c (paid t w) db h = h
  advance-NonNegative c (refused t) db h = h
  advance-NonNegative c (closing t r) db h = h
  advance-NonNegative c (finished r) db h = h

-- Whatever the schedule of any number of approvals of one transaction, from any point that they have
-- reached, no wallet is below zero if none was at the start.
pub run-NonNegative :
    (cfg : Config) (id : ℕ) (cms_user : String) (calls : ℕ → Call) (schedule : List ℕ) (s : System)
    → NonNegative s.db.wallets
    → NonNegative (run cfg id cms_user calls schedule s).db.wallets
unfolding run step
run-NonNegative cfg id cms_user calls [] s h = h
run-NonNegative cfg id cms_user calls (i ∷ is) s h =
    run-NonNegative cfg id cms_user calls is (step cfg id cms_user calls i s)
      (advance-NonNegative cfg id cms_user (calls i) (s.pc i) s.db h)
