-- ===== src/Wallet/Race.antt =====
-- Several `approveWithdrawal` calls for one transaction
-- (apps/wallet-service/src/modules/wallet/wallet.service.ts), interleaved at their `await`s: each step is
-- one round trip to MongoDB or Redis, and a schedule says whose step is next.
pub mod Solvent
pub mod Double
pub mod Tests
use eurisko_final_proejct.Base.{
  ℕ, String, Option, none, some, List, [], ◌∷◌, ok, err, ◌==◌, if◌then◌else◌,
}
use eurisko_final_proejct.Base.Int.{ℤ, ◌-ℤ◌}
use eurisko_final_proejct.Wallet.Data.{
  Wallet, Transaction, MemberContext, Db, Error, wallet_locked, auto_rejected, Call, Config,
}
use eurisko_final_proejct.Wallet.Transactions.{mark_completed, mark_rejected}
use eurisko_final_proejct.Wallet.Lock.{acquire, release}
use eurisko_final_proejct.Wallet.Service.{
  pending_withdrawal, find_one_and_update, covers, debited, too_low,
}

-- Where a call is: before its first read; with the transaction that it has validated; inside the lock;
-- after the debit was taken or refused; before the release; at its end, with its error if it has one.
pub data Pc : Type 0 where
  fetch : Pc
  validated inside refused : Transaction → Pc
  paid : Transaction → Wallet → Pc
  closing : Transaction → Option Error → Pc
  finished : Option Error → Pc

module _ (cfg : Config) (id : ℕ) (cms_user : String) where
  -- The next round trip of a call.
  unfoldable pub advance : Call → Pc → Db → Pc × Db
  advance c fetch db =
      let (r, d) = pending_withdrawal id db in
      elim r [ ok t ↦ (validated t, d) | err e ↦ (finished (some e), d) ]
  advance c (validated t) db =
      let (r, d) = acquire cfg c t.user_id db in
      elim r [
        | ok token ↦ elim token [
          | some _ ↦ (inside t, d)
          | none ↦ (finished (some wallet_locked), d)
        ]
        | err e ↦ (finished (some e), d)
      ]
  advance c (inside t) db =
      let (r, d) = find_one_and_update t.user_id (covers t.amount) (debited t.amount) db in
      elim r [
        | ok updated ↦ elim updated [ some w ↦ (paid t w, d) | none ↦ (refused t, d) ]
        | err e ↦ (closing t (some e), d)
      ]
  advance c (paid t w) db = (closing t none, (mark_completed c id w.balance (some cms_user) db).1)
  advance c (refused t) db =
      (closing t (some auto_rejected), (mark_rejected c id too_low (some cms_user) db).1)
  advance c (closing t r) db = (finished r, release c t.user_id c.lock_token db)
  advance c (finished r) db = (finished r, db)

pub record System : Type 0 where
  pub db : Db
  pub pc : ℕ → Pc

abbrev pub begin : Db → System
begin db = record { db = db; pc = λ _. fetch }

abbrev pub set_pc : (ℕ → Pc) → ℕ → Pc → ℕ → Pc
set_pc f i p j = if i == j then p else f j

module _ (cfg : Config) (id : ℕ) (cms_user : String) (calls : ℕ → Call) where
  unfoldable pub step : ℕ → System → System
  step i s =
      let (p, d) = advance cfg id cms_user (calls i) (s.pc i) s.db in
      record { db = d; pc = set_pc s.pc i p }

  unfoldable pub run : List ℕ → System → System
  run [] s = s
  run (i ∷ is) s = run is (step i s)
