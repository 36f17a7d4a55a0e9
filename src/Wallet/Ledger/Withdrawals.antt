-- ===== src/Wallet/Ledger/Withdrawals.antt =====
-- The withdrawal workflow is a run of the ledger.
use eurisko_final_proejct.Base.{
  ℕ, String, ◌≡◌, refl, none, some, inl, inr, Option-cases, Bool-cases, arith, Action,
}
use eurisko_final_proejct.Base.Int.{ℤ, pos, ◌-ℤ◌, ◌≤ℤ◌, sub-eq-add, sub_nonneg}
use eurisko_final_proejct.Base.Store.{lookup, adjust}
use eurisko_final_proejct.Wallet.Data.{
  withdrawal, pending, Wallet, Transaction, MemberContext, Db, Call, Config, Error,
}
use eurisko_final_proejct.Wallet.Transactions.{reject}
use eurisko_final_proejct.Wallet.Service.{
  too_low, covers, debited, debit_withdrawal, approve_withdrawal, reject_withdrawal,
  request_withdrawal,
}
use eurisko_final_proejct.Wallet.Lock.{with_lock, release}
use eurisko_final_proejct.Wallet.Outcomes.{
  with_lock-cases, find_one_and_update-missing, find_one_and_update-done,
  find_one_and_update-refused,
}
use eurisko_final_proejct.Wallet.Outcomes.Withdrawals.{
  debit_withdrawal-short, debit_withdrawal-done, pending_withdrawal-cases,
  approve_withdrawal-refused, approve_withdrawal-passed, reject_withdrawal-refused,
  reject_withdrawal-done, request_withdrawal-cases,
}
use eurisko_final_proejct.Wallet.Ledger.Machine.{Ledger, Pays, Reached, IsReached}
use eurisko_final_proejct.Wallet.Ledger.Moves.{Reached-reject, Reached-settle, Reached-new_record}

-- The lock is no part of the invariant, so what the body keeps the locked handler keeps.
pub with_lock-IsReached :
    {a : Ledger} {A : Type 0} (cfg : Config) (c : Call) (user : ℕ) (body : Action Db Error A)
    (db : Db)
    → ((d : Db)
        → d.wallets ≡ db.wallets
        → d.transactions ≡ db.transactions
        → IsReached a d
        → IsReached a (body d).1)
    → IsReached a db
    → IsReached a (with_lock cfg c user body db).1
unfolding release
with_lock-IsReached cfg c user body db keeps s = elim (with_lock-cases cfg c user body db) [
  | inl busy ↦ rw busy s
  | inr (locks, free, ran) ↦ rw ran (keeps (record db { locks = locks }) refl refl s)
]

-- A debit that is covered.
pub debited-Pays :
    (amount : ℤ) (w : Wallet) → amount ≤ℤ w.balance → Pays (pos 0 -ℤ amount) w (debited amount w)
debited-Pays amount w covered = record {
  moved = sub-eq-add w.balance amount;
  solvent = λ _. sub_nonneg amount w.balance covered;
}

pub debit_withdrawal-IsReached :
    {a : Ledger} (c : Call) (id : ℕ) (t : Transaction) (cms_user : String) (m : MemberContext)
    (db : Db)
    → lookup id db.transactions ≡ some t
    → t.type_of ≡ withdrawal
    → t.status ≡ pending
    → IsReached a db
    → IsReached a (debit_withdrawal c id t cms_user m db).1
debit_withdrawal-IsReached {a} c id t cms_user m db found kind waiting s =
    elim (Option-cases (lookup t.user_id db.wallets)) [
      | inl missing ↦
          rw
            (debit_withdrawal-short c id t cms_user m db
              (find_one_and_update-missing _ _ _ db missing))
            rejects
      | inr (w, held) ↦ elim (Bool-cases (covers t.amount w)) [
        | inl enough ↦
            rw
              (debit_withdrawal-done c id t cms_user m db w
                (find_one_and_update-done _ _ _ db held enough))
              (Reached-settle c id (debited t.amount) w t (w.balance -ℤ t.amount) (some cms_user)
                held found waiting (rw kind (debited-Pays t.amount w (ground arith))) s)
        | inr short ↦
            rw
              (debit_withdrawal-short c id t cms_user m db
                (find_one_and_update-refused _ _ _ db held short))
              rejects
      ]
    ]
  where
    rejects : Reached a db.wallets (adjust id (reject c too_low (some cms_user)) db.transactions)
    rejects = Reached-reject c id too_low (some cms_user) t found waiting s

pub approve_withdrawal-IsReached :
    {a : Ledger} (cfg : Config) (c : Call) (id : ℕ) (cms_user : String) (m : MemberContext)
    (db : Db)
    → IsReached a db
    → IsReached a (approve_withdrawal cfg c id cms_user m db).1
approve_withdrawal-IsReached cfg c id cms_user m db s = elim (pending_withdrawal-cases id db) [
  | inl (e, refused) ↦ rw (approve_withdrawal-refused cfg c id cms_user m db refused) s
  | inr (t, passed, found, kind, waiting) ↦
      rw (approve_withdrawal-passed cfg c id cms_user m db passed) (
        with_lock-IsReached cfg c t.user_id (debit_withdrawal c id t cms_user m) db
          (λ d _ same sound.
            debit_withdrawal-IsReached c id t cms_user m d (rw same found) kind waiting sound)
          s)
]

pub reject_withdrawal-IsReached :
    {a : Ledger} (c : Call) (id : ℕ) (reason cms_user : String) (m : MemberContext) (db : Db)
    → IsReached a db
    → IsReached a (reject_withdrawal c id reason cms_user m db).1
reject_withdrawal-IsReached c id reason cms_user m db s = elim (pending_withdrawal-cases id db) [
  | inl (e, refused) ↦ rw (reject_withdrawal-refused c id reason cms_user m db refused) s
  | inr (t, passed, found, kind, waiting) ↦
      rw (reject_withdrawal-done c id reason cms_user m db passed)
        (Reached-reject c id reason (some cms_user) t found waiting s)
]

pub request_withdrawal-IsReached :
    {a : Ledger} (cfg : Config) (c : Call) (m : MemberContext) (amount : ℤ) (db : Db)
    → lookup c.new_id db.transactions ≡ none
    → IsReached a db
    → IsReached a (request_withdrawal cfg c m amount db).1
request_withdrawal-IsReached cfg c m amount db fresh s =
    elim (request_withdrawal-cases cfg c m amount db) [
      | inl (e, refused) ↦ rw refused s
      | inr (w, held, created) ↦ rw created (Reached-new_record c.new_id _ fresh refl s)
    ]
