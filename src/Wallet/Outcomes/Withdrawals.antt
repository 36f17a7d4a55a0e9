-- ===== src/Wallet/Outcomes/Withdrawals.antt =====
-- How `requestWithdrawal`, `approveWithdrawal` and `rejectWithdrawal` end, inside the lock.
use mathlib.Core.Option.{get_or}
use eurisko_final_proejct.Base.{
  ℕ, String, ◌≡◌, refl, none, some, false, [], ◌∷◌, ◌++◌, ok, err, true, arith, ◌+◌, ◌*◌, ◌-◌, ltb,
  Option, ◌⊎◌, inl, inr, Option-cases, Bool-cases,
}
use eurisko_final_proejct.Base.Int.{ℤ, ◌-ℤ◌, ltb_ℤ}
use eurisko_final_proejct.Base.Store.{lookup, insert, adjust}
use eurisko_final_proejct.Wallet.Data.{
  withdrawal, pending, Wallet, Transaction, withdrawal_processed, withdrawal_requested, Db,
  duplicate_key, holding_period, Error, transaction_not_found, not_a_withdrawal, already_settled,
  wallet_not_found, TransactionStatus, TransactionType, auto_rejected, insufficient_balance,
  MemberContext, Call, Config,
}
use eurisko_final_proejct.Wallet.Transactions.{complete, reject, create, document, has_key}
use eurisko_final_proejct.Wallet.Service.{
  ms_per_hr, ceil_hrs, is_pending, is_withdrawal, find_one_and_update, covers, debited, too_low,
  pending_withdrawal, debit_withdrawal, approve_withdrawal, reject_withdrawal, check_hold,
  withdrawal_record, withdrawal_key, request_withdrawal,
}
use eurisko_final_proejct.Wallet.Lock.{with_lock}

module _ (c : Call) (id : ℕ) (t : Transaction) (cms_user : String) (m : MemberContext)
    (db : Db) where
  -- The database refused the debit.
  pub debit_withdrawal-short :
      find_one_and_update t.user_id (covers t.amount) (debited t.amount) db ≡ (ok none, db)
      → debit_withdrawal c id t cms_user m db ≡ (
        err auto_rejected,
        record db {
          transactions = adjust id (reject c too_low (some cms_user)) db.transactions;
          events =
              db.events
              ++ withdrawal_processed m.user_id m.email m.name t.amount false
                  (some too_low)
                  t.currency
                  id
                ∷ [];
        },
      )
  unfolding debit_withdrawal
  debit_withdrawal-short e = ground arith

  -- The database took the amount.
  pub debit_withdrawal-done :
      (w : Wallet)
      → find_one_and_update t.user_id (covers t.amount) (debited t.amount) db ≡ (
        ok (some (debited t.amount w)),
        record db { wallets = adjust t.user_id (debited t.amount) db.wallets },
      )
      → debit_withdrawal c id t cms_user m db ≡ (
        ok tt,
        record db {
          wallets = adjust t.user_id (debited t.amount) db.wallets;
          transactions =
              adjust id (complete c (w.balance -ℤ t.amount) (some cms_user)) db.transactions;
          events =
              db.events
              ++ withdrawal_processed m.user_id m.email m.name t.amount true none t.currency id
                ∷ [];
        },
      )
  unfolding debit_withdrawal
  debit_withdrawal-done w e = ground arith

pub pending_withdrawal-ok :
    (id : ℕ) (db : Db) {t : Transaction}
    → lookup id db.transactions ≡ some t
    → t.type_of ≡ withdrawal
    → t.status ≡ pending
    → pending_withdrawal id db ≡ (ok t, db)
unfolding pending_withdrawal
pending_withdrawal-ok id db found kind waiting = ground arith

is_pending-eq : (s : TransactionStatus) → is_pending s ≡ true → s ≡ pending
is_pending-eq s h = ground arith

is_withdrawal-eq : (t : TransactionType) → is_withdrawal t ≡ true → t ≡ withdrawal
is_withdrawal-eq t h = ground arith

-- The shared validation changes nothing, and passes exactly a pending withdrawal.
pub pending_withdrawal-cases :
    (id : ℕ) (db : Db)
    → ((e : Error) × (pending_withdrawal id db ≡ (err e, db)))
      ⊎ ((t : Transaction) × (pending_withdrawal id db ≡ (ok t, db))
          × (lookup id db.transactions ≡ some t)
          × (t.type_of ≡ withdrawal)
          × (t.status ≡ pending))
unfolding pending_withdrawal
pending_withdrawal-cases id db = elim (Option-cases (lookup id db.transactions)) [
  | inl unknown ↦ inl (transaction_not_found, ground arith)
  | inr (t, found) ↦ elim (Bool-cases (is_withdrawal t.type_of)) [
    | inr other ↦ inl (not_a_withdrawal, ground arith)
    | inl kind ↦ elim (Bool-cases (is_pending t.status)) [
      | inr settled ↦ inl (already_settled t.status, ground arith)
      | inl waiting ↦
          inr (
            t,
            ground arith,
            found,
            is_withdrawal-eq t.type_of kind,
            is_pending-eq t.status waiting,
          )
    ]
  ]
]

pub approve_withdrawal-refused :
    (cfg : Config) (c : Call) (id : ℕ) (cms_user : String) (m : MemberContext) (db : Db) {e : Error}
    → pending_withdrawal id db ≡ (err e, db)
    → approve_withdrawal cfg c id cms_user m db ≡ (err e, db)
unfolding approve_withdrawal
approve_withdrawal-refused cfg c id cms_user m db refused = ground arith

pub reject_withdrawal-refused :
    (c : Call) (id : ℕ) (reason cms_user : String) (m : MemberContext) (db : Db) {e : Error}
    → pending_withdrawal id db ≡ (err e, db)
    → reject_withdrawal c id reason cms_user m db ≡ (err e, db)
unfolding reject_withdrawal
reject_withdrawal-refused c id reason cms_user m db refused = ground arith

pub approve_withdrawal-passed :
    (cfg : Config) (c : Call) (id : ℕ) (cms_user : String) (m : MemberContext) (db : Db)
    {t : Transaction}
    → pending_withdrawal id db ≡ (ok t, db)
    → approve_withdrawal cfg c id cms_user m db
      ≡ with_lock cfg c t.user_id (debit_withdrawal c id t cms_user m) db
unfolding approve_withdrawal
approve_withdrawal-passed cfg c id cms_user m db e = ground arith

pub reject_withdrawal-done :
    (c : Call) (id : ℕ) (reason cms_user : String) (m : MemberContext) (db : Db) {t : Transaction}
    → pending_withdrawal id db ≡ (ok t, db)
    → reject_withdrawal c id reason cms_user m db ≡ (
      ok tt,
      record db {
        transactions = adjust id (reject c reason (some cms_user)) db.transactions;
        events =
            db.events
            ++ withdrawal_processed t.user_id m.email m.name t.amount false
                (some reason)
                t.currency
                id
              ∷ [];
      },
    )
unfolding reject_withdrawal
reject_withdrawal-done c id reason cms_user m db e = ground arith

check_hold-cases :
    (cfg : Config) (c : Call) (last : Option ℕ) (db : Db)
    → ((e : Error) × (check_hold cfg c last db ≡ (err e, db)))
      ⊎ (check_hold cfg c last db ≡ (ok tt, db))
unfolding check_hold
check_hold-cases cfg c none db = inr refl
check_hold-cases cfg c (some last) db =
    elim (Bool-cases (ltb c.now (last + get_or cfg.withdrawal_hold_hrs 48 * ms_per_hr))) [
      | inl early ↦ inl (
        holding_period (ceil_hrs (last + get_or cfg.withdrawal_hold_hrs 48 * ms_per_hr - c.now)),
        rw early,
      )
      | inr late ↦ inr (rw late)
    ]

-- A request throws and changes nothing, or adds a pending record and moves no money.
pub request_withdrawal-cases :
    (cfg : Config) (c : Call) (m : MemberContext) (amount : ℤ) (db : Db)
    → ((e : Error) × (request_withdrawal cfg c m amount db ≡ (err e, db)))
      ⊎ ((w : Wallet) × (lookup m.user_id db.wallets ≡ some w)
          × (request_withdrawal cfg c m amount db ≡ (
            ok c.new_id,
            record db {
              transactions =
                  insert c.new_id
                    (document c (withdrawal_record c m.user_id amount w))
                    db.transactions;
              events =
                  db.events
                  ++ withdrawal_requested m.user_id m.email m.name amount w.currency c.new_id ∷ [];
            },
          )))
unfolding request_withdrawal create
request_withdrawal-cases cfg c m amount db = elim (Option-cases (lookup m.user_id db.wallets)) [
  | inl unknown ↦ inl (wallet_not_found, ground arith)
  | inr (w, held) ↦ elim (check_hold-cases cfg c w.last_deposit_at db) [
    | inl (e, early) ↦ inl (e, ground arith)
    | inr late ↦ elim (Bool-cases (ltb_ℤ w.balance amount)) [
      | inl low ↦ inl (insufficient_balance, ground arith)
      | inr enough ↦ elim (Bool-cases (has_key (withdrawal_key c m.user_id) db.transactions)) [
        | inl taken ↦ inl (duplicate_key, ground arith)
        | inr free ↦ inr (w, held, ground arith)
      ]
    ]
  ]
]
