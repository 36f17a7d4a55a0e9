-- ===== src/Wallet/Approval.antt =====
-- `approveWithdrawal` and `requestWithdrawal`, from the first read to the released lock.
use text.Mathlib.Text.{◌==◌ as str_eq}
use text.Mathlib.TextEquality.{eq_iff}
use mathlib.Core.Option.{get_or}
use eurisko_final_proejct.Base.{
  ℕ, ◌+◌, ◌-◌, ◌*◌, ◌≤◌, ◌<◌, String, ◌≡◌, ◌≢◌, refl, none, some, true, false, ok, err, arith, inl,
  inr, Option-cases, Bool-cases, ap, ◌∙◌,
}
use eurisko_final_proejct.Base.Int.{ℤ, ◌-ℤ◌, ◌≤ℤ◌}
use eurisko_final_proejct.Base.Store.{lookup, lookup-adjust_self, lookup-adjust_ne}
use eurisko_final_proejct.Redis.{get}
use eurisko_final_proejct.Redis.Laws.{get-compare_del}
use eurisko_final_proejct.Wallet.Data.{
  withdrawal, pending, completed, rejected, Wallet, Transaction, MemberContext, Db, Call, Config,
  auto_rejected, holding_period,
}
use eurisko_final_proejct.Wallet.Transactions.{complete, reject, create}
use eurisko_final_proejct.Wallet.Service.{
  covers, debited, debit_withdrawal, approve_withdrawal, too_low, check_hold, request_withdrawal,
  ms_per_hr, ceil_hrs,
}
use eurisko_final_proejct.Wallet.Lock.{release, ttl}
use eurisko_final_proejct.Wallet.Lock.Exclusion.{locked, with_lock-free}
use eurisko_final_proejct.Wallet.Outcomes.{find_one_and_update-done, find_one_and_update-refused}
use eurisko_final_proejct.Wallet.Outcomes.Withdrawals.{
  debit_withdrawal-short, debit_withdrawal-done, pending_withdrawal-ok, approve_withdrawal-passed,
}

covers_of : (amount : ℤ) (w : Wallet) → amount ≤ℤ w.balance → covers amount w ≡ true
covers_of amount w h = ground arith

not_covers_of : (amount : ℤ) (w : Wallet) → ¬ (amount ≤ℤ w.balance) → covers amount w ≡ false
not_covers_of amount w h = ground arith

not_empty : {s : String} → s ≢ "" → str_eq s "" ≡ false
not_empty {s} ne = elim (Bool-cases (str_eq s "")) [
  | inl same ↦ absurd (ne ((eq_iff s "").0 same))
  | inr other ↦ other
]

module _ (cfg : Config) (c : Call) (id : ℕ) (cms_user : String) (m : MemberContext) (db : Db) where
  -- What completes a record, written out.
  settled_by :
      (t : Transaction) (left : ℤ)
      → cms_user ≢ ""
      → complete c left (some cms_user) t ≡ record t {
        status = completed;
        balance_after = some left;
        processed_at = some c.now;
        processed_by_cms_user_id = some cms_user;
      }
  settled_by t left named = rw (not_empty named) refl

  -- Approving a pending withdrawal that the wallet covers, by a named user of the CMS, with the lock
  -- free: the wallet loses exactly the amount, the record is as it was but completed now, with the
  -- balance that is left and the approver, no other wallet and no other record changes, and the lock
  -- is free again.
  pub approve_withdrawal_covered :
      (t : Transaction) (w : Wallet)
      → lookup id db.transactions ≡ some t
      → t.type_of ≡ withdrawal
      → t.status ≡ pending
      → lookup t.user_id db.wallets ≡ some w
      → t.amount ≤ℤ w.balance
      → cms_user ≢ ""
      → get c.now t.user_id db.locks ≡ none
      → let (r, after) = approve_withdrawal cfg c id cms_user m db in
        (r ≡ ok tt)
        × (lookup t.user_id after.wallets ≡ some (record w { balance = w.balance -ℤ t.amount }))
        × (lookup id after.transactions
            ≡ some (record t {
              status = completed;
              balance_after = some (w.balance -ℤ t.amount);
              processed_at = some c.now;
              processed_by_cms_user_id = some cms_user;
            }))
        × ((k : ℕ) → k ≢ t.user_id → lookup k after.wallets ≡ lookup k db.wallets)
        × ((k : ℕ) → k ≢ id → lookup k after.transactions ≡ lookup k db.transactions)
        × (get c.now t.user_id after.locks ≡ none)
  unfolding release
  approve_withdrawal_covered t w found kind waiting held enough named free =
      let body = debit_withdrawal c id t cms_user m in
      let passed =
        approve_withdrawal-passed cfg c id cms_user m db
          (pending_withdrawal-ok id db found kind waiting) in
      let done =
        debit_withdrawal-done c id t cms_user m (locked cfg c t.user_id body db) w
          (find_one_and_update-done _ _ (debited t.amount) _ held (covers_of t.amount w enough)) in
      rw (passed, with_lock-free cfg c t.user_id body db free, done)
        (
          refl,
          lookup-adjust_self t.user_id (debited t.amount) db.wallets held,
          lookup-adjust_self id (complete c (w.balance -ℤ t.amount) (some cms_user)) db.transactions
                found
              ∙ ap (λ u. some u) (settled_by t (w.balance -ℤ t.amount) named),
          λ k ne. lookup-adjust_ne t.user_id k (debited t.amount) db.wallets ne,
          λ k ne.
              lookup-adjust_ne id k (complete c (w.balance -ℤ t.amount) (some cms_user))
                db.transactions ne,
          get-compare_del c.now t.user_id c.lock_token (ttl cfg) db.locks,
        )

  -- What rejects a record for want of balance, written out.
  refused_by :
      (t : Transaction)
      → cms_user ≢ ""
      → reject c too_low (some cms_user) t ≡ record t {
        status = rejected;
        rejection_reason = some "Insufficient balance at time of approval";
        processed_at = some c.now;
        processed_by_cms_user_id = some cms_user;
      }
  refused_by t named = rw (not_empty named) refl

  -- Approving a pending withdrawal that the wallet no longer covers, by a named user of the CMS, with the
  -- lock free: the caller gets an error, the record is as it was but rejected now, with the reason and
  -- the user who asked, no wallet and no other record changes, and the lock is free again.
  pub approve_withdrawal_short :
      (t : Transaction) (w : Wallet)
      → lookup id db.transactions ≡ some t
      → t.type_of ≡ withdrawal
      → t.status ≡ pending
      → lookup t.user_id db.wallets ≡ some w
      → ¬ (t.amount ≤ℤ w.balance)
      → cms_user ≢ ""
      → get c.now t.user_id db.locks ≡ none
      → let (r, after) = approve_withdrawal cfg c id cms_user m db in
        (r ≡ err auto_rejected)
        × (after.wallets ≡ db.wallets)
        × (lookup id after.transactions
            ≡ some (record t {
              status = rejected;
              rejection_reason = some "Insufficient balance at time of approval";
              processed_at = some c.now;
              processed_by_cms_user_id = some cms_user;
            }))
        × ((k : ℕ) → k ≢ id → lookup k after.transactions ≡ lookup k db.transactions)
        × (get c.now t.user_id after.locks ≡ none)
  unfolding release
  approve_withdrawal_short t w found kind waiting held short named free =
      let body = debit_withdrawal c id t cms_user m in
      let passed =
        approve_withdrawal-passed cfg c id cms_user m db
          (pending_withdrawal-ok id db found kind waiting) in
      let done = debit_withdrawal-short c id t cms_user m (locked cfg c t.user_id body db) (
        find_one_and_update-refused _ _ (debited t.amount) _ held
          (not_covers_of t.amount w short)) in
      rw (passed, with_lock-free cfg c t.user_id body db free, done)
        (
          refl,
          refl,
          lookup-adjust_self id (reject c too_low (some cms_user)) db.transactions found
              ∙ ap (λ u. some u) (refused_by t named),
          λ k ne. lookup-adjust_ne id k (reject c too_low (some cms_user)) db.transactions ne,
          get-compare_del c.now t.user_id c.lock_token (ttl cfg) db.locks,
        )

abbrev pub hold_ms : Config → ℕ
hold_ms cfg = get_or cfg.withdrawal_hold_hrs 48 * ms_per_hr

-- A withdrawal request that is accepted comes from a wallet that covers it and whose last deposit, if
-- there was one, is at least the holding period old; it moves no money.
pub request_withdrawal_accepted :
    (cfg : Config) (c : Call) (m : MemberContext) (amount : ℤ) (db : Db) (id : ℕ)
    → (request_withdrawal cfg c m amount db).0 ≡ ok id
    → ((w : Wallet) × (lookup m.user_id db.wallets ≡ some w)
        × (amount ≤ℤ w.balance)
        × ((last : ℕ) → w.last_deposit_at ≡ some last → last + hold_ms cfg ≤ c.now))
      × ((request_withdrawal cfg c m amount db).1.wallets ≡ db.wallets)
unfolding request_withdrawal check_hold create
request_withdrawal_accepted cfg c m amount db id accepted =
    elim (Option-cases (lookup m.user_id db.wallets)) [
      | inl missing ↦ absurd (ground arith)
      | inr (w, held) ↦ ((w, held, ground arith, λ last e. ground arith), ground arith)
    ]

-- A request that the holding period refuses names the hours that are left, rounded up: at least one, and
-- less than an hour more than is left.
pub request_withdrawal_early :
    (cfg : Config) (c : Call) (m : MemberContext) (amount : ℤ) (db : Db) (w : Wallet) (last : ℕ)
    → lookup m.user_id db.wallets ≡ some w
    → w.last_deposit_at ≡ some last
    → c.now < last + hold_ms cfg
    → (hrs : ℕ) × (request_withdrawal cfg c m amount db ≡ (err (holding_period hrs), db))
      × (last + hold_ms cfg ≤ c.now + hrs * ms_per_hr)
      × (c.now + hrs * ms_per_hr < last + hold_ms cfg + ms_per_hr)
unfolding request_withdrawal check_hold
request_withdrawal_early cfg c m amount db w last held dated early =
    (ceil_hrs (last + hold_ms cfg - c.now), ground arith, omega arith, omega arith)
