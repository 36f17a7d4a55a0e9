-- ===== src/Wallet/Race/Double.antt =====
-- Two approvals of one transaction may both pay it: each reads `pending` before it asks for the lock, and
-- nothing inside the lock reads the status again.
use eurisko_final_proejct.Base.{ℕ, ◌+◌, ◌≤◌, String, ◌≡◌, refl, none, some, [], ◌∷◌, List, arith}
use eurisko_final_proejct.Base.Int.{ℤ, pos, ◌-ℤ◌, ◌+ℤ◌, ◌≤ℤ◌, int_laws}
use eurisko_final_proejct.Base.Store.{lookup, insert, adjust, lookup-adjust_self}
use eurisko_final_proejct.Redis.{get, compare_del}
use eurisko_final_proejct.Redis.Laws.{set_nx-free, get-compare_del_later}
use eurisko_final_proejct.Wallet.Data.{withdrawal, pending, Wallet, Transaction, Db, Call, Config}
use eurisko_final_proejct.Wallet.Transactions.{complete}
use eurisko_final_proejct.Wallet.Lock.{release, ttl}
use eurisko_final_proejct.Wallet.Service.{covers, debited}
use eurisko_final_proejct.Wallet.Outcomes.{acquire-free, find_one_and_update-done}
use eurisko_final_proejct.Wallet.Outcomes.Withdrawals.{pending_withdrawal-ok}
use eurisko_final_proejct.Wallet.Race.{
  fetch, validated, inside, paid, closing, finished, advance, begin, step, run,
}

-- The order of the round trips: both calls validate, then each of them runs to its end.
abbrev pub both_validate_first : List ℕ
both_validate_first = 0 ∷ 1 ∷ 0 ∷ 0 ∷ 0 ∷ 0 ∷ 1 ∷ 1 ∷ 1 ∷ 1 ∷ []

module _ (cfg : Config) (id : ℕ) (cms_user : String) (t : Transaction) where
  abbrev with_key : Call → Db → Db
  with_key c d = record d {
    locks =
        insert t.user_id (record { value = c.lock_token; expires_at = c.now + ttl cfg }) d.locks;
  }

  abbrev less : Db → Db
  less d = record d { wallets = adjust t.user_id (debited t.amount) d.wallets }

  abbrev marked : Call → Wallet → Db → Db
  marked c w d = record d {
    transactions = adjust id (complete c (w.balance -ℤ t.amount) (some cms_user)) d.transactions;
  }

  abbrev unlocked : Call → Db → Db
  unlocked c d = record d { locks = compare_del c.now t.user_id c.lock_token d.locks }

  validates :
      (c : Call) (d : Db)
      → lookup id d.transactions ≡ some t
      → t.type_of ≡ withdrawal
      → t.status ≡ pending
      → advance cfg id cms_user c fetch d ≡ (validated t, d)
  unfolding advance
  validates c d found kind waiting = ground (arith, pending_withdrawal-ok id d found kind waiting)

  enters :
      (c : Call) (d : Db)
      → get c.now t.user_id d.locks ≡ none
      → advance cfg id cms_user c (validated t) d ≡ (inside t, with_key c d)
  unfolding advance
  enters c d free = ground (
    arith,
    acquire-free cfg c t.user_id d
        (set_nx-free c.now t.user_id c.lock_token (ttl cfg) d.locks free),
  )

  takes :
      (c : Call) (d : Db) (w : Wallet)
      → lookup t.user_id d.wallets ≡ some w
      → t.amount ≤ℤ w.balance
      → advance cfg id cms_user c (inside t) d ≡ (paid t (debited t.amount w), less d)
  unfolding advance
  takes c d w held enough = ground (
    arith,
    find_one_and_update-done t.user_id (covers t.amount) (debited t.amount) d held (ground arith),
  )

  marks :
      (c : Call) (d : Db) (w : Wallet)
      → advance cfg id cms_user c (paid t (debited t.amount w)) d ≡ (closing t none, marked c w d)
  unfolding advance
  marks c d w = refl

  leaves :
      (c : Call) (d : Db)
      → advance cfg id cms_user c (closing t none) d ≡ (finished none, unlocked c d)
  unfolding advance release
  leaves c d = refl

  -- What a call does from its validation to its end.
  abbrev settle : Call → Wallet → Db → Db
  settle c w d = unlocked c (marked c w (less (with_key c d)))

covered_after :
    (amount balance : ℤ) → amount +ℤ amount ≤ℤ balance → pos 0 ≤ℤ amount → amount ≤ℤ balance
covered_after amount balance h p = omega int_laws

covered_again : (amount balance : ℤ) → amount +ℤ amount ≤ℤ balance → amount ≤ℤ balance -ℤ amount
covered_again amount balance h = omega int_laws

-- Whenever a wallet covers a pending withdrawal twice and its lock is free, the schedule above makes both
-- approvals succeed and takes the amount from the wallet twice.
pub run-double :
    (cfg : Config) (id : ℕ) (cms_user : String) (calls : ℕ → Call) (db : Db) (t : Transaction)
    (w : Wallet)
    → lookup id db.transactions ≡ some t
    → t.type_of ≡ withdrawal
    → t.status ≡ pending
    → lookup t.user_id db.wallets ≡ some w
    → pos 0 ≤ℤ t.amount
    → t.amount +ℤ t.amount ≤ℤ w.balance
    → get (calls 0).now t.user_id db.locks ≡ none
    → (calls 0).now ≤ (calls 1).now
    → let s = run cfg id cms_user calls both_validate_first (begin db) in
      (s.pc 0 ≡ finished none)
      × (s.pc 1 ≡ finished none)
      × (lookup t.user_id s.db.wallets
          ≡ some (record w { balance = w.balance -ℤ t.amount -ℤ t.amount }))
unfolding run step
run-double cfg id cms_user calls db t w found kind waiting held positive twice free order =
    let c = calls 0 in
    let c' = calls 1 in
    let in1 = with_key cfg id cms_user t c db in
    let out1 = less cfg id cms_user t in1 in
    let mid = settle cfg id cms_user t c w db in
    let v = debited t.amount w in
    let held' = lookup-adjust_self t.user_id (debited t.amount) db.wallets held in
    let in2 = with_key cfg id cms_user t c' mid in
    let out2 = less cfg id cms_user t in2 in
    rw
      (
        validates cfg id cms_user t c db found kind waiting,
        validates cfg id cms_user t c' db found kind waiting,
        enters cfg id cms_user t c db free,
        takes cfg id cms_user t c in1 w held (covered_after t.amount w.balance twice positive),
        marks cfg id cms_user t c out1 w,
        leaves cfg id cms_user t c (marked cfg id cms_user t c w out1),
        enters cfg id cms_user t c' mid
            (get-compare_del_later c.now c'.now t.user_id c.lock_token (ttl cfg) db.locks order),
        takes cfg id cms_user t c' in2 v held' (covered_again t.amount w.balance twice),
        marks cfg id cms_user t c' out2 v,
        leaves cfg id cms_user t c' (marked cfg id cms_user t c' v out2),
      )
      (refl, refl, lookup-adjust_self t.user_id (debited t.amount) _ held')
