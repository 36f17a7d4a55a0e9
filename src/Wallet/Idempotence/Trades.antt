-- ===== src/Wallet/Idempotence/Trades.antt =====
-- An order is debited once.
use eurisko_final_proejct.Base.{
  ℕ, String, ◌≡◌, refl, ◌∙◌, none, some, true, false, inl, inr, Option-cases, Bool-cases, ok, arith,
}
use eurisko_final_proejct.Base.Int.{ℤ, ◌-ℤ◌, ◌≤ℤ◌, ltb_ℤ}
use eurisko_final_proejct.Base.Store.{lookup, adjust, lookup-adjust}
use eurisko_final_proejct.Wallet.Data.{buy, Wallet, Db, Call, Config}
use eurisko_final_proejct.Wallet.Transactions.{has_key, document}
use eurisko_final_proejct.Wallet.Service.{covers, debited}
use eurisko_final_proejct.Wallet.Internal.{trade_record, debit_order, deduct, deduct_key}
use eurisko_final_proejct.Wallet.Outcomes.{create-done, find_one_and_update-done}
use eurisko_final_proejct.Wallet.Outcomes.Trades.{
  debit_order-missing, debit_order-short, debit_order-done, deduct-first, deduct-repeated,
}
use eurisko_final_proejct.Wallet.Ledger.Trades.{covered, covers_of_le}
use eurisko_final_proejct.Wallet.Idempotence.{with_lock-ok, kept}
use eurisko_final_proejct.Wallet.Idempotence.Keys.{Steps-key, Steps-IsHeld}
use eurisko_final_proejct.Wallet.Calls.{Steps}

-- What a debit that answers has done: the wallet was there and covered the amount, it holds the rest,
-- which is the answer, and the order's key is in the records.
pub record Debited (user : ℕ) (amount b : ℤ) (key : String) (before after : Db) : Type 0 where
  pub wallet : Wallet
  pub held : lookup user before.wallets ≡ some wallet
  pub enough : amount ≤ℤ wallet.balance
  pub answer : b ≡ wallet.balance -ℤ amount
  pub left : after.wallets ≡ adjust user (debited amount) before.wallets
  pub keyed : has_key key after.transactions ≡ true

debit_order-Debited :
    (c : Call) (user : ℕ) (amount b : ℤ) (key : String) (db : Db)
    → has_key key db.transactions ≡ false
    → (debit_order c user amount key db).0 ≡ ok b
    → Debited user amount b key db (debit_order c user amount key db).1
debit_order-Debited c user amount b key db free answered =
    elim (Option-cases (lookup user db.wallets)) [
      | inl missing ↦ absurd (ground (arith, debit_order-missing c user amount key db missing))
      | inr (w, held) ↦ elim (Bool-cases (ltb_ℤ w.balance amount)) [
        | inl low ↦ absurd (ground (arith, debit_order-short c user amount key db w held low))
        | inr enough ↦
            let paid : amount ≤ℤ w.balance = covered amount w.balance enough in
            let done =
              debit_order-done c user amount key db w _ _ held enough (create-done c _ db free) (
                find_one_and_update-done user (covers amount) (debited amount) _ held
                  (covers_of_le amount w paid)) in
            rw done (record {
              wallet = w;
              held = held;
              enough = paid;
              answer = answer_of done;
              left = refl;
              keyed =
                  kept c (w.balance -ℤ amount) none
                    (document c (trade_record buy user amount w key)) db.transactions;
            })
      ]
    ]
  where
    answer_of : {x : ℤ} {d : Db} → debit_order c user amount key db ≡ (ok x, d) → b ≡ x
    answer_of e = ground arith

-- The first `deduct` for an order that answers takes the amount from the wallet, once, and only if the
-- wallet covers it.
pub deduct-Debited :
    (cfg : Config) (c : Call) (user : ℕ) (amount b : ℤ) (order : String) (db : Db)
    → has_key (deduct_key order) db.transactions ≡ false
    → (deduct cfg c user amount order db).0 ≡ ok b
    → Debited user amount b (deduct_key order) db (deduct cfg c user amount order db).1
deduct-Debited cfg c user amount b order db first answered =
    let ran = deduct-first cfg c user amount order db first in
    let (d, same_w, same_t, body, left_t, left_w) =
      with_lock-ok cfg c user (debit_order c user amount (deduct_key order)) db b
        (rw ran at answered) in
    let r = debit_order-Debited c user amount b (deduct_key order) d (rw same_t first) body in
    record {
      wallet = r.wallet;
      held = rw same_w at r.held;
      enough = r.enough;
      answer = r.answer;
      left = rw ran (left_w ∙ (rw same_w at r.left));
      keyed = rw ran (rw left_t r.keyed);
    }

-- Once the first `deduct` for an order, whose key was in no record, has answered, a repeated one for the
-- user and the order, with any amount and after any other calls of the service, one after another,
-- leaves everything as it is, and answers with the balance that the user's wallet has by then.
pub deduct_once :
    (cfg cfg' : Config) (c c' : Call) (user : ℕ) (amount amount' b : ℤ) (order : String) (db : Db)
    {db' : Db}
    → has_key (deduct_key order) db.transactions ≡ false
    → (deduct cfg c user amount order db).0 ≡ ok b
    → Steps (deduct cfg c user amount order db).1 db'
    → (w : Wallet) × (lookup user db'.wallets ≡ some w)
      × (deduct cfg' c' user amount' order db' ≡ (ok w.balance, db'))
deduct_once cfg cfg' c c' user amount amount' b order db {db'} first answered between =
    let r = deduct-Debited cfg c user amount b order db first answered in
    let now_held : lookup user (deduct cfg c user amount order db).1.wallets
        ≡ some (debited amount r.wallet) =
      rw r.left (ground (arith, lookup-adjust user user (debited amount) db.wallets, r.held)) in
    let seen = Steps-key (deduct_key order) between r.keyed in
    elim (Option-cases (lookup user db'.wallets)) [
      | inl gone ↦
          absurd (ground (arith, gone, Steps-IsHeld user between (ground (arith, now_held))))
      | inr (w, held) ↦
          (w, held, deduct-repeated cfg' c' user amount' order db' seen ∙ ground (arith, held))
    ]
