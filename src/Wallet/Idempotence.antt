-- ===== src/Wallet/Idempotence.antt =====
-- A webhook or an order that is delivered again moves no money: the keys of the records stop it.
pub mod Keys
pub mod Trades
use text.Mathlib.TextEquality.{eq_iff}
use eurisko_final_proejct.Base.{
  ℕ, String, ◌≡◌, refl, ◌∙◌, Option, true, false, Bool, [], ◌∷◌, inl, inr, ok, err, arith, Result,
  Action, ◌⊎◌,
}
use eurisko_final_proejct.Base.Int.{ℤ, pos, ltb_ℤ}
use eurisko_final_proejct.Base.Store.{Store, insert, adjust}
use eurisko_final_proejct.Wallet.Data.{Transaction, Db, Call, Config, Error, wallet_locked, Wallet}
use eurisko_final_proejct.Wallet.Transactions.{has_key, complete, create}
use eurisko_final_proejct.Wallet.Lock.{with_lock, release}
use eurisko_final_proejct.Wallet.Outcomes.{with_lock-cases}

pub has_key-insert :
    (id : ℕ) (t : Transaction) (ts : Store Transaction)
    → has_key t.idempotency_key (insert id t ts) ≡ true
unfolding has_key insert
has_key-insert id t [] = ground (arith, (eq_iff t.idempotency_key t.idempotency_key).1 refl)
has_key-insert id t ((j, u) ∷ ts) =
    ground (arith, (eq_iff t.idempotency_key t.idempotency_key).1 refl, has_key-insert id t ts)

pub has_key-adjust :
    (key : String) (id : ℕ) (f : Transaction → Transaction) (ts : Store Transaction)
    → ((t : Transaction) → (f t).idempotency_key ≡ t.idempotency_key)
    → has_key key (adjust id f ts) ≡ has_key key ts
unfolding has_key adjust
has_key-adjust key id f [] same = refl
has_key-adjust key id f ((j, u) ∷ ts) same = ground (arith, same u, has_key-adjust key id f ts same)

-- A locked handler that answers has run its body to an answer.
pub with_lock-ok :
    {A : Type 0} (cfg : Config) (c : Call) (user : ℕ) (body : Action Db Error A) (db : Db) (a : A)
    → (with_lock cfg c user body db).0 ≡ ok a
    → (d : Db) × (d.wallets ≡ db.wallets)
      × (d.transactions ≡ db.transactions)
      × ((body d).0 ≡ ok a)
      × ((with_lock cfg c user body db).1.transactions ≡ (body d).1.transactions)
      × ((with_lock cfg c user body db).1.wallets ≡ (body d).1.wallets)
unfolding release
with_lock-ok cfg c user body db a answered = elim (with_lock-cases cfg c user body db) [
  | inl busy ↦ absurd (ground arith)
  | inr (locks, free, ran) ↦
      (record db { locks = locks }, refl, refl, ground arith, ground arith, ground arith)
]

-- A key that is in the records stays there when one of them is completed.
pub kept :
    (c : Call) (after : ℤ) (by : Option String) (t : Transaction) (ts : Store Transaction)
    → has_key t.idempotency_key (adjust c.new_id (complete c after by) (insert c.new_id t ts))
      ≡ true
kept c after by t ts =
    has_key-adjust t.idempotency_key c.new_id (complete c after by) (insert c.new_id t ts)
      (λ u. refl)
    ∙ has_key-insert c.new_id t ts
