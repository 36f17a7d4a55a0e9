-- ===== src/Wallet/Idempotence/Keys.antt =====
-- What no call of the wallet service takes away: the key of a record, and a wallet.
use eurisko_final_proejct.Base.{
  ℕ, String, ◌≡◌, refl, none, some, true, is_some, [], ◌∷◌, arith, ◌∙◌, inl, inr, Bool-cases,
  Option-cases, subst, sym, ◌==◌,
}
use eurisko_final_proejct.Base.Store.{Store, lookup, insert, adjust, lookup-insert, lookup-adjust}
use eurisko_final_proejct.Wallet.Data.{Transaction, Wallet, Db}
use eurisko_final_proejct.Wallet.Transactions.{has_key}
use eurisko_final_proejct.Wallet.Ledger.Machine.{
  Ledger, Move, open_wallet, note, refuse, pay, book, Moves, here, next,
}
use eurisko_final_proejct.Wallet.Calls.{Steps, start, later, Step-Moves}

module _ (key : String) where
  has_key-insert_new :
      (id : ℕ) (t : Transaction) (ts : Store Transaction)
      → lookup id ts ≡ none
      → has_key key ts ≡ true
      → has_key key (insert id t ts) ≡ true
  unfolding has_key lookup insert
  has_key-insert_new id t [] new seen = absurd (ground (arith, seen))
  has_key-insert_new id t ((j, u) ∷ ts) new seen =
      ground (arith, new, seen, has_key-insert_new id t ts)

  has_key-adjust_at :
      (id : ℕ) (g : Transaction → Transaction) (t : Transaction) (ts : Store Transaction)
      → lookup id ts ≡ some t
      → (g t).idempotency_key ≡ t.idempotency_key
      → has_key key (adjust id g ts) ≡ has_key key ts
  unfolding has_key lookup adjust
  has_key-adjust_at id g t [] found same = refl
  has_key-adjust_at id g t ((j, u) ∷ ts) found same = elim (Bool-cases (j == id)) [
    | inl hit ↦
        let it : u ≡ t = ground (arith, hit, found) in
        let kept : (g u).idempotency_key ≡ u.idempotency_key =
          subst (λ (v : Transaction). (g v).idempotency_key ≡ v.idempotency_key) (sym it) same in
        ground (arith, hit, kept)
    | inr miss ↦
        ground (arith, miss, has_key-adjust_at id g t ts (ground (arith, miss, found)) same)
  ]

  Move-key :
      {a b : Ledger}
      → Move a b
      → has_key key a.transactions ≡ true
      → has_key key b.transactions ≡ true
  Move-key (open_wallet user w absent zero_ e) seen = rw e seen
  Move-key {a} (note id t new waiting e) seen =
      rw e (has_key-insert_new id t a.transactions new seen)
  Move-key {a} (refuse id g t found waiting closes e) seen =
      rw e (has_key-adjust_at id g t a.transactions found closes.same_key ∙ seen)
  Move-key {a} (pay id f g w t held found waiting pays closes e) seen =
      rw e (has_key-adjust_at id g t a.transactions found closes.same_key ∙ seen)
  Move-key {a} (book id f w t held new settled pays e) seen =
      rw e (has_key-insert_new id t a.transactions new seen)

  Moves-key :
      {a b : Ledger}
      → Moves a b
      → has_key key a.transactions ≡ true
      → has_key key b.transactions ≡ true
  Moves-key here seen = seen
  Moves-key (next r m) seen = Move-key m (Moves-key r seen)

  -- A key that is in the records is in them after any calls.
  pub Steps-key :
      {db db' : Db}
      → Steps db db'
      → has_key key db.transactions ≡ true
      → has_key key db'.transactions ≡ true
  Steps-key start seen = seen
  Steps-key (later r s) seen = Moves-key (Step-Moves s) (Steps-key r seen)

module _ (user : ℕ) where
  abbrev IsHeld : Store Wallet → Type 0
  IsHeld ws = is_some (lookup user ws) ≡ true

  insert-IsHeld :
      (owner : ℕ) (w : Wallet) (ws : Store Wallet) → IsHeld ws → IsHeld (insert owner w ws)
  insert-IsHeld owner w ws held = ground (arith, held, lookup-insert owner user w ws)

  adjust-IsHeld :
      (owner : ℕ) (f : Wallet → Wallet) (ws : Store Wallet) → IsHeld ws → IsHeld (adjust owner f ws)
  adjust-IsHeld owner f ws held = elim (Option-cases (lookup user ws)) [
    | inl absent ↦ absurd (ground (arith, held, absent))
    | inr (w, there) ↦ ground (arith, there, lookup-adjust owner user f ws)
  ]

  Move-IsHeld : {a b : Ledger} → Move a b → IsHeld a.wallets → IsHeld b.wallets
  Move-IsHeld {a} (open_wallet owner w absent zero_ e) held =
      rw e (insert-IsHeld owner w a.wallets held)
  Move-IsHeld (note id t new waiting e) held = rw e held
  Move-IsHeld (refuse id g t found waiting closes e) held = rw e held
  Move-IsHeld {a} (pay id f g w t there found waiting pays closes e) held =
      rw e (adjust-IsHeld t.user_id f a.wallets held)
  Move-IsHeld {a} (book id f w t there new settled pays e) held =
      rw e (adjust-IsHeld t.user_id f a.wallets held)

  Moves-IsHeld : {a b : Ledger} → Moves a b → IsHeld a.wallets → IsHeld b.wallets
  Moves-IsHeld here held = held
  Moves-IsHeld (next r m) held = Move-IsHeld m (Moves-IsHeld r held)

  -- A wallet that is there is there after any calls.
  pub Steps-IsHeld :
      {db db' : Db}
      → Steps db db'
      → is_some (lookup user db.wallets) ≡ true
      → is_some (lookup user db'.wallets) ≡ true
  Steps-IsHeld start held = held
  Steps-IsHeld (later r s) held = Moves-IsHeld (Step-Moves s) (Steps-IsHeld r held)
