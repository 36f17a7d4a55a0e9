-- ===== src/Wallet/Ledger/Invariants.antt =====
-- What every run of the abstract ledger keeps: the wallets agree with the records, none falls below
-- zero, and a closed record is never touched again.
use eurisko_final_proejct.Base.{
  ℕ, ◌≡◌, ◌≢◌, sym, ◌∙◌, none, some, arith, ◌==◌, if◌then◌else◌, Bool-cases, inl, inr,
}
use eurisko_final_proejct.Base.Int.{pos, ◌+ℤ◌, ◌≤ℤ◌, zero_add}
use eurisko_final_proejct.Base.Store.{Store, lookup, insert, adjust, lookup-insert, lookup-adjust}
use eurisko_final_proejct.Wallet.Data.{pending, completed, rejected, Wallet, Transaction}
use eurisko_final_proejct.Wallet.Ledger.{effect, signed, Agree, NonNegative, balance_of}
use eurisko_final_proejct.Wallet.Ledger.Machine.{
  Ledger, Closes, Move, open_wallet, note, refuse, pay, book, Moves, here, next,
}
use eurisko_final_proejct.Wallet.Ledger.Net.{
  Agree-insert, Agree-adjust, Agree-settle, Agree-record, Agree-new_wallet, NonNegative-adjust,
  NonNegative-insert,
}

effect_of_pending : (t : Transaction) (user : ℕ) → t.status ≡ pending → effect user t ≡ pos 0
unfolding effect
effect_of_pending t user waiting = ground arith

effect_of_rejected : (t : Transaction) (user : ℕ) → t.status ≡ rejected → effect user t ≡ pos 0
unfolding effect
effect_of_rejected t user closed = ground arith

effect_of_completed :
    (t : Transaction) (user : ℕ)
    → t.status ≡ completed
    → effect user t ≡ (if t.user_id == user then signed t.type_of t.amount else pos 0)
unfolding effect
effect_of_completed t user done = rw done

effect_of_closed :
    (t u : Transaction) (user : ℕ)
    → t.status ≡ pending
    → Closes completed t u
    → effect user u
      ≡ effect user t +ℤ (if t.user_id == user then signed t.type_of t.amount else pos 0)
effect_of_closed t u user waiting c = rw (effect_of_pending t user waiting) (
    effect_of_completed u user c.closed
    ∙ rw (c.same_user, c.same_type, c.same_amount) (sym (zero_add _)))

pub Move-Agree :
    {a b : Ledger} → Move a b → Agree a.wallets a.transactions → Agree b.wallets b.transactions
Move-Agree {a} (open_wallet user w absent empty e) h =
    rw e (Agree-new_wallet user w a.wallets a.transactions absent empty h)
Move-Agree {a} (note id t fresh waiting e) h =
    rw e (
      Agree-insert id t a.wallets a.transactions fresh (λ user. effect_of_pending t user waiting) h)
Move-Agree {a} (refuse id g t found waiting c e) h = rw e (
    Agree-adjust id g t a.wallets a.transactions found
      (λ user. effect_of_rejected (g t) user c.closed ∙ sym (effect_of_pending t user waiting)) h)
Move-Agree {a} (pay id f g w t held found waiting p c e) h = rw e (
    Agree-settle t.user_id id f g (signed t.type_of t.amount) w t a.wallets a.transactions held
      found p.moved (λ user. effect_of_closed t (g t) user waiting c) h)
Move-Agree {a} (book id f w t held fresh done p e) h = rw e (
    Agree-record t.user_id id f (signed t.type_of t.amount) w t a.wallets a.transactions held fresh
      p.moved (λ user. effect_of_completed t user done) h)

-- What a wallet of a solvent service holds.
balance_nonneg :
    (user : ℕ) (w : Wallet) (ws : Store Wallet)
    → lookup user ws ≡ some w
    → NonNegative ws
    → pos 0 ≤ℤ w.balance
unfolding balance_of
balance_nonneg user w ws held h = ground (arith, h user)

pub Move-NonNegative : {a b : Ledger} → Move a b → NonNegative a.wallets → NonNegative b.wallets
Move-NonNegative {a} (open_wallet user w absent empty e) h =
    rw e (NonNegative-insert user w a.wallets (ground arith) h)
Move-NonNegative (note id t fresh waiting e) h = rw e h
Move-NonNegative (refuse id g t found waiting c e) h = rw e h
Move-NonNegative {a} (pay id f g w t held found waiting p c e) h = rw e (
    NonNegative-adjust t.user_id f w a.wallets held
      (p.solvent (balance_nonneg t.user_id w a.wallets held h)) h)
Move-NonNegative {a} (book id f w t held fresh done p e) h = rw e (
    NonNegative-adjust t.user_id f w a.wallets held
      (p.solvent (balance_nonneg t.user_id w a.wallets held h)) h)

-- A record that a move reads as pending or absent is not the closed one.
lookup-adjust_closed :
    (id k : ℕ) (g : Transaction → Transaction) {t u : Transaction} (ts : Store Transaction)
    → lookup id ts ≡ some t
    → t.status ≢ pending
    → lookup k ts ≡ some u
    → u.status ≡ pending
    → lookup id (adjust k g ts) ≡ some t
lookup-adjust_closed id k g {t} {u} ts found closed other waiting = elim (Bool-cases (k == id)) [
  | inl same ↦ absurd (closed (ground arith))
  | inr ne ↦ rw lookup-adjust (rw ne found)
]

lookup-insert_old :
    (id k : ℕ) {t : Transaction} (u : Transaction) (ts : Store Transaction)
    → lookup id ts ≡ some t
    → lookup k ts ≡ none
    → lookup id (insert k u ts) ≡ some t
lookup-insert_old id k u ts found absent = elim (Bool-cases (k == id)) [
  | inl same ↦ absurd (ground arith)
  | inr ne ↦ rw lookup-insert (rw ne found)
]

pub Move-closed :
    {a b : Ledger} (id : ℕ) {t : Transaction}
    → Move a b
    → lookup id a.transactions ≡ some t
    → t.status ≢ pending
    → lookup id b.transactions ≡ some t
Move-closed id (open_wallet user w absent empty e) found closed = rw e found
Move-closed {a} id (note k u fresh waiting e) found closed =
    rw e (lookup-insert_old id k u a.transactions found fresh)
Move-closed {a} id (refuse k g u there waiting c e) found closed =
    rw e (lookup-adjust_closed id k g a.transactions found closed there waiting)
Move-closed {a} id (pay k f g w u held there waiting p c e) found closed =
    rw e (lookup-adjust_closed id k g a.transactions found closed there waiting)
Move-closed {a} id (book k f w u held fresh done p e) found closed =
    rw e (lookup-insert_old id k u a.transactions found fresh)

pub Moves-Agree :
    {a b : Ledger} → Moves a b → Agree a.wallets a.transactions → Agree b.wallets b.transactions
Moves-Agree here h = h
Moves-Agree (next r m) h = Move-Agree m (Moves-Agree r h)

pub Moves-NonNegative : {a b : Ledger} → Moves a b → NonNegative a.wallets → NonNegative b.wallets
Moves-NonNegative here h = h
Moves-NonNegative (next r m) h = Move-NonNegative m (Moves-NonNegative r h)

pub Moves-closed :
    {a b : Ledger} (id : ℕ) {t : Transaction}
    → Moves a b
    → lookup id a.transactions ≡ some t
    → t.status ≢ pending
    → lookup id b.transactions ≡ some t
Moves-closed id here found closed = found
Moves-closed id (next r m) found closed = Move-closed id m (Moves-closed id r found closed) closed
