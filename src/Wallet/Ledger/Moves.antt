-- ===== src/Wallet/Ledger/Moves.antt =====
-- The writes that the handlers make, as moves of the ledger.
use eurisko_final_proejct.Base.{ℕ, String, Option, ◌≡◌, refl, none, some, ==_refl}
use eurisko_final_proejct.Base.Int.{ℤ, pos}
use eurisko_final_proejct.Base.Store.{Store, lookup, insert, adjust, lookup-insert}
use eurisko_final_proejct.Wallet.Data.{pending, completed, rejected, Wallet, Transaction, Call}
use eurisko_final_proejct.Wallet.Transactions.{complete, reject}
use eurisko_final_proejct.Wallet.Ledger.{signed}
use eurisko_final_proejct.Wallet.Ledger.Machine.{
  Ledger, Closes, Pays, open_wallet, note, refuse, pay, book, next, Reached,
}

complete-Closes :
    (c : Call) (after : ℤ) (by : Option String) (t : Transaction)
    → Closes completed t (complete c after by t)
complete-Closes c after by t = record {
  closed = refl;
  same_user = refl;
  same_type = refl;
  same_amount = refl;
  same_before = refl;
  same_key = refl;
}

reject-Closes :
    (c : Call) (reason : String) (by : Option String) (t : Transaction)
    → Closes rejected t (reject c reason by t)
reject-Closes c reason by t = record {
  closed = refl;
  same_user = refl;
  same_type = refl;
  same_amount = refl;
  same_before = refl;
  same_key = refl;
}

module _ {a : Ledger} {ws : Store Wallet} {ts : Store Transaction} where
  pub Reached-new_wallet :
      (owner : ℕ) (w : Wallet)
      → lookup owner ws ≡ none
      → w.balance ≡ pos 0
      → Reached a ws ts
      → Reached a (insert owner w ws) ts
  Reached-new_wallet owner w absent empty r = next r (open_wallet owner w absent empty refl)

  pub Reached-new_record :
      (id : ℕ) (t : Transaction)
      → lookup id ts ≡ none
      → t.status ≡ pending
      → Reached a ws ts
      → Reached a ws (insert id t ts)
  Reached-new_record id t fresh waiting r = next r (note id t fresh waiting refl)

  -- A pending record may be rejected.
  pub Reached-reject :
      (c : Call) (id : ℕ) (reason : String) (by : Option String) (t : Transaction)
      → lookup id ts ≡ some t
      → t.status ≡ pending
      → Reached a ws ts
      → Reached a ws (adjust id (reject c reason by) ts)
  Reached-reject c id reason by t found waiting r =
      next r (refuse id (reject c reason by) t found waiting (reject-Closes c reason by t) refl)

  -- A pending record may be completed together with its payment.
  pub Reached-settle :
      (c : Call) (id : ℕ) (f : Wallet → Wallet) (w : Wallet) (t : Transaction) (after : ℤ)
      (by : Option String)
      → lookup t.user_id ws ≡ some w
      → lookup id ts ≡ some t
      → t.status ≡ pending
      → Pays (signed t.type_of t.amount) w (f w)
      → Reached a ws ts
      → Reached a (adjust t.user_id f ws) (adjust id (complete c after by) ts)
  Reached-settle c id f w t after by held found waiting pays r = next r (
      pay id f (complete c after by) w t held found waiting pays (complete-Closes c after by t)
        refl)

  -- A completed record may be written together with its payment.
  pub Reached-record :
      (id : ℕ) (f : Wallet → Wallet) (w : Wallet) (t : Transaction)
      → lookup t.user_id ws ≡ some w
      → lookup id ts ≡ none
      → t.status ≡ completed
      → Pays (signed t.type_of t.amount) w (f w)
      → Reached a ws ts
      → Reached a (adjust t.user_id f ws) (insert id t ts)
  Reached-record id f w t held fresh done pays r = next r (book id f w t held fresh done pays refl)

-- A record may be written as pending and completed together with its payment.
pub Reached-book :
    {a : Ledger} {ws : Store Wallet} {ts : Store Transaction} (c : Call) (f : Wallet → Wallet)
    (w : Wallet) (t : Transaction) (after : ℤ) (by : Option String)
    → lookup t.user_id ws ≡ some w
    → lookup c.new_id ts ≡ none
    → t.status ≡ pending
    → Pays (signed t.type_of t.amount) w (f w)
    → Reached a ws ts
    → Reached a
        (adjust t.user_id f ws)
        (adjust c.new_id (complete c after by) (insert c.new_id t ts))
Reached-book c f w t after by held fresh waiting pays r =
    Reached-settle c c.new_id f w t after by held (rw lookup-insert (rw ==_refl)) waiting pays
      (Reached-new_record c.new_id t fresh waiting r)
