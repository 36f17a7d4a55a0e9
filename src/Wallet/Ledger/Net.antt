-- ===== src/Wallet/Ledger/Net.antt =====
-- How the sum of the records and the balances move under each write of the collections.
use mathlib.Core.Path.{ap₂}
use eurisko_final_proejct.Base.{sym, ◌∙◌, ℕ, ◌≡◌, none, some, [], ◌∷◌, ◌==◌, if◌then◌else◌, arith}
use eurisko_final_proejct.Base.Int.{add_zero, moved_alike, ℤ, pos, ◌+ℤ◌, ◌≤ℤ◌, int_laws}
use eurisko_final_proejct.Base.Store.{Store, lookup, insert, adjust, lookup-insert, lookup-adjust}
use eurisko_final_proejct.Wallet.Data.{Wallet, Transaction}
use eurisko_final_proejct.Wallet.Ledger.{effect, net, balance_of, Agree, NonNegative}

pub net-insert :
    (user id : ℕ) (t : Transaction) (ts : Store Transaction)
    → lookup id ts ≡ none
    → net user (insert id t ts) ≡ net user ts +ℤ effect user t
unfolding net lookup insert
net-insert user id t [] h = omega int_laws
net-insert user id t ((j, u) ∷ ts) h = grind (int_laws, net-insert user id t ts)

pub net-adjust :
    (user id : ℕ) (f : Transaction → Transaction) (t : Transaction) (ts : Store Transaction)
    → lookup id ts ≡ some t
    → net user (adjust id f ts) +ℤ effect user t ≡ net user ts +ℤ effect user (f t)
unfolding net lookup adjust
net-adjust user id f t [] h = cc
net-adjust user id f t ((j, u) ∷ ts) h = grind (int_laws, net-adjust user id f t ts)

pub balance_of-insert :
    (user owner : ℕ) (w : Wallet) (ws : Store Wallet)
    → balance_of user (insert owner w ws)
      ≡ (if owner == user then w.balance else balance_of user ws)
unfolding balance_of
balance_of-insert user owner w ws = ground (arith, lookup-insert owner user w ws)

pub balance_of-adjust :
    (user owner : ℕ) (f : Wallet → Wallet) (w : Wallet) (ws : Store Wallet)
    → lookup owner ws ≡ some w
    → balance_of user (adjust owner f ws)
      ≡ (if owner == user then (f w).balance else balance_of user ws)
unfolding balance_of
balance_of-adjust user owner f w ws h = ground (arith, lookup-adjust owner user f ws)

pub balance_of-add :
    (user owner : ℕ) (f : Wallet → Wallet) (d : ℤ) (w : Wallet) (ws : Store Wallet)
    → lookup owner ws ≡ some w
    → (f w).balance ≡ w.balance +ℤ d
    → balance_of user (adjust owner f ws)
      ≡ balance_of user ws +ℤ (if owner == user then d else pos 0)
unfolding balance_of
balance_of-add user owner f d w ws held moved =
    ground (arith, lookup-adjust owner user f ws, add_zero (balance_of user ws))

-- A record that counts for nothing, such as a pending one, may be added.
pub Agree-insert :
    (id : ℕ) (t : Transaction) (ws : Store Wallet) (ts : Store Transaction)
    → lookup id ts ≡ none
    → ((user : ℕ) → effect user t ≡ pos 0)
    → Agree ws ts
    → Agree ws (insert id t ts)
Agree-insert id t ws ts fresh nothing h user =
    grind (int_laws, h user, nothing user, net-insert user id t ts fresh)

-- A record may change in what does not count.
pub Agree-adjust :
    (id : ℕ) (g : Transaction → Transaction) (t : Transaction) (ws : Store Wallet)
    (ts : Store Transaction)
    → lookup id ts ≡ some t
    → ((user : ℕ) → effect user (g t) ≡ effect user t)
    → Agree ws ts
    → Agree ws (adjust id g ts)
Agree-adjust id g t ws ts found same h user =
    grind (int_laws, h user, same user, net-adjust user id g t ts found)

-- A wallet and a record may change by the same amount.
pub Agree-settle :
    (owner id : ℕ) (f : Wallet → Wallet) (g : Transaction → Transaction) (d : ℤ) (w : Wallet)
    (t : Transaction) (ws : Store Wallet) (ts : Store Transaction)
    → lookup owner ws ≡ some w
    → lookup id ts ≡ some t
    → (f w).balance ≡ w.balance +ℤ d
    → ((user : ℕ) → effect user (g t) ≡ effect user t +ℤ (if owner == user then d else pos 0))
    → Agree ws ts
    → Agree (adjust owner f ws) (adjust id g ts)
Agree-settle owner id f g d w t ws ts held found moved counted h user =
    moved_alike _ _ _ _ (effect user t) (effect user (g t)) (if owner == user then d else pos 0)
      (h user) (balance_of-add user owner f d w ws held moved) (counted user)
      (net-adjust user id g t ts found)

-- A new wallet holds nothing.
pub Agree-new_wallet :
    (owner : ℕ) (w : Wallet) (ws : Store Wallet) (ts : Store Transaction)
    → lookup owner ws ≡ none
    → w.balance ≡ pos 0
    → Agree ws ts
    → Agree (insert owner w ws) ts
unfolding balance_of
Agree-new_wallet owner w ws ts absent empty h user =
    ground (arith, h user, lookup-insert owner user w ws)

pub NonNegative-adjust :
    (owner : ℕ) (f : Wallet → Wallet) (w : Wallet) (ws : Store Wallet)
    → lookup owner ws ≡ some w
    → pos 0 ≤ℤ (f w).balance
    → NonNegative ws
    → NonNegative (adjust owner f ws)
NonNegative-adjust owner f w ws held more h user =
    ground (arith, h user, balance_of-adjust user owner f w ws held)

pub NonNegative-insert :
    (owner : ℕ) (w : Wallet) (ws : Store Wallet)
    → pos 0 ≤ℤ w.balance
    → NonNegative ws
    → NonNegative (insert owner w ws)
NonNegative-insert owner w ws more h user =
    ground (arith, h user, balance_of-insert user owner w ws)

-- A wallet may change together with a new record of the same amount.
pub Agree-record :
    (owner id : ℕ) (f : Wallet → Wallet) (d : ℤ) (w : Wallet) (t : Transaction) (ws : Store Wallet)
    (ts : Store Transaction)
    → lookup owner ws ≡ some w
    → lookup id ts ≡ none
    → (f w).balance ≡ w.balance +ℤ d
    → ((user : ℕ) → effect user t ≡ (if owner == user then d else pos 0))
    → Agree ws ts
    → Agree (adjust owner f ws) (insert id t ts)
Agree-record owner id f d w t ws ts held fresh moved counted h user =
    balance_of-add user owner f d w ws held moved
    ∙ ap₂ ◌+ℤ◌ (h user) (sym (counted user))
    ∙ sym (net-insert user id t ts fresh)
