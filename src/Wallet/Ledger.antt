-- ===== src/Wallet/Ledger.antt =====
-- What the audit records say a wallet holds: the completed credits less the completed debits.
pub mod Net
pub mod Machine
pub mod Moves
pub mod Withdrawals
pub mod Deposits
pub mod Trades
pub mod Invariants
use eurisko_final_proejct.Base.{ℕ, ◌≡◌, ◌≢◌, none, some, [], ◌∷◌, ◌==◌, if◌then◌else◌}
use eurisko_final_proejct.Base.Int.{ℤ, pos, ◌+ℤ◌, ◌-ℤ◌, ◌≤ℤ◌}
use eurisko_final_proejct.Base.Store.{Store, lookup}
use eurisko_final_proejct.Wallet.Data.{
  TransactionType, deposit, withdrawal, buy, sell, adjustment, manual_credit, manual_debit,
  TransactionStatus, completed, Wallet, Transaction, Db,
}

-- A debit counts below zero.
abbrev pub signed : TransactionType → ℤ → ℤ
signed deposit a = a
signed sell a = a
signed manual_credit a = a
signed adjustment a = a
signed withdrawal a = pos 0 -ℤ a
signed buy a = pos 0 -ℤ a
signed manual_debit a = pos 0 -ℤ a

abbrev pub settled : TransactionStatus → ℤ → ℤ
settled completed a = a
settled _ a = pos 0

-- What one record adds to the wallet of a user.
unfoldable pub effect : ℕ → Transaction → ℤ
effect user t = if t.user_id == user then settled t.status (signed t.type_of t.amount) else pos 0

unfoldable pub net : ℕ → Store Transaction → ℤ
net user [] = pos 0
net user ((_, t) ∷ ts) = effect user t +ℤ net user ts

-- A user with no wallet holds nothing.
unfoldable pub balance_of : ℕ → Store Wallet → ℤ
balance_of user wallets = elim (lookup user wallets) [ none ↦ pos 0 | some w ↦ w.balance ]

-- The wallets hold what the records say.
abbrev pub Agree : Store Wallet → Store Transaction → Type 0
Agree wallets transactions = (user : ℕ) → balance_of user wallets ≡ net user transactions

-- No wallet is below zero.
abbrev pub NonNegative : Store Wallet → Type 0
NonNegative wallets = (user : ℕ) → pos 0 ≤ℤ balance_of user wallets
