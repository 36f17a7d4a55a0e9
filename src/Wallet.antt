-- ===== src/Wallet.antt =====
-- apps/wallet-service: the wallets, their audit records, the withdrawal workflow and the endpoints that
-- the trading service calls.
pub mod Data
pub mod Transactions
pub mod Lock
pub mod Service
pub mod History
pub mod Checkout
pub mod Adjustment
pub mod Internal
pub mod Outcomes
pub mod Ledger
pub mod Calls
pub mod Idempotence
pub mod Approval
pub mod Race
pub mod Examples
