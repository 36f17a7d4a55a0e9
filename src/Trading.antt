-- ===== src/Trading.antt =====
-- apps/trading-service: stocks with their cache, the traders that may trade, the lock of a member, and
-- the buy and sell orders with the wallet service behind an interface.
pub mod Data
pub mod Lock
pub mod Trader
pub mod MemberEvents
pub mod Stock
pub mod Position
pub mod Order
pub mod Portfolio
pub mod Tests
pub mod Examples
