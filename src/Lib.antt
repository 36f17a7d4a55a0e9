-- ===== src/Lib.antt =====
-- The trading platform's services: wallets, orders, accounts and sessions, members, price alerts and
-- notifications.
--
-- The platform is a set of NestJS services, each with its MongoDB database, joined by HTTP calls, Kafka
-- messages and Redis. A member's money is in the wallet service: Stripe's webhook credits it, withdrawals
-- are requested by the member and approved or rejected in the CMS, and support may adjust it. The trading
-- service keeps stocks, positions and orders; an order calls the wallet service's internal endpoints, keyed
-- by the order, and undoes its own part when they refuse. The authentication service registers members,
-- guards the activation of an account by one-time passwords, and keeps the sessions and the accounts of the
-- staff. The user service keeps the members' profiles behind a cache, and tells the other services of
-- suspensions and KYC decisions. The alert worker takes the price alerts of a stock in batches when its price
-- changes. The notification service sends one mail for each message it gets.
--
-- Which file models what (paths from the repository's root):
--   Base, Base/*         shared names, lists, integers, collections, state with exceptions
--   Pages, Pages/*       paging by skip and limit, with the flags of PaginationMeta
--   Redis                SET NX with an expiry, GET, and the compare-and-delete script
--   Wallet/Data          apps/wallet-service/src/database/schemas, common/constants, messaging payloads
--   Wallet/Transactions  modules/transaction/transaction.service.ts: create, markCompleted, markRejected,
--                        existsByIdempotencyKey, findById
--   Wallet/Lock          modules/lock/lock.service.ts: acquire, release, withLock
--   Wallet/Service       modules/wallet/wallet.service.ts: ensureWallet, getWallet, processStripeDeposit,
--                        requestWithdrawal, approveWithdrawal, rejectWithdrawal
--   Wallet/Adjustment    manualAdjustment of the same file
--   Wallet/Internal      modules/wallet/internal-wallet.service.ts: deduct, credit
--   Wallet/History       findHistory and findPendingWithdrawals of the transaction service
--   Wallet/Checkout/*    initiateDeposit, modules/stripe/stripe.service.ts and its webhook controller
--   Wallet/Outcomes/*    what each of these does on each branch
--   Wallet/Ledger/*      what the records say a wallet holds, an abstract ledger whose moves change money
--                        only together with a record, and each handler as a run of it
--   Wallet/Calls         runs of any handlers in any order, and what they keep
--   Wallet/Idempotence/* repeated webhooks and orders
--   Wallet/Approval      requests and approvals from the first read to the released lock
--   Wallet/Race/*        approvals interleaved at each round trip to MongoDB or Redis
--   Trading/Data         apps/trading-service/src/database/schemas and common/constants
--   Trading/Trader       modules/trader/trader.service.ts: updateStatus, updateKycStatus, assertCanTrade
--   Trading/Lock         modules/lock/lock.service.ts and acquireLock, releaseLock of modules/cache
--   Trading/Stock        modules/stock/stock.service.ts: update, delist, findById, findListedById
--   Trading/Stock/Catalogue/*  create, findAll, getPriceHistory of the same file
--   Trading/Position     the positions collection and upsertPosition
--   Trading/Order        modules/order/order.service.ts: buy, sell; modules/order/wallet.client.ts
--   Trading/Order/History/*  getHistory, findOne of order.service.ts
--   Trading/Portfolio/*  modules/position/position.service.ts
--   Trading/MemberEvents upsertFromRegistration, and modules/trader/member-event.consumer.ts
--   Wiring               the wallet service's endpoints as the interface that the orders call
--   Wiring/Members       the user service's messages as the trading service receives them
--   Auth/Data            apps/auth-service/src/database/schemas/user.schema.ts, calculateAge
--   Auth/Otp             apps/auth-service/src/modules/otp/otp.service.ts: createAndSend, validate,
--                        wasVerified; setPassword of modules/auth/auth-service.service.ts
--   Auth/Accounts/*      register, verifyOtp, resendOtp, setPassword of auth-service.service.ts
--   Auth/Sessions/*      login, refresh, logout, forgotPassword, resetPassword of the same file, and
--                        modules/token/token.service.ts
--   Auth/Cms/*           modules/cms-auth/cms-auth.service.ts
--   Members/*            apps/user-service/src/modules/member/member.service.ts, and its messages
--   Alerts/*             apps/trading-service/src/modules/alert/alert.service.ts and
--                        apps/alert-worker/src/alert.consumer.ts
--   Notification/Retry   apps/notification-service/src/retry/retry.service.ts
--   Notification/Processor  processor/processor.service.ts, notification-log, idempotency
--
-- How the code is modelled. A handler is a function of the state that gives a result and the state
-- afterwards; what was written before a `throw` stays written. A collection is an association list by its
-- unique key, with what MongoDB documents of findOne, findOneAndUpdate and the unique indexes. Ids are
-- numbers; texts are strings. The Redis keys of a service are named by the member or the stock in them; a
-- key that has expired counts as absent. Clock, UUIDs, ObjectIds and hashes come with the call as
-- arguments. Kafka messages are appended to a list; logging is left out. Money in the wallets is an
-- integer of the grid 10^-6 that toFixed(6) keeps. Prices of the trading service are such integers or
-- NaN; the quotient of the average price is a parameter, since the platform rounds it. What is compared
-- as a difference of dates in the source is written as a sum on the other side, where the native numbers
-- do not go below 0. The product of shares and price is exact here and a floating-point number in the
-- source. The trader schema's trimming and lower-casing of names and emails is left out; the
-- authentication service sends them cleaned. The alert worker and the trading service keep their alerts
-- in two collections, as their models are named. In Wallet/Service, Wallet/Adjustment, Wallet/Internal,
-- Trading/Order and Notification a handler is one run that no other call interrupts and that ends before
-- its lock expires; between runs anything may happen to the locks. Where the interleaving matters,
-- Wallet/Race cuts approveWithdrawal into its round trips (without the messages). What others do while a
-- call of the trading service waits for the lock is a parameter. Validations of one-time passwords,
-- rotations of tokens and profile reads are taken one after another too.
--
-- Loops. The three tries for the member's lock and the attempts of the notification service are
-- recursions on the number of tries left; it starts at the source's own limit, so nothing is cut off. The
-- alert worker's loop is on fuel, and one round more than there are alerts is enough (Alerts/Batches).
-- The chunks of its messages have as much fuel as there are alerts. A caller that follows the cursors of
-- the orders is on fuel, and one call more than there are orders is enough
-- (Trading/Order/History/Walking). All other recursions are on a list.
--
-- Parameters. The wallet service of the orders is an interface with laws (Trading/Order/Exchange); Wiring
-- proves them of the wallet model, for every course of the HTTP calls: whether a call is answered, does
-- not arrive or loses its answer on the way back is a parameter. The mail server is the sequence of its
-- answers, the templates a function, the lifetime of the processed keys a number. bcrypt, JWT, the Stripe
-- client, the printing of numbers and ids, and the database's sort and text search are parameters, with
-- what the code relies on as named laws; that bcrypt reads the first 72 characters is in the model of the
-- rotation (Auth/Sessions/Access).
--
-- Not modelled: the gateway, controllers other than the Stripe webhook's, guards, filters, validation of
-- requests other than the amount of the internal endpoints, configuration, the nightly report, and the
-- analytics, which are aggregation pipelines of the database.
pub mod Base
pub mod Pages
pub mod Redis
pub mod Wallet
pub mod Trading
pub mod Wiring
pub mod Auth
pub mod Notification
pub mod Members
pub mod Alerts
