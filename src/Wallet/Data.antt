-- ===== src/Wallet/Data.antt =====
-- The documents of apps/wallet-service/src/database/schemas, the enumerations of common/constants, and
-- the state that one handler sees. Ids (ObjectIds) are only compared, so they are numbers; amounts and
-- balances are integers of the grid 10^-6 that `toFixed(6)` keeps; times are in milliseconds.
use eurisko_final_proejct.Base.{ℕ, String, Bool, List, Option}
use eurisko_final_proejct.Base.Int.{ℤ}
use eurisko_final_proejct.Base.Store.{Store}
use eurisko_final_proejct.Redis.{Entry}

pub data TransactionType : Type 0 where
  deposit withdrawal buy sell adjustment manual_credit manual_debit : TransactionType

pub data TransactionStatus : Type 0 where
  pending completed rejected : TransactionStatus

-- A wallet document, found by its unique `userId`.
pub record Wallet : Type 0 where
  pub balance : ℤ
  pub currency : String
  pub last_deposit_at : Option ℕ

-- A transaction document, found by its `_id`.
pub record Transaction : Type 0 where
  pub user_id : ℕ
  pub type_of : TransactionType
  pub status : TransactionStatus
  pub amount : ℤ
  pub balance_before : ℤ
  pub balance_after : Option ℤ
  pub currency : String
  pub stripe_payment_intent_id : Option String
  pub stripe_session_id : Option String
  pub idempotency_key : String
  pub processed_by_cms_user_id : Option String
  pub rejection_reason : Option String
  pub adjustment_note : Option String
  pub processed_at : Option ℕ
  pub created_at : ℕ

-- The Kafka messages of apps/wallet-service/src/modules/messaging/wallet-events.service.ts.
pub data Event : Type 0 where
  wallet_credited :
      (user_id : ℕ) (email name : String) (amount new_balance : ℤ) (currency : String)
      (transaction_id : ℕ)
      → Event
  withdrawal_requested :
      (user_id : ℕ) (email name : String) (amount : ℤ) (currency : String) (transaction_id : ℕ)
      → Event
  withdrawal_processed :
      (user_id : ℕ) (email name : String) (amount : ℤ) (approved : Bool)
      (rejection_reason : Option String) (currency : String) (transaction_id : ℕ)
      → Event

-- The database, the Redis keys `lock:wallet:{userId}` (named by the user) and the messages sent.
pub record Db : Type 0 where
  pub wallets : Store Wallet
  pub transactions : Store Transaction
  pub locks : Store Entry
  pub events : List Event

-- One constructor for each `throw` that a client can tell apart.
pub data Error : Type 0 where
  wallet_not_found deposit_out_of_range insufficient_balance transaction_not_found : Error
  not_a_withdrawal auto_rejected negative_adjustment duplicate_key wallet_locked : Error
  holding_period : (remaining_hrs : ℕ) → Error
  already_settled : TransactionStatus → Error

-- `member` of the handlers.
pub record MemberContext : Type 0 where
  pub user_id : ℕ
  pub email : String
  pub name : String

-- What one call draws from outside: the clock, `randomUUID` (for the lock and for a key), the `_id` of a
-- document that it creates, and the text of an ObjectId.
pub record Call : Type 0 where
  pub now : ℕ
  pub lock_token : String
  pub uuid : String
  pub new_id : ℕ
  pub id_text : ℕ → String

-- The configuration values read with `??`.
pub record Config : Type 0 where
  pub min_deposit : Option ℤ
  pub max_deposit : Option ℤ
  pub withdrawal_hold_hrs : Option ℕ
  pub lock_ttl_ms : Option ℕ
