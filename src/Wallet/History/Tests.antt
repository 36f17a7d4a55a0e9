-- ===== src/Wallet/History/Tests.antt =====
-- A history of three records, paged by two, and the queue of the withdrawals that wait.
use mathlib.Core.List.{Perm}
use mathlib.Core.List.Perm
use eurisko_final_proejct.Base.{
  ℕ, ◌≡◌, ◌≢◌, ◌↔◌, suc, refl, true, none, some, [], ◌∷◌, leb, if◌then◌else◌, arith,
}
use eurisko_final_proejct.Base.Int.{pos}
use eurisko_final_proejct.Base.Store.{Store}
use eurisko_final_proejct.Pages.{paginate, page_items}
use eurisko_final_proejct.Pages.Tiling.{joined}
use eurisko_final_proejct.Wallet.Data.{
  TransactionType, TransactionStatus, deposit, withdrawal, pending, completed, Transaction, Db,
}
use eurisko_final_proejct.Wallet.History.{
  TransactionHistoryQuery, in_history, in_queue, find_history, find_pending_withdrawals,
  find_history_tiled, find_pending_withdrawals_tiled,
}

abbrev entry : TransactionType → TransactionStatus → ℕ → Transaction
entry kind status now = record {
  user_id = 7;
  type_of = kind;
  status = status;
  amount = pos 5;
  balance_before = pos 0;
  balance_after = none;
  currency = "USD";
  stripe_payment_intent_id = none;
  stripe_session_id = none;
  idempotency_key = "key";
  processed_by_cms_user_id = none;
  rejection_reason = none;
  adjustment_note = none;
  processed_at = none;
  created_at = now;
}

abbrev first_deposit : ℕ × Transaction
first_deposit = (1, entry deposit completed 10)

abbrev early : ℕ × Transaction
early = (2, entry withdrawal pending 20)

abbrev late : ℕ × Transaction
late = (3, entry withdrawal pending 30)

abbrev db : Db
db = record {
  wallets = [];
  transactions = first_deposit ∷ late ∷ early ∷ [];
  locks = [];
  events = [];
}

-- Insertion sorts by the time of creation.
abbrev put_newest : ℕ × Transaction → Store Transaction → Store Transaction
put_newest d [] = d ∷ []
put_newest d (e ∷ rest) =
    let below = put_newest d rest in
    if leb e.1.created_at d.1.created_at then d ∷ e ∷ rest else e ∷ below

abbrev newest : Store Transaction → Store Transaction
newest [] = []
newest (d ∷ rest) = put_newest d (newest rest)

abbrev put_oldest : ℕ × Transaction → Store Transaction → Store Transaction
put_oldest d [] = d ∷ []
put_oldest d (e ∷ rest) =
    let below = put_oldest d rest in
    if leb d.1.created_at e.1.created_at then d ∷ e ∷ rest else e ∷ below

abbrev oldest : Store Transaction → Store Transaction
oldest [] = []
oldest (d ∷ rest) = put_oldest d (oldest rest)

abbrev withdrawals : TransactionHistoryQuery
withdrawals = record {
  user_id = 7;
  type_of = some withdrawal;
  from_date = some 15;
  to_date = none;
  page = 1;
  limit = 1;
}

history_first : (find_history newest oldest withdrawals db).items ≡ late ∷ []
unfolding find_history in_history paginate page_items
history_first = refl

queue_second : (find_pending_withdrawals newest oldest 2 1 db).items ≡ late ∷ []
unfolding find_pending_withdrawals in_queue paginate page_items
queue_second = refl

find_history_tiled_example :
    (joined (λ n. (find_history newest oldest (record withdrawals { page = n }) db).items) 2
      ≡ late ∷ early ∷ [])
    × ((n : ℕ)
        → ((find_history newest oldest (record withdrawals { page = n }) db).meta.has_next_page
            ≡ true)
          ↔ ((find_history newest oldest (record withdrawals { page = suc n }) db).items ≢ []))
unfolding find_history in_history paginate
find_history_tiled_example =
    find_history_tiled newest oldest withdrawals db (omega arith) (Perm.refl (late ∷ early ∷ []))

find_pending_withdrawals_tiled_run :
    let all = joined (λ n. (find_pending_withdrawals newest oldest n 1 db).items) 2 in
    (all ≡ early ∷ late ∷ []) × Perm all (late ∷ early ∷ [])
unfolding find_pending_withdrawals in_queue paginate
find_pending_withdrawals_tiled_run =
    find_pending_withdrawals_tiled newest oldest 1 db (omega arith) (Perm.swap late early [])
