-- ===== src/Wallet/History.antt =====
-- `findHistory` and `findPendingWithdrawals` of
-- apps/wallet-service/src/modules/transaction/transaction.service.ts, which `getHistory` and
-- `getPendingWithdrawals` of modules/wallet/wallet.service.ts pass on. How the database sorts is a
-- parameter: `newest` for `{ createdAt: -1 }`, `oldest` for `{ createdAt: 1 }`.
pub mod Tests
use mathlib.Core.List.{Perm}
use eurisko_final_proejct.Base.{
  ℕ, suc, ◌≤◌, Bool, true, false, ◌&&◌, Option, none, some, List, leb, ◌==◌, select, ◌≡◌, ◌≢◌, ◌↔◌,
  [], subst, sym,
}
use eurisko_final_proejct.Base.Store.{Store}
use eurisko_final_proejct.Pages.{PaginatedResult, paginate, if_given}
use eurisko_final_proejct.Pages.Tiling.{joined, paginate-Tiled, paginate-Signposted}
use eurisko_final_proejct.Wallet.Data.{
  TransactionType, deposit, withdrawal, buy, sell, adjustment, manual_credit, manual_debit,
  Transaction, Db,
}
use eurisko_final_proejct.Wallet.Service.{is_withdrawal, is_pending}

pub record TransactionHistoryQuery : Type 0 where
  pub user_id : ℕ
  pub type_of : Option TransactionType
  pub from_date : Option ℕ
  pub to_date : Option ℕ
  pub page : ℕ
  pub limit : ℕ

abbrev pub same_type : TransactionType → TransactionType → Bool
same_type deposit deposit = true
same_type withdrawal withdrawal = true
same_type buy buy = true
same_type sell sell = true
same_type adjustment adjustment = true
same_type manual_credit manual_credit = true
same_type manual_debit manual_debit = true
same_type _ _ = false

unfoldable pub in_history : TransactionHistoryQuery → ℕ × Transaction → Bool
in_history q (_, t) =
    t.user_id == q.user_id
    && (if_given q.type_of (same_type t.type_of)
        && (if_given q.from_date (λ d. leb d t.created_at)
            && if_given q.to_date (λ d. leb t.created_at d)))

unfoldable pub in_queue : ℕ × Transaction → Bool
in_queue (_, t) = is_withdrawal t.type_of && is_pending t.status

module _ (newest oldest : Store Transaction → Store Transaction) where
  unfoldable pub find_history : TransactionHistoryQuery → Db → PaginatedResult (ℕ × Transaction)
  find_history q db = paginate newest (in_history q) q.page q.limit db.transactions

  unfoldable pub find_pending_withdrawals : ℕ → ℕ → Db → PaginatedResult (ℕ × Transaction)
  find_pending_withdrawals page limit db = paginate oldest in_queue page limit db.transactions

  -- If the limit is not 0 and the database's sort only reorders the documents, then the pages of a
  -- member's history, read from the first to the last that `totalPages` names, are one after another
  -- the documents that match the query in the database's order, each as often as it is stored; and
  -- on every page, `hasNextPage` says whether the page after it holds anything.
  pub find_history_tiled :
      (q : TransactionHistoryQuery) (db : Db)
      → 1 ≤ q.limit
      → Perm
          (newest (select (in_history q) db.transactions))
          (select (in_history q) db.transactions)
      → let page = λ (n : ℕ). find_history (record q { page = n }) db in
        (joined (λ n. (page n).items) (page 1).meta.total_pages
          ≡ newest (select (in_history q) db.transactions))
        × ((n : ℕ) → ((page n).meta.has_next_page ≡ true) ↔ ((page (suc n)).items ≢ []))
  unfolding find_history in_history
  find_history_tiled q db pos sorted = (
    paginate-Tiled newest (in_history q) q.limit db.transactions pos sorted,
    λ n. (paginate-Signposted newest (in_history q) q.limit db.transactions n pos sorted).0,
  )

  -- If the limit is not 0 and the database's sort only reorders the documents, then the pages of the
  -- queue, read from the first to the last that `totalPages` names, hold exactly the pending
  -- withdrawals, each as often as it is stored, in the database's order.
  pub find_pending_withdrawals_tiled :
      (limit : ℕ) (db : Db)
      → 1 ≤ limit
      → Perm (oldest (select in_queue db.transactions)) (select in_queue db.transactions)
      → let page = λ (n : ℕ). find_pending_withdrawals n limit db in
        let all = joined (λ n. (page n).items) (page 1).meta.total_pages in
        (all ≡ oldest (select in_queue db.transactions))
        × Perm all (select in_queue db.transactions)
  unfolding find_pending_withdrawals
  find_pending_withdrawals_tiled limit db pos sorted =
      let tiled = paginate-Tiled oldest in_queue limit db.transactions pos sorted in
      (tiled, subst (λ l. Perm l (select in_queue db.transactions)) (sym tiled) sorted)
