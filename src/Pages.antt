-- ===== src/Pages.antt =====
-- Offset paging and optional conditions of queries, as apps/wallet-service/src/modules/transaction/transaction.service.ts and
-- apps/user-service/src/modules/member/member.service.ts compute it, with `PaginatedResult` and
-- `PaginationMeta` of their common types. How the database orders the documents is a parameter.
pub mod Tiling
use eurisko_final_proejct.Base.{
  ℕ, ◌+◌, ◌-◌, ◌*◌, ◌/◌, Bool, true, Option, none, some, List, length, take, drop, select, ltb,
}

pub record PaginationMeta : Type 0 where
  pub total : ℕ
  pub page : ℕ
  pub limit : ℕ
  pub total_pages : ℕ
  pub has_next_page : Bool
  pub has_prev_page : Bool

pub record PaginatedResult (A : Type 0) : Type 0 where
  pub items : List A
  pub meta : PaginationMeta

-- A condition that the filter has only if the query gives the value.
abbrev pub if_given : {A : Type 0} → Option A → (A → Bool) → Bool
if_given none test = true
if_given (some a) test = test a

-- `Math.ceil(total / limit)`, for a limit that is not 0.
abbrev pub ceil_div : ℕ → ℕ → ℕ
ceil_div total limit = (total + (limit - 1)) / limit

module _ {A : Type 0} where
  -- `find(filter).sort(...).skip((page - 1) * limit).limit(limit)`, for a page from 1 on.
  unfoldable pub page_items : (List A → List A) → (A → Bool) → ℕ → ℕ → List A → List A
  page_items sort filter page limit docs =
      take limit (drop ((page - 1) * limit) (sort (select filter docs)))

  unfoldable pub paginate : (List A → List A) → (A → Bool) → ℕ → ℕ → List A → PaginatedResult A
  paginate sort filter page limit docs =
      let total = length (select filter docs) in
      let total_pages = ceil_div total limit in
      record {
        items = page_items sort filter page limit docs;
        meta = record {
          total = total;
          page = page;
          limit = limit;
          total_pages = total_pages;
          has_next_page = ltb page total_pages;
          has_prev_page = ltb 1 page;
        };
      }
