-- ===== src/Paging.antt =====
-- Lists shown page by page (web/src/hooks/usePagination.ts, web/src/components/Pagination.tsx).
pub mod Walk
mod Examples
use court_command.Prelude.{
  ℕ, zero, suc, ◌+◌, ◌-◌, ◌*◌, ◌/◌, ◌%◌, ◌^◌, ◌≤◌, ◌<◌, min, max, ◌≡◌, refl, sym, ap, ◌∙◌, subst,
  ◌≢◌, ◌↔◌, ◌⊎◌, inl, inr, Bool, true, false, not, ◌&&◌, ◌||◌, false≢true, Option, none, some, List,
  [], ◌∷◌, ◌++◌, map, arith, ltb, leb, ◌==◌, if◌then◌else◌, ltb→lt, lt→ltb, leb→le, ==_iff, ==_refl,
  Bool-cases, Option-cases, or_else, if_both, length, get_elem?, filter, any, all, length-append,
  length-filter-le, filter-filter, any-filter, filter-eq_of_length, filter-all, filter-true,
  filter-false, filter-append, All, In, Ordered, All-filter, Ordered-filter, In-filter,
  In-of_filter, In-map, All-map, All-In, All-append, Ordered-map,
}

-- `usePagination`: the page, from one on, and the limit.
pub record PaginationState : Type 0 where
  pub page : ℕ
  pub limit : ℕ

abbrev pub initial : ℕ → PaginationState
initial limit = record { page = 1; limit = limit }

pub offset : PaginationState → ℕ
offset s = (s.page - 1) * s.limit

pub set_page : ℕ → PaginationState → PaginationState
set_page page s = record s { page = page }

pub next_page : PaginationState → PaginationState
next_page s = record s { page = s.page + 1 }

pub prev_page : PaginationState → PaginationState
prev_page s = record s { page = max 1 (s.page - 1) }

-- `Math.ceil(total / limit)`, where the limit is not zero.
pub total_pages : ℕ → PaginationState → ℕ
total_pages total s = (total + s.limit - 1) / s.limit

-- The buttons of `Pagination` that are drawn and enabled.
pub prev_enabled : ℕ → ℕ → Bool
prev_enabled page pages = ltb 1 pages && ltb 1 page

pub next_enabled : ℕ → ℕ → Bool
next_enabled page pages = ltb 1 pages && ltb page pages

abbrev pub added : {A : Type 0} → List A → Option (List (List A)) → Option (List (List A))
added shown none = none
added shown (some later) = some (shown ∷ later)

-- The pages seen by who clicks the button for the next page for as long as it is enabled, each with
-- the items fetched for it; none if the clicks run out first.
pub walk : {A : Type 0} → (ℕ → ℕ → List A) → ℕ → ℕ → PaginationState → Option (List (List A))
unfolding offset set_page total_pages next_enabled
walk fetch total zero s = none
walk fetch total (suc clicks) s =
    let later = walk fetch total clicks (set_page (s.page + 1) s) in
    let shown = fetch s.limit (offset s) in
    if next_enabled s.page (total_pages total s) then added shown later else some (shown ∷ [])
