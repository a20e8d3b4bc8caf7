-- ===== src/Paging/Examples.antt =====
-- Five items, two to a page (web/src/hooks/usePagination.ts).
use court_command.Prelude.{ℕ, ◌≡◌, refl, some, List, [], ◌∷◌, arith}
use court_command.Paging.{total_pages, initial, walk}
use court_command.Paging.Walk.{take, drop, concat, walk_ends}

abbrev five : List ℕ
five = 1 ∷ 2 ∷ 3 ∷ 4 ∷ 5 ∷ []

abbrev slice : ℕ → ℕ → List ℕ
slice limit offset = take limit (drop offset five)

walk_ends_example :
    (pages : List (List ℕ)) × ((walk slice 5 3 (initial 2) ≡ some pages) × (concat pages ≡ five))
unfolding total_pages
walk_ends_example = walk_ends slice five (λ l o. refl) 3 2 (omega arith) (omega arith) (omega arith)
