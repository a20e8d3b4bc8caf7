-- ===== src/Standings/Examples.antt =====
-- The standings of a small season (web/src/features/leagues/StandingsView.tsx).
use court_command.Prelude.{ℕ, min, ◌≡◌, List, [], ◌∷◌, leb, length, filter, All}
use court_command.Grouping.{count, in_group}
use court_command.Sorting.{Sorted}
use court_command.Standings.{StandingsEntry, division_of, grouped, ids, IsRanked, grouped_lem}

abbrev placed : ℕ → ℕ → ℕ → StandingsEntry
placed id division_id rank = record { id = id; division_id = division_id; rank = rank }

abbrev season : List StandingsEntry
season = placed 1 9 2 ∷ placed 2 4 1 ∷ placed 3 9 1 ∷ []

grouped_lem_example :
    Sorted leb (ids (grouped season))
    × (((k : ℕ)
          → count k (ids (grouped season))
            ≡ min 1 (length (filter (in_group division_of k) season)))
        × All (IsRanked season) (grouped season))
grouped_lem_example = grouped_lem season
