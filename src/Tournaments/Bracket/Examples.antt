-- ===== src/Tournaments/Bracket/Examples.antt =====
-- A bracket (web/src/features/tournaments/DivisionBracket.tsx) and what it shows.
use court_command.Prelude.{ℕ, min, ◌≡◌, Option, none, some, List, [], ◌∷◌, leb, length, filter}
use court_command.Tournaments.Bracket.{get_round_label, BracketMatch, round_keys, round_matches}
use court_command.Tournaments.Bracket.Columns.{is_round, in_order, columns_lem}
use court_command.Grouping.{count}
use court_command.Sorting.{sort, Sorted}

abbrev game : ℕ → Option ℕ → ℕ → BracketMatch
game id round number = record {
  id = id;
  round = round;
  match_number = some number;
  round_name = none;
}

abbrev bracket : List BracketMatch
bracket = game 1 (some 2) 1 ∷ game 2 none 2 ∷ game 3 (some 1) 1 ∷ []

columns_lem_example :
    Sorted leb (round_keys bracket)
    × (((k : ℕ)
          → (count k (round_keys bracket)
              ≡ min 1 (length (filter (λ m. is_round k m.round) bracket)))
            × (round_matches bracket k
                ≡ sort
                    (λ a b. in_order a.match_number b.match_number)
                    (filter (λ m. is_round k m.round) bracket)))
        × ((j k : ℕ)
            → get_round_label j (length (round_keys bracket)) none
              ≡ get_round_label k (length (round_keys bracket)) none
            → j ≡ k))
columns_lem_example = columns_lem bracket
