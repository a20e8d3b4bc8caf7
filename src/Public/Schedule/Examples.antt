-- ===== src/Public/Schedule/Examples.antt =====
-- The schedule at concrete inputs.
use court_command.Prelude.{ℕ, ◌≡◌, refl, Option, none, some, List, [], ◌∷◌, filter}
use court_command.Prelude.Text.{same_text}
use court_command.Scoring.Match.{MatchStatus, scheduled, in_progress}
use court_command.Public.Schedule.{LiveMatch, live, passes, numbered, round_key, by_round}
use court_command.Public.Schedule.Rounds.{under, headings, keys, by_round_lem}

abbrev at : ℕ → MatchStatus → Option ℕ → LiveMatch
at id status round = record { id = id; status = status; round = round; round_name = none }

abbrev matches : List LiveMatch
matches =
    at 1 in_progress (some 2)
    ∷ at 2 scheduled (some 1)
    ∷ at 3 in_progress none
    ∷ at 4 in_progress (some 2)
    ∷ []

-- The number of a round is written out.
numbered_12 : numbered (some 12) ≡ "Round 12"
unfolding numbered
numbered_12 = refl

by_round_lem_example :
    (under "Round 2" (by_round live matches)
      ≡ filter (λ m. same_text (round_key m) "Round 2") (filter (passes live) matches))
    × (keys (by_round live matches) ≡ headings [] (filter (passes live) matches))
by_round_lem_example = by_round_lem live matches "Round 2"
