-- ===== src/Scoring/Override/Examples.antt =====
-- An override of a match in its second game (web/src/features/scoring/ScoreOverrideModal.tsx).
use court_command.Prelude.{◌≡◌, refl, true, false, some, List, [], ◌∷◌, ◌++◌}
use court_command.Scoring.Samples.{played}
use court_command.Scoring.Match.{Team}
use court_command.Scoring.Override
use court_command.Prelude.Text.{is_space}
use court_command.Scoring.Actions
use court_command.Scoring.Override.{Dialog, Event, build_initial_rows, mounted, run}
use court_command.Scoring.Override.Edits.{applied, edited_rows, typed_reason, override_applies}

-- The first score is set to eleven, a point comes in, and the winner is chosen.
abbrev correction : List Event
correction =
    Event.row_edited 0 (Override.RowEdit.set_team_1_score 11)
    ∷ Event.match_given true (played 9)
    ∷ Event.row_edited 0 (Override.RowEdit.set_winner (some Team.team_1))
    ∷ Event.reason_typed "  Scored on paper "
    ∷ []

-- The dialog was open before, and was closed with a score typed and not sent.
abbrev given_up : List Event
given_up =
    Event.match_given true (played 2)
    ∷ Event.row_edited 0 (Override.RowEdit.set_team_1_score 9)
    ∷ Event.reason_typed "Scored by mistake"
    ∷ Event.match_given false (played 2)
    ∷ []

override_applies_example :
    (run
      (Event.match_given true (played 4) ∷ (correction ++ Event.submitted ∷ []))
      (run given_up (mounted false (played 2)))).sent
    ≡ applied "m7"
        (edited_rows correction (build_initial_rows (played 4)))
        (typed_reason correction "")
      ++ (run given_up (mounted false (played 2))).sent
unfolding run Override.step Override.rendered mounted
override_applies_example = override_applies (played 2) (played 4) given_up correction refl refl refl

correction_scores :
    (run
      (given_up ++ Event.match_given true (played 4) ∷ (correction ++ Event.submitted ∷ []))
      (mounted false (played 2))).sent
    ≡ Actions.request "m7" (
        Actions.override_score
          (record {
            game_number = 1;
            team_1_score = 11;
            team_2_score = 0;
            winner = some Team.team_1;
          }
            ∷ [])
          "Scored on paper")
      ∷ []
unfolding run Override.step Override.update_row Override.submit Override.rendered Override.reset_to
    mounted build_initial_rows is_space
correction_scores = refl
