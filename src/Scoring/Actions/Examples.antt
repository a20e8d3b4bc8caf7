-- ===== src/Scoring/Actions/Examples.antt =====
-- The theorems on scoring actions at concrete inputs.
use court_command.Prelude.{◌≡◌, refl, false, ◌||◌, none, some, [], ◌∷◌}
use court_command.Scoring.Samples.{played, answer}
use court_command.Scoring.Actions.{QueryCache, apply_results}
use court_command.Scoring.Actions.Cache.{last_result, answered, apply_results_lem}

abbrev cold : QueryCache
cold = record { matches = λ _. none; stale_events = λ _. false }

two_answers :
    (apply_results (("m7", answer 1) ∷ ("m7", answer 2) ∷ []) cold).matches "m7" ≡ some (played 2)
unfolding apply_results
two_answers = refl

apply_results_lem_example :
    ((apply_results (("m7", answer 1) ∷ ("m7", answer 2) ∷ []) cold).matches "m7"
      ≡ last_result "m7" (("m7", answer 1) ∷ ("m7", answer 2) ∷ []) none)
    × ((apply_results (("m7", answer 1) ∷ ("m7", answer 2) ∷ []) cold).stale_events "m7"
        ≡ (answered "m7" (("m7", answer 1) ∷ ("m7", answer 2) ∷ []) || false))
apply_results_lem_example = apply_results_lem "m7" (("m7", answer 1) ∷ ("m7", answer 2) ∷ []) cold
