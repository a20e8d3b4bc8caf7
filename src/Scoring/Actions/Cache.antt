-- ===== src/Scoring/Actions/Cache.antt =====
-- What the cache holds after scoring actions, and what tells their requests apart
-- (web/src/features/scoring/hooks.ts).
use Prim.Native.String.{String}
use text.Mathlib.Text.{◌==◌ as str_eq}
use court_command.Prelude.{
  ◌≡◌, refl, sym, ap, ◌∙◌, Bool, false, ◌||◌, Option, none, some, List, [], ◌∷◌, arith,
  if◌then◌else◌,
}
use court_command.Scoring.Match.{team_1, Match, ScoringActionResult}
use court_command.Scoring.Actions.{
  Action, start, point, side_out, undo, remove_point, confirm_game_over, confirm_match_over,
  call_timeout, pause, resume, declare_forfeit, override_score, Value, text_value, team_value,
  number_value, games_value, Request, endpoint, request, QueryCache, apply_result, apply_results,
}

-- The last answer for the id, or what was there before.
abbrev pub last_result : String → List (String × ScoringActionResult) → Option Match → Option Match
last_result id [] before = before
last_result id ((k, r) ∷ rs) before =
    last_result id rs (if str_eq k id then some r.result else before)

abbrev pub answered : String → List (String × ScoringActionResult) → Bool
answered id [] = false
answered id ((k, r) ∷ rs) = str_eq k id || answered id rs

-- After any answers in any order, the cached match of an id is that of the last answer for the id,
-- or as before if there was none, and its events are to be fetched again if there was one, or as
-- before.
pub apply_results_lem :
    (id : String) (rs : List (String × ScoringActionResult)) (c : QueryCache)
    → ((apply_results rs c).matches id ≡ last_result id rs (c.matches id))
      × ((apply_results rs c).stale_events id ≡ (answered id rs || c.stale_events id))
unfolding apply_results
apply_results_lem id [] c = (refl, refl)
apply_results_lem id ((k, r) ∷ rs) c = ground (arith, apply_results_lem id rs (apply_result k r c))

-- The action that a request stands for.
abbrev read_body : Action → List (String × Value) → Option Action
read_body (start _ _ _) ((_, text_value scored_by) ∷ (_, team_value t) ∷ (_, number_value p) ∷ []) =
    some (start scored_by t p)
read_body (point _) ((_, team_value t) ∷ []) = some (point t)
read_body (call_timeout _) ((_, team_value (some t)) ∷ []) = some (call_timeout t)
read_body (declare_forfeit _ _) ((_, team_value (some t)) ∷ (_, text_value (some reason)) ∷ []) =
    some (declare_forfeit t reason)
read_body (override_score _ _) ((_, games_value gs) ∷ (_, text_value (some reason)) ∷ []) =
    some (override_score gs reason)
read_body a _ = some a

-- An action for each endpoint, its arguments left open.
abbrev samples : List Action
samples =
    start none none none
    ∷ point none
    ∷ side_out
    ∷ undo
    ∷ remove_point
    ∷ confirm_game_over
    ∷ confirm_match_over
    ∷ call_timeout team_1
    ∷ pause
    ∷ resume
    ∷ declare_forfeit team_1 ""
    ∷ override_score [] ""
    ∷ []

abbrev read_as : String → List (String × Value) → List Action → Option Action
read_as e b [] = none
read_as e b (a ∷ rest) = if str_eq e (endpoint a) then read_body a b else read_as e b rest

abbrev read : Request → Option Action
read r = read_path r.path r.body
  where
    read_path : List String → List (String × Value) → Option Action
    read_path (id ∷ e ∷ []) b = read_as e b samples
    read_path _ b = none

read-request : (id : String) (a : Action) → read (request id a) ≡ some a
unfolding request
read-request id (start scored_by t p) = refl
read-request id (point t) = refl
read-request id (call_timeout t) = refl
read-request id (declare_forfeit t reason) = refl
read-request id (override_score gs reason) = refl
read-request id a = refl

-- Two actions that send the same request for a match are the same action.
pub request_injective : (id : String) (a b : Action) → request id a ≡ request id b → a ≡ b
request_injective id a b e =
    let same : some a ≡ some b = sym (read-request id a) ∙ ap read e ∙ read-request id b in cc
