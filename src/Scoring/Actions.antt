-- ===== src/Scoring/Actions.antt =====
-- The scoring mutations (web/src/features/scoring/hooks.ts): the request of each, and what a
-- successful one does to the query cache.
-- A path is the list of its segments behind /api/v1/matches/public; every request is a POST.
pub mod Cache
mod Examples
use Prim.Native.String.{String}
use text.Mathlib.Text.{◌==◌ as str_eq}
use court_command.Prelude.{ℕ, Bool, Option, none, some, List, [], ◌∷◌, if◌then◌else◌}
use court_command.Scoring.Match.{Team, Match, ScoringActionResult}

pub record OverrideGameInput : Type 0 where
  pub game_number : ℕ
  pub team_1_score : ℕ
  pub team_2_score : ℕ
  pub winner : Option Team

pub data Action : Type 0 where
  start : Option String → Option Team → Option ℕ → Action
  point : Option Team → Action
  side_out undo remove_point confirm_game_over confirm_match_over : Action
  call_timeout : Team → Action
  pause resume : Action
  declare_forfeit : Team → String → Action
  override_score : List OverrideGameInput → String → Action

-- The body as named values.
pub data Value : Type 0 where
  text_value : Option String → Value
  team_value : Option Team → Value
  number_value : Option ℕ → Value
  games_value : List OverrideGameInput → Value

pub record Request : Type 0 where
  pub path : List String
  pub body : List (String × Value)

abbrev pub endpoint : Action → String
endpoint (start scored_by team player) = "start"
endpoint (point team) = "point"
endpoint side_out = "sideout"
endpoint undo = "undo"
endpoint remove_point = "remove-point"
endpoint confirm_game_over = "confirm-game"
endpoint confirm_match_over = "confirm-match"
endpoint (call_timeout team) = "timeout"
endpoint pause = "pause"
endpoint resume = "resume"
endpoint (declare_forfeit team reason) = "forfeit"
endpoint (override_score games reason) = "override"

abbrev pub body : Action → List (String × Value)
body (start scored_by first_team first_player) =
    ("scored_by_name", text_value scored_by)
    ∷ ("first_serving_team", team_value first_team)
    ∷ ("first_serving_player_id", number_value first_player)
    ∷ []
body (point t) = ("team", team_value t) ∷ []
body (call_timeout t) = ("team", team_value (some t)) ∷ []
body (declare_forfeit t reason) =
    ("forfeiting_team", team_value (some t)) ∷ ("reason", text_value (some reason)) ∷ []
body (override_score gs reason) =
    ("games", games_value gs) ∷ ("reason", text_value (some reason)) ∷ []
body _ = []

pub request : String → Action → Request
request public_id a = record { path = public_id ∷ endpoint a ∷ []; body = body a }

-- The cache entries ['matches', id] and ['match-events', id]: the match with no value for none, and
-- whether the events are to be fetched again.
pub record QueryCache : Type 0 where
  pub matches : String → Option Match
  pub stale_events : String → Bool

abbrev pub put {ℓ} : {A : Type ℓ} → String → A → (String → A) → String → A
put key v f k = if str_eq key k then v else f k

pub invalidate_match : String → QueryCache → QueryCache
invalidate_match public_id c = record c { stale_events = put public_id Bool.true c.stale_events }

pub apply_result : String → ScoringActionResult → QueryCache → QueryCache
unfolding invalidate_match
apply_result public_id r c =
    invalidate_match public_id (record c { matches = put public_id (some r.result) c.matches })

-- The successful answers in the order in which they come, each with the id of its request.
pub apply_results : List (String × ScoringActionResult) → QueryCache → QueryCache
unfolding apply_result
apply_results [] c = c
apply_results ((public_id, r) ∷ rs) c = apply_results rs (apply_result public_id r c)
