-- ===== src/Scoring/Console.antt =====
-- The two scoring consoles: the referee's (web/src/features/referee/RefMatchConsole.tsx) and the
-- scorekeeper's (web/src/features/scorekeeper/ScorekeeperMatchConsole.tsx), with the buttons of
-- web/src/features/scoring/MatchScoreboard.tsx and ScoringButtons.tsx.
-- What the hooks return at a render is an `Env`; a press, a click, or the answer to a request is an
-- event; the requests, the toasts and the feedback are logs. The match is loaded.
pub mod Referee
pub mod Scorekeeper
pub mod Safety
pub mod Confirm
mod Examples
use court_command.Scoring.Socket.{WebSocketState, open_}
use Prim.Native.String.{String}
use court_command.Prelude.{
  ℕ, Bool, true, false, not, ◌&&◌, ◌||◌, Option, none, some, List, [], ◌∷◌, ◌++◌, if◌then◌else◌,
  or_else,
}
use court_command.Scoring.Match.{
  Match, MatchStatus, scheduled, warmup, in_progress, paused, completed, cancelled, forfeited,
  ScoringType, side_out, rally, Team, team_1, team_2, ScoringActionResult,
}
use court_command.Scoring.Actions.{
  Action, point, side_out as send_side_out, undo, call_timeout, pause, resume, confirm_game_over,
  confirm_match_over, start,
}
use court_command.Scoring.Keyboard.{ScoringPrefs, KeyboardEvent, Command, on_key}

pub data Tick : Type 0 where
  point_tick side_out_tick undo_tick : Tick

pub data Effect : Type 0 where
  vibrate : Effect
  play_tick : Tick → Effect
  toast_success toast_info toast_error : String → Effect

-- The mutations that are on their way.
pub record Pending : Type 0 where
  pub score_point : Bool
  pub side_out : Bool
  pub undo : Bool
  pub call_timeout : Bool
  pub confirm_game_over : Bool
  pub confirm_match_over : Bool
  pub pause : Bool
  pub resume : Bool
  pub start_match : Bool

pub record Env : Type 0 where
  pub match : Match
  pub socket : WebSocketState
  pub prefs : ScoringPrefs
  pub privileged : Bool
  pub pending : Pending

abbrev pub is_open : WebSocketState → Bool
is_open open_ = true
is_open _ = false

abbrev pub is_in_progress : MatchStatus → Bool
is_in_progress in_progress = true
is_in_progress _ = false

abbrev pub is_rally : ScoringType → Bool
is_rally rally = true
is_rally side_out = false

abbrev pub is_given {ℓ} : {A : Type ℓ} → Option A → Bool
is_given none = false
is_given (some a) = true

-- `ws.state !== 'open'`.
abbrev pub disabled : Env → Bool
disabled env = not (is_open env.socket)

abbrev pub keyboard_enabled : Env → Bool
keyboard_enabled env = env.prefs.keyboard && (is_in_progress env.match.status && not (disabled env))

-- The buttons of the scoreboard; `point_serving` is the one of the side-out layout.
pub data Button : Type 0 where
  point_first point_second point_serving side_out_button undo_button timeout_button : Button

-- Whether a button is there and takes a click; a button that is loading does not.
pub button_enabled : Env → Bool → Button → Bool
button_enabled env pending point_first =
    is_rally env.match.scoring_type && not (disabled env || pending)
button_enabled env pending point_second =
    is_rally env.match.scoring_type && not (disabled env || pending)
button_enabled env pending point_serving =
    not (is_rally env.match.scoring_type)
    && not ((disabled env || not (is_given env.match.serving_team)) || pending)
button_enabled env pending side_out_button =
    not (is_rally env.match.scoring_type)
    && not (disabled env || not (is_given env.match.serving_team))
button_enabled env pending undo_button = not (disabled env)
button_enabled env pending timeout_button =
    not (disabled env || not (is_given env.match.serving_team))

pub data Outcome : Type 0 where
  succeeded : ScoringActionResult → Outcome
  failed : (message : String) → Outcome

abbrev pub feedback : ScoringPrefs → Tick → List Effect
feedback prefs variant =
    (if prefs.haptic then vibrate ∷ [] else [])
    ++ (if prefs.sound then play_tick variant ∷ [] else [])
