-- ===== src/Scoring/Console/Scorekeeper.antt =====
-- The scorekeeper's console (web/src/features/scorekeeper/ScorekeeperMatchConsole.tsx): no prompts,
-- a game or a match that is over is confirmed at once.
use Prim.Native.String.{String}
use court_command.Prelude.{
  ℕ, Bool, true, false, not, ◌&&◌, ◌||◌, Option, none, some, List, [], ◌∷◌, ◌++◌, if◌then◌else◌,
}
use court_command.Scoring.Match.{MatchStatus, scheduled, Team, team_1, team_2, ScoringActionResult}
use court_command.Scoring.Actions.{
  Action, start, point, side_out, undo, confirm_game_over, confirm_match_over,
}
use court_command.Scoring.Keyboard.{KeyboardEvent, Command, on_key}
use court_command.Scoring.Console.{
  Env, Effect, toast_success, toast_error, point_tick, side_out_tick, undo_tick, feedback, is_rally,
  keyboard_enabled, Button, point_first, point_second, point_serving, side_out_button, undo_button,
  timeout_button, button_enabled, Outcome, succeeded, failed,
}

pub record Keeper : Type 0 where
  pub sent : List Action
  pub effects : List Effect

pub data Event : Type 0 where
  key : KeyboardEvent → Event
  click : Button → Event
  begin : Option String → Team → Option ℕ → Event
  answer : Action → Outcome → Event

abbrev send : Action → Keeper → Keeper
send a k = record k { sent = k.sent ++ a ∷ [] }

abbrev emit : List Effect → Keeper → Keeper
emit es k = record k { effects = k.effects ++ es }

pub auto_confirm : ScoringActionResult → Keeper → Keeper
auto_confirm res k =
    if res.match_over_detected
    then send confirm_match_over k
    else if res.game_over_detected
    then send confirm_game_over k
    else k

-- There is no handler for the timeout and the escape keys.
pub on_command : Env → Command → Keeper → Keeper
on_command env Command.point_team1 k =
    send (point (if is_rally env.match.scoring_type then some team_1 else env.match.serving_team)) k
on_command env Command.point_team2 k =
    if is_rally env.match.scoring_type then send (point (some team_2)) k else k
on_command env Command.side_out k = if is_rally env.match.scoring_type then k else send side_out k
on_command env Command.undo k = send undo k
on_command env Command.timeout k = k
on_command env Command.escape k = k

-- The scoreboard's timeout button is drawn here too; its handler does nothing.
pub on_click : Env → Button → Keeper → Keeper
on_click env point_first k = send (point (some team_1)) k
on_click env point_second k = send (point (some team_2)) k
on_click env point_serving k = send (point env.match.serving_team) k
on_click env side_out_button k = send side_out k
on_click env undo_button k = send undo k
on_click env timeout_button k = k

pub on_answer : Env → Action → Outcome → Keeper → Keeper
unfolding auto_confirm
on_answer env (point team) (succeeded res) k =
    auto_confirm res (emit (feedback env.prefs point_tick) k)
on_answer env side_out (succeeded res) k =
    auto_confirm res (emit (feedback env.prefs side_out_tick) k)
on_answer env undo (succeeded res) k = emit (feedback env.prefs undo_tick) k
on_answer env (start by team player) (succeeded res) k = emit (toast_success "Match started" ∷ []) k
on_answer env _ (succeeded res) k = k
on_answer env a (failed message) k = emit (toast_error message ∷ []) k

abbrev on_command? : Env → Option Command → Keeper → Keeper
on_command? env none k = k
on_command? env (some command) k = on_command env command k

abbrev is_scheduled : MatchStatus → Bool
is_scheduled scheduled = true
is_scheduled _ = false

abbrev scoreboard_pending : Env → Bool
scoreboard_pending env = env.pending.score_point || (env.pending.side_out || env.pending.undo)

-- The scoreboard is drawn for every match that is not scheduled.
unfoldable pub step : Env → Keeper → Event → Keeper
unfolding on_command on_click on_answer button_enabled
step env k (key e) = on_command? env (on_key (keyboard_enabled env) e) k
step env k (click b) =
    if not (is_scheduled env.match.status) && button_enabled env (scoreboard_pending env) b
    then on_click env b k
    else k
step env k (begin by team player) =
    if is_scheduled env.match.status && not env.pending.start_match
    then send (start by (some team) player) k
    else k
step env k (answer a outcome) = on_answer env a outcome k
