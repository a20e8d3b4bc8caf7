-- ===== src/Scoring/Console/Referee.antt =====
-- The referee's console (web/src/features/referee/RefMatchConsole.tsx).
use Prim.Native.String.{String}
use court_command.Prelude.{
  ℕ, Bool, true, false, not, ◌&&◌, ◌||◌, Option, none, some, List, [], ◌∷◌, ◌++◌, if◌then◌else◌,
  or_else,
}
use court_command.Scoring.Match.{
  MatchStatus, scheduled, completed, Team, team_1, team_2, ScoringActionResult,
}
use court_command.Scoring.Actions.{
  Action, start, point, side_out, undo, call_timeout, pause, resume, confirm_game_over,
  confirm_match_over,
}
use court_command.Scoring.Keyboard.{KeyboardEvent, Command, on_key}
use court_command.Scoring.Console.{
  Env, Effect, toast_success, toast_info, toast_error, point_tick, side_out_tick, undo_tick,
  feedback, is_rally, keyboard_enabled, Button, point_first, point_second, point_serving,
  side_out_button, undo_button, timeout_button, button_enabled, Outcome, succeeded, failed,
}

pub record Console : Type 0 where
  pub game_over_prompt : Bool
  pub match_over_prompt : Bool
  pub override_open : Bool
  pub menu_open : Bool
  pub sent : List Action
  pub effects : List Effect

pub data Event : Type 0 where
  key : KeyboardEvent → Event
  click : Button → Event
  click_menu click_away click_override click_pause : Event
  close_override : Event
  confirm_game continue_game confirm_match continue_match : Event
  begin : Option String → Team → Option ℕ → Event
  answer : Action → Outcome → Event

abbrev send : Action → Console → Console
send a c = record c { sent = c.sent ++ a ∷ [] }

abbrev emit : List Effect → Console → Console
emit es c = record c { effects = c.effects ++ es }

pub handle_result : ScoringActionResult → Console → Console
handle_result res c =
    if res.match_over_detected
    then record c { match_over_prompt = true }
    else if res.game_over_detected
    then record c { game_over_prompt = true }
    else c

pub handle_pause_toggle : Env → Console → Console
handle_pause_toggle env c = send (if env.match.is_paused then resume else pause) c

-- The handlers that the console gives to the shortcuts.
pub on_command : Env → Command → Console → Console
on_command env Command.point_team1 c =
    send (point (if is_rally env.match.scoring_type then some team_1 else env.match.serving_team)) c
on_command env Command.point_team2 c =
    if is_rally env.match.scoring_type then send (point (some team_2)) c else c
on_command env Command.side_out c = if is_rally env.match.scoring_type then c else send side_out c
on_command env Command.undo c = send undo c
on_command env Command.timeout c = elim (env.match.serving_team) [
  | none ↦ c
  | some team ↦ send (call_timeout team) c
]
on_command env Command.escape c = record c {
  game_over_prompt = false;
  match_over_prompt = false;
  menu_open = false;
}

pub on_click : Env → Button → Console → Console
on_click env point_first c = send (point (some team_1)) c
on_click env point_second c = send (point (some team_2)) c
on_click env point_serving c = send (point env.match.serving_team) c
on_click env side_out_button c = send side_out c
on_click env undo_button c = send undo c
on_click env timeout_button c = send (call_timeout (or_else env.match.serving_team team_1)) c

-- The scoreboard is drawn unless the match is scheduled or completed.
abbrev pub scoreboard_shown : MatchStatus → Bool
scoreboard_shown scheduled = false
scoreboard_shown completed = false
scoreboard_shown _ = true

abbrev pub scoreboard_pending : Env → Bool
scoreboard_pending env =
    env.pending.score_point
    || (env.pending.side_out || (env.pending.undo || env.pending.call_timeout))

-- What the callbacks of each mutation do with its answer.
pub on_answer : Env → Action → Outcome → Console → Console
unfolding handle_result
on_answer env (point team) (succeeded res) c =
    handle_result res (emit (feedback env.prefs point_tick) c)
on_answer env side_out (succeeded res) c =
    handle_result res (emit (feedback env.prefs side_out_tick) c)
on_answer env undo (succeeded res) c = emit (feedback env.prefs undo_tick) c
on_answer env (call_timeout team_1) (succeeded res) c =
    emit (toast_info "Timeout for Team 1" ∷ []) c
on_answer env (call_timeout team_2) (succeeded res) c =
    emit (toast_info "Timeout for Team 2" ∷ []) c
on_answer env pause (succeeded res) c = emit (toast_success "Match paused" ∷ []) c
on_answer env resume (succeeded res) c = emit (toast_success "Match resumed" ∷ []) c
on_answer env (start by team player) (succeeded res) c = emit (toast_success "Match started" ∷ []) c
on_answer env confirm_game_over (succeeded res) c =
    emit (toast_success "Game ended" ∷ []) (record c { game_over_prompt = false })
on_answer env confirm_match_over (succeeded res) c =
    emit (toast_success "Match completed" ∷ []) (record c { match_over_prompt = false })
on_answer env _ (succeeded res) c = c
on_answer env a (failed message) c = emit (toast_error message ∷ []) c

abbrev on_command? : Env → Option Command → Console → Console
on_command? env none c = c
on_command? env (some command) c = on_command env command c

abbrev is_scheduled : MatchStatus → Bool
is_scheduled scheduled = true
is_scheduled _ = false

-- An event of an element that is not drawn, or that is disabled, does nothing.
unfoldable pub step : Env → Console → Event → Console
unfolding on_command on_click on_answer handle_pause_toggle button_enabled
step env c (key e) = on_command? env (on_key (keyboard_enabled env) e) c
step env c (click b) =
    if scoreboard_shown env.match.status && button_enabled env (scoreboard_pending env) b
    then on_click env b c
    else c
step env c click_menu =
    if scoreboard_shown env.match.status then record c { menu_open = not c.menu_open } else c
step env c click_away = record c { menu_open = false }
step env c click_override =
    if c.menu_open && env.privileged
    then record c { menu_open = false; override_open = true }
    else c
step env c click_pause =
    if c.menu_open && not (env.pending.pause || env.pending.resume)
    then handle_pause_toggle env (record c { menu_open = false })
    else c
step env c close_override = record c { override_open = false }
step env c confirm_game =
    if c.game_over_prompt && not env.pending.confirm_game_over then send confirm_game_over c else c
step env c continue_game = record c { game_over_prompt = false }
step env c confirm_match =
    if c.match_over_prompt && not env.pending.confirm_match_over
    then send confirm_match_over c
    else c
step env c continue_match = record c { match_over_prompt = false }
step env c (begin by team player) =
    if is_scheduled env.match.status && not env.pending.start_match
    then send (start by (some team) player) c
    else c
step env c (answer a outcome) = on_answer env a outcome c

-- Each event comes with what the hooks return at the render before it.
unfoldable pub run : Console → List (Env × Event) → Console
run c [] = c
run c ((env, e) ∷ es) = run (step env c e) es

unfoldable pub initial : Console
initial = record {
  game_over_prompt = false;
  match_over_prompt = false;
  override_open = false;
  menu_open = false;
  sent = [];
  effects = [];
}
