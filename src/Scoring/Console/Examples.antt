-- ===== src/Scoring/Console/Examples.antt =====
-- Tests of the consoles, and their theorems at concrete inputs.
use court_command.Prelude.{◌≡◌, refl, true, false, none, some, List, [], ◌∷◌, filter}
use court_command.Scoring.Samples.{played, answer}
use court_command.Scoring.Match.{team_1, ScoringActionResult, side_out}
use court_command.Scoring.Actions.{point}
use court_command.Scoring.Keyboard.{KeyboardEvent, lower_s, not_element}
use court_command.Scoring.Socket.{disconnected, open_}
use court_command.Scoring.Console.{Env, Button, succeeded, Pending}
use court_command.Scoring.Console.Referee
use court_command.Scoring.Console.Referee.{Console, Event, key, click}
use court_command.Scoring.Console.Scorekeeper.{Keeper}
use court_command.Scoring.Console.Safety.{is_play, referee_offline}
use court_command.Scoring.Console.Confirm.{is_confirm, referee_confirms_reported}

abbrev idle : Pending
idle = record {
  score_point = false;
  side_out = false;
  undo = false;
  call_timeout = false;
  confirm_game_over = false;
  confirm_match_over = false;
  pause = false;
  resume = false;
  start_match = false;
}

abbrev online : Env
online = record {
  match = played 3;
  socket = open_;
  prefs = record { keyboard = true; haptic = true; sound = false };
  privileged = false;
  pending = idle;
}

abbrev offline : Env
offline = record online { socket = disconnected }

abbrev nobody_serves : Env
nobody_serves = record online {
  match = record (played 3) { scoring_type = side_out; serving_team = none };
}

abbrev press : KeyboardEvent
press = record {
  key = lower_s;
  alt_key = false;
  ctrl_key = false;
  meta_key = false;
  target = not_element;
}

abbrev fresh : Console
fresh = record {
  game_over_prompt = false;
  match_over_prompt = false;
  override_open = false;
  menu_open = false;
  sent = [];
  effects = [];
}

point_test : (Referee.step online fresh (click Button.point_first)).sent ≡ point (some team_1) ∷ []
unfolding Referee.step
point_test = refl

referee_offline_example :
    filter is_play (Referee.step offline fresh (click Button.undo_button)).sent ≡ []
referee_offline_example = referee_offline offline fresh (click Button.undo_button) refl

abbrev quiet_game : List (Env × Event)
quiet_game =
    (online, click Button.point_first)
    ∷ (online, Event.answer (point (some team_1)) (succeeded (answer 4)))
    ∷ (online, Event.confirm_game)
    ∷ []

referee_confirms_reported_example :
    filter is_confirm (Referee.run Referee.initial quiet_game).sent ≡ []
referee_confirms_reported_example =
    referee_confirms_reported quiet_game (tt, ((refl, refl), (tt, tt)))

abbrev keeper : Keeper
keeper = record { sent = []; effects = [] }

abbrev game_point : ScoringActionResult
game_point = record (answer 11) { game_over_detected = true }
