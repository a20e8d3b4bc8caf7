-- ===== src/Scoring/Console/Safety.antt =====
-- What the consoles send, and when (web/src/features/referee/RefMatchConsole.tsx,
-- web/src/features/scorekeeper/ScorekeeperMatchConsole.tsx).
use mathlib.Core.List.{append-nil}
use court_command.Prelude.{
  ◌≡◌, refl, ap, ◌∙◌, Bool, true, false, none, some, [], ◌∷◌, ◌++◌, arith, filter, filter-append,
}
use court_command.Scoring.Match.{team_1, team_2, side_out}
use court_command.Scoring.Actions.{
  Action, start, point, side_out as send_side_out, undo, call_timeout, pause, resume,
  confirm_game_over, confirm_match_over,
}
use court_command.Scoring.Keyboard.{KeyboardEvent, Command, on_key}
use court_command.Scoring.Console.{
  Env, is_open, keyboard_enabled, Button, side_out_button, point_serving, succeeded, failed,
}
use court_command.Scoring.Console.Referee
use court_command.Scoring.Console.Referee.{
  Console, Event, key, click, answer, confirm_game, confirm_match,
}

-- The requests for a point, a side-out, an undo or a timeout. A start, a pause, a resumption and a
-- confirmation are others.
abbrev pub is_play : Action → Bool
is_play (point team) = true
is_play send_side_out = true
is_play undo = true
is_play (call_timeout team) = true
is_play _ = false

on_key_off : (e : KeyboardEvent) → on_key false e ≡ none
unfolding on_key
on_key_off e = refl

keyboard_off : (env : Env) → is_open env.socket ≡ false → keyboard_enabled env ≡ false
keyboard_off env h = ground arith

key_off :
    (env : Env) (e : KeyboardEvent)
    → is_open env.socket ≡ false
    → on_key (keyboard_enabled env) e ≡ none
key_off env e off = ap (λ b. on_key b e) (keyboard_off env off) ∙ on_key_off e

-- While the match's socket is not open, no event makes the referee's console send a point, a
-- side-out, an undo or a timeout. Starts, pauses, resumptions and confirmations are not meant, nor
-- what the override dialog sends, which is a component of its own.
pub referee_offline :
    (env : Env) (c : Console) (e : Event)
    → is_open env.socket ≡ false
    → filter is_play (Referee.step env c e).sent ≡ filter is_play c.sent
unfolding Referee.step
referee_offline env c (key e) off = rw (key_off env e off)
referee_offline env c (click Button.point_first) off = ground arith
referee_offline env c (click Button.point_second) off = ground arith
referee_offline env c (click point_serving) off = ground arith
referee_offline env c (click side_out_button) off = ground arith
referee_offline env c (click Button.undo_button) off = ground arith
referee_offline env c (click Button.timeout_button) off = ground arith
referee_offline env c (answer a (failed message)) off = refl
referee_offline env c (answer (point t) (succeeded res)) off = ground arith
referee_offline env c (answer send_side_out (succeeded res)) off = ground arith
referee_offline env c (answer (call_timeout team_1) (succeeded res)) off = refl
referee_offline env c (answer (call_timeout team_2) (succeeded res)) off = refl
referee_offline env c (answer a (succeeded res)) off = refl
referee_offline env c Event.click_pause off = ground (
  arith,
  filter-append is_play c.sent (pause ∷ []),
  filter-append is_play c.sent (resume ∷ []),
  append-nil (filter is_play c.sent),
)
referee_offline env c confirm_game off = ground (
  arith,
  filter-append is_play c.sent (confirm_game_over ∷ []),
  append-nil (filter is_play c.sent),
)
referee_offline env c confirm_match off = ground (
  arith,
  filter-append is_play c.sent (confirm_match_over ∷ []),
  append-nil (filter is_play c.sent),
)
referee_offline env c (Event.begin by t p) off = ground (
  arith,
  filter-append is_play c.sent (start by (some t) p ∷ []),
  append-nil (filter is_play c.sent),
)
referee_offline env c e off = ground arith

-- In side-out scoring with no serving team, where the buttons of the scoreboard take no click, the
-- keys 1 and S still send a point with no team and a side-out.
pub keys_bypass_buttons :
    (env : Env) (c : Console) (e : KeyboardEvent)
    → env.match.scoring_type ≡ side_out
    → env.match.serving_team ≡ none
    → (Referee.step env c (click point_serving) ≡ c)
      × (Referee.step env c (click side_out_button) ≡ c)
      × (on_key (keyboard_enabled env) e ≡ some Command.point_team1
          → (Referee.step env c (key e)).sent ≡ c.sent ++ point none ∷ [])
      × (on_key (keyboard_enabled env) e ≡ some Command.side_out
          → (Referee.step env c (key e)).sent ≡ c.sent ++ send_side_out ∷ [])
unfolding Referee.step
keys_bypass_buttons env c e mode idle =
    (ground arith, ground arith, λ k. rw k (ground arith), λ k. rw k (ground arith))
