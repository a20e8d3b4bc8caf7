-- ===== src/Scoring/Console/Confirm.antt =====
-- When the consoles ask for the end of a game or of the match (web/src/features/referee/RefMatchConsole.tsx,
-- web/src/features/scorekeeper/ScorekeeperMatchConsole.tsx).
use court_command.Prelude.{
  ◌≡◌, refl, inl, inr, Bool, true, false, Option, some, List, [], ◌∷◌, ◌++◌, arith, if◌then◌else◌,
  Option-cases, if_both, filter, filter-append, All,
}
use court_command.Scoring.Match.{Team, team_1, team_2, ScoringActionResult}
use court_command.Scoring.Actions.{
  Action, start, point, side_out as send_side_out, undo, call_timeout, pause, resume,
  confirm_game_over, confirm_match_over,
}
use court_command.Scoring.Keyboard.{Command, on_key}
use court_command.Scoring.Console.{
  Env, keyboard_enabled, Button, side_out_button, point_serving, succeeded, failed,
}
use court_command.Scoring.Console.Referee
use court_command.Scoring.Console.Referee.{
  Console, Event, key, click, answer, confirm_game, confirm_match,
}
use court_command.Scoring.Console.Scorekeeper
use court_command.Scoring.Console.Scorekeeper.{Keeper}

-- The requests that end a game or the match.
abbrev pub is_confirm : Action → Bool
is_confirm confirm_game_over = true
is_confirm confirm_match_over = true
is_confirm _ = false

-- The answer of the backend, if the event is one, reports no game and no match as over.
abbrev pub ReportsNothing : Event → Type 0
ReportsNothing (answer a (succeeded res)) =
    (res.game_over_detected ≡ false) × (res.match_over_detected ≡ false)
ReportsNothing _ = Unit

abbrev Calm : Console → Type 0
Calm c =
    (c.game_over_prompt ≡ false) × (c.match_over_prompt ≡ false) × (filter is_confirm c.sent ≡ [])

sent-Calm :
    (xs : List Action) (a : Action)
    → is_confirm a ≡ false
    → filter is_confirm xs ≡ []
    → filter is_confirm (xs ++ a ∷ []) ≡ []
sent-Calm xs a n h = ground (arith, filter-append is_confirm xs (a ∷ []))

step-Calm :
    (env : Env) (c : Console) (e : Event) → ReportsNothing e → Calm c → Calm (Referee.step env c e)
unfolding Referee.step
step-Calm env c (key e) r h = elim (Option-cases (on_key (keyboard_enabled env) e)) [
  | inl none_ ↦ rw none_ h
  | inr (command, e') ↦ rw e' (command-Calm command)
]
  where
    command-Calm : (command : Command) → Calm (Referee.on_command env command c)
    command-Calm Command.point_team1 = (h.0, h.1, sent-Calm c.sent (point _) refl h.2)
    command-Calm Command.point_team2 = ground (arith, sent-Calm c.sent (point (some team_2)))
    command-Calm Command.side_out = ground (arith, sent-Calm c.sent send_side_out)
    command-Calm Command.undo = (h.0, h.1, sent-Calm c.sent undo refl h.2)
    command-Calm Command.timeout = elim (Option-cases env.match.serving_team) [
      | inl e'' ↦ rw e'' h
      | inr (t, e'') ↦ rw e'' (h.0, h.1, sent-Calm c.sent (call_timeout t) refl h.2)
    ]
    command-Calm Command.escape = (refl, refl, h.2)
step-Calm env c (click b) r h = if_both {A = Console} Calm _ (click-Calm b) h
  where
    click-Calm : (b : Button) → Calm (Referee.on_click env b c)
    click-Calm Button.point_first = (h.0, h.1, sent-Calm c.sent (point _) refl h.2)
    click-Calm Button.point_second = (h.0, h.1, sent-Calm c.sent (point _) refl h.2)
    click-Calm point_serving = (h.0, h.1, sent-Calm c.sent (point _) refl h.2)
    click-Calm side_out_button = (h.0, h.1, sent-Calm c.sent send_side_out refl h.2)
    click-Calm Button.undo_button = (h.0, h.1, sent-Calm c.sent undo refl h.2)
    click-Calm Button.timeout_button = (h.0, h.1, sent-Calm c.sent (call_timeout _) refl h.2)
step-Calm env c (answer a (failed message)) r h = h
step-Calm env c (answer (point t) (succeeded res)) r h = ground arith
step-Calm env c (answer send_side_out (succeeded res)) r h = ground arith
step-Calm env c (answer (call_timeout team_1) (succeeded res)) r h = h
step-Calm env c (answer (call_timeout team_2) (succeeded res)) r h = h
step-Calm env c (answer confirm_game_over (succeeded res)) r h = (refl, h.1, h.2)
step-Calm env c (answer confirm_match_over (succeeded res)) r h = (h.0, refl, h.2)
step-Calm env c (answer a (succeeded res)) r h = h
step-Calm env c Event.click_menu r h = if_both {A = Console} Calm _ h h
step-Calm env c Event.click_override r h = if_both {A = Console} Calm _ h h
step-Calm env c Event.click_pause r h =
    if_both {A = Console} Calm _
      (
        h.0,
        h.1,
        sent-Calm c.sent (if env.match.is_paused then resume else pause)
            (if_both {A = Action} (λ a. is_confirm a ≡ false) env.match.is_paused refl refl) h.2,
      )
      h
step-Calm env c confirm_game r h = ground arith
step-Calm env c confirm_match r h = ground arith
step-Calm env c Event.continue_game r h = (refl, h.1, h.2)
step-Calm env c Event.continue_match r h = (h.0, refl, h.2)
step-Calm env c (Event.begin by t p) r h =
    if_both {A = Console} Calm _ (h.0, h.1, sent-Calm c.sent (start by (some t) p) refl h.2) h
step-Calm env c e r h = h

run-Calm :
    (c : Console) (es : List (Env × Event))
    → All (λ ee. ReportsNothing ee.1) es
    → Calm c
    → Calm (Referee.run c es)
unfolding Referee.run
run-Calm c [] r h = h
run-Calm c ((env, e) ∷ es) (r, rs) h = run-Calm (Referee.step env c e) es rs (step-Calm env c e r h)

-- The referee's console sends no request to end a game or the match, whatever is pressed and
-- clicked, before an answer of the backend reports that one is over.
pub referee_confirms_reported :
    (es : List (Env × Event))
    → All (λ ee. ReportsNothing ee.1) es
    → filter is_confirm (Referee.run Referee.initial es).sent ≡ []
unfolding Referee.initial
referee_confirms_reported es r = (run-Calm Referee.initial es r (refl, refl, refl)).2

-- The scorekeeper's console answers a report that a game or the match is over by one request that
-- ends it, the match if both are reported, and sends nothing on a report of neither.
pub scorekeeper_confirms :
    (env : Env) (k : Keeper) (t : Option Team) (res : ScoringActionResult)
    → let sent =
        (Scorekeeper.step env k (Scorekeeper.Event.answer (point t) (succeeded res))).sent in
      (res.match_over_detected ≡ true → sent ≡ k.sent ++ confirm_match_over ∷ [])
      × (res.match_over_detected ≡ false
          → res.game_over_detected ≡ true
          → sent ≡ k.sent ++ confirm_game_over ∷ [])
      × (res.match_over_detected ≡ false → res.game_over_detected ≡ false → sent ≡ k.sent)
unfolding Scorekeeper.step
scorekeeper_confirms env k t res = (λ m. ground arith, λ m g. ground arith, λ m g. ground arith)
