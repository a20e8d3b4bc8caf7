-- ===== src/Overlay/Result/Examples.antt =====
-- The card at concrete inputs.
use court_command.Prelude.{◌≡◌, refl, true, false, none, some, [], ◌∷◌}
use court_command.Prelude.Integers.{pos}
use court_command.Scoring.Match.{completed}
use court_command.Overlay.Result.{
  is_complete, millis, dismiss_ms, step, effect, enter, frame, Deps, deps_of, shown, idle, entered,
  framed, dismissed, left, start, run,
}
use court_command.Overlay.Result.Phases.{dismissed_for_good, late_frame_stays}

-- An element that is visible, before and after the end of the match.
abbrev before : Deps
before = record { is_active = false; show_delay = 2000; dismiss = 30000 }

abbrev after : Deps
after = record { is_active = true; show_delay = 2000; dismiss = 30000 }

computed : deps_of false true completed (some (pos 2)) none ≡ after
unfolding deps_of is_complete millis dismiss_ms
computed = refl

dismissed_for_good_example :
    (run
      (dismissed ∷ left ∷ framed ∷ entered ∷ [])
      (run (entered ∷ framed ∷ []) (start after))).phase
    ≡ idle
unfolding run start step effect enter frame
dismissed_for_good_example =
    dismissed_for_good (run (entered ∷ framed ∷ []) (start after)) (framed ∷ entered ∷ [])
      (refl, (refl, (refl, refl))) refl

late_frame_stays_example :
    (run (dismissed ∷ left ∷ framed ∷ left ∷ []) (run (entered ∷ []) (start after))).phase ≡ shown
unfolding run start step effect enter
late_frame_stays_example =
    late_frame_stays (run (entered ∷ []) (start after)) (left ∷ []) (refl, (refl, (refl, refl)))
      refl
