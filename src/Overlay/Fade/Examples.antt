-- ===== src/Overlay/Fade/Examples.antt =====
-- Runs of the fade hook at concrete inputs.
use court_command.Prelude.{◌≡◌, refl, true, false, List, [], ◌∷◌, ◌++◌}
use court_command.Overlay.Fade.{Event, render, framed, unmounted, start, run}
use court_command.Overlay.Fade.Phases.{view, phase_view, phase_run, phase_start, fade_refines}
use court_command.Overlay.Fade.Settles.{rest, fade_settles}

-- Shown, hidden and shown again before the timer has run, with a stale frame in between.
abbrev toggled : List Event
toggled = framed ∷ framed ∷ render false ∷ render true ∷ framed ∷ render false ∷ render true ∷ []

fade_refines_example :
    view (run (toggled ++ framed ∷ unmounted ∷ []) (start true))
    ≡ phase_view (phase_run (toggled ++ framed ∷ unmounted ∷ []) (phase_start true))
fade_refines_example = fade_refines (toggled ++ framed ∷ unmounted ∷ []) true

fade_settles_example : view (run (toggled ++ rest) (start true)) ≡ (true, (1, (0, 0)))
fade_settles_example = fade_settles toggled true refl
