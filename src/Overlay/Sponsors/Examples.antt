-- ===== src/Overlay/Sponsors/Examples.antt =====
-- The rotation of the logos at concrete inputs.
use court_command.Prelude.{true, [], ◌∷◌}
use court_command.Overlay.Sponsors.{Props, render, tick, start, run}
use court_command.Overlay.Sponsors.Rotation.{IsRotating, run-IsRotating}

abbrev four : Props
four = record { visible = true; logos = "a" ∷ "b" ∷ "c" ∷ "d" ∷ []; rotation = 8000 }

abbrev two : Props
two = record { visible = true; logos = "a" ∷ "b" ∷ []; rotation = 8000 }

run-IsRotating_example : IsRotating (run (tick ∷ tick ∷ tick ∷ render two ∷ tick ∷ []) (start four))
run-IsRotating_example = run-IsRotating four (tick ∷ tick ∷ tick ∷ render two ∷ tick ∷ [])
