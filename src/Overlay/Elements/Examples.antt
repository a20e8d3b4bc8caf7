-- ===== src/Overlay/Elements/Examples.antt =====
-- A run of the elements tab at a concrete input.
use court_command.Prelude.{◌≡◌, refl, Bool, true, false, some, List, [], ◌∷◌, ◌++◌}
use court_command.Overlay.Elements.{
  ElementsConfig, patched, Event, edited, config_came, fired, start, run,
}
use court_command.Overlay.Elements.Edits.{draft_after, elements_sent}

abbrev served : ElementsConfig Bool
served = ("lower_third", ("visible", false) ∷ []) ∷ ("sponsor_bug", []) ∷ []

abbrev opening : List (Event Bool)
opening = config_came (some served) ∷ edited "lower_third" (("visible", true) ∷ []) ∷ fired ∷ []

-- The refresh drops what was edited before it.
abbrev edits : List (Event Bool)
edits = edited "sponsor_bug" (("visible", true) ∷ []) ∷ config_came (some served) ∷ []

elements_sent_example :
    (run
      (edits ++ edited "lower_third" (("fades", true) ∷ []) ∷ fired ∷ [])
      (run opening start)).sent
    ≡ (run opening start).sent ++ patched "lower_third" (("fades", true) ∷ []) served ∷ []
unfolding run start draft_after
elements_sent_example =
    elements_sent opening edits "lower_third" (("fades", true) ∷ []) served refl refl refl
