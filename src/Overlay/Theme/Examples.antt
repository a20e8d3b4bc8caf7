-- ===== src/Overlay/Theme/Examples.antt =====
-- Runs of the theme tab at concrete inputs.
use court_command.Prelude.{◌≡◌, refl, none, some, List, [], ◌∷◌, ◌++◌}
use court_command.Overlay.Theme.{
  put_color, Event, config_came, theme_selected, color_edited, fired, start, run,
}
use court_command.Overlay.Theme.Colors.{
  ColorEdit, edit_events, colored, request_of, colors_sent, theme_undone,
}

abbrev opening : List Event
opening =
    config_came "classic" (some (("accent", "#112233") ∷ []))
    ∷ color_edited "primary" (some "#ffffff")
    ∷ []

abbrev edits : List ColorEdit
edits = ("accent", none) ∷ ("primary", some "#000000") ∷ []

colors_sent_example :
    ((run
        (edit_events edits ++ color_edited "secondary" (some "#00ff00") ∷ fired ∷ [])
        (run opening start)).sent
      ≡ (run opening start).sent
        ++ request_of "classic"
            (put_color "secondary" (some "#00ff00") (colored edits (run opening start).overrides))
          ∷ [])
    × ((run (edit_events edits ++ theme_selected "neon" ∷ fired ∷ []) (run opening start)).sent
        ≡ (run opening start).sent
          ++ request_of "neon" (colored edits (run opening start).overrides) ∷ [])
unfolding run start
colors_sent_example =
    colors_sent opening "classic" edits "secondary" (some "#00ff00") "neon" refl refl refl

theme_undone_example :
    (run
      (theme_selected "neon" ∷ color_edited "accent" (some "#00ff00") ∷ fired ∷ [])
      (run opening start)).sent
    ≡ ((run opening start).sent ++ request_of "neon" (run opening start).overrides ∷ [])
      ++ request_of "classic" (put_color "accent" (some "#00ff00") (run opening start).overrides)
        ∷ []
unfolding run start
theme_undone_example =
    theme_undone opening "classic" "accent" (some "#00ff00") "neon" refl refl refl
