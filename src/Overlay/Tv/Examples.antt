-- ===== src/Overlay/Tv/Examples.antt =====
-- Runs of the rotation (web/src/features/overlay/tv/useSlideRotation.ts).
use court_command.Prelude.{ℕ, ◌<◌, ◌≡◌, refl, Bool, true, false, some, List, [], ◌∷◌, length}
use court_command.Overlay.Tv.{Options, Number, Event, mounted, steps}
use court_command.Overlay.Tv.Bounds.{IsInsideRotation, index_in_bounds}
use court_command.Overlay.Tv.Cycle.{fires}
use court_command.Overlay.Tv.Kiosk.{
  Slide, division, slides, active, rotation_options, every_division_shown,
}
use court_command.Overlay.Tv.Courts.{CourtSummary}
use court_command.Overlay.Tv.Armed.{armed_iff, is_armed, is_automatic}

abbrev four_slides : Options
four_slides = record { count = 4; interval_ms = 20000; paused = false }

-- The slides become two while the fourth is shown.
abbrev fewer : List Event
fewer =
    Event.go_to (Number.natural 9)
    ∷ Event.options_given (record four_slides { count = 2 })
    ∷ Event.timer_fires
    ∷ Event.reset
    ∷ []

index_in_bounds_example : IsInsideRotation (steps fewer (mounted four_slides (Number.natural 1) 0))
index_in_bounds_example = index_in_bounds four_slides (Number.natural 1) 0 fewer

abbrev pause_and_go : List Event
pause_and_go =
    Event.timer_fires ∷ Event.options_given (record four_slides { paused = true }) ∷ Event.next ∷ []

armed_iff_example :
    is_armed (steps pause_and_go (mounted four_slides (Number.natural 1) 0)).timer
    ≡ is_automatic (steps pause_and_go (mounted four_slides (Number.natural 1) 0)).options
armed_iff_example = armed_iff four_slides (Number.natural 1) 0 pause_and_go refl

abbrev board : List (Slide ℕ)
board = slides (10 ∷ 20 ∷ 30 ∷ []) 2

every_division_shown_example :
    (k : ℕ) × ((k < length board)
      × (active board
            (steps (fires k) (mounted (rotation_options board 15) (Number.natural 0) 0)).index
          ≡ some (division 30)))
every_division_shown_example = every_division_shown (10 ∷ 20 ∷ 30 ∷ []) 2 15 0 2 30 refl

abbrev court : ℕ → Bool → Bool → CourtSummary
court id active_match on_deck_match = record {
  id = id;
  active_match = active_match;
  on_deck_match = on_deck_match;
}

abbrev three_courts : List CourtSummary
three_courts = court 1 false true ∷ court 2 false false ∷ court 3 true true ∷ []
