-- ===== src/Scoring/Timeline/Examples.antt =====
-- Tests of the timeline, and its theorems at concrete inputs.
use court_command.Prelude.{ℕ, ◌≡◌, refl, false, none, List, [], ◌∷◌, filter}
use mathlib.Core.List.{Perm}
use court_command.Scoring.Timeline.{
  EventType, MatchEvent, newest, Timeline, visible_events, side_out, undo, point_team1,
  event_type_eq,
}
use court_command.Scoring.Timeline.View.{is_shown, InSequence, visible_events_lem}

abbrev event : ℕ → EventType → MatchEvent
event n t = record {
  id = n;
  sequence_id = n;
  event_type = t;
  payload = record { team = none; reason = none; forfeiting_team = none };
}

abbrev played_events : List MatchEvent
played_events = event 1 point_team1 ∷ event 3 undo ∷ event 2 side_out ∷ []

abbrev only_undo_and_points : Timeline
only_undo_and_points = record {
  order = newest;
  compact = false;
  shown_types = undo ∷ point_team1 ∷ [];
  expanded = [];
}

shown_newest_first :
    visible_events played_events only_undo_and_points ≡ event 3 undo ∷ event 1 point_team1 ∷ []
unfolding visible_events event_type_eq
shown_newest_first = refl

visible_events_lem_example :
    Perm
      (visible_events played_events only_undo_and_points)
      (filter (is_shown (only_undo_and_points.shown_types)) played_events)
    × InSequence newest (visible_events played_events only_undo_and_points)
visible_events_lem_example = visible_events_lem played_events only_undo_and_points
