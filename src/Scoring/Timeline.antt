-- ===== src/Scoring/Timeline.antt =====
-- The timeline of a match's events (web/src/features/scoring/EventsTimeline.tsx): its order, its
-- filter by type, and the tables of labels and colours.
-- A Set is the list of its elements in the order of their insertion.
pub mod View
mod Examples
use Prim.Native.String.{String}
use mathlib.Core.Logic.{ite}
use text.Mathlib.Text.{◌==◌ as str_eq}
use Prim.Native.String
use court_command.Prelude.{
  ℕ, Bool, true, false, not, ◌==◌, leb, Option, none, some, List, [], ◌∷◌, ◌++◌, filter, any,
  if◌then◌else◌,
}
use court_command.Sorting.{sort}
use court_command.Scoring.Match.{Team, team_1, team_2}

pub data EventType : Type 0 where
  match_started match_paused match_resumed match_complete match_reset match_configured : EventType
  point_team1 point_team2 point_removed side_out undo : EventType
  game_complete confirm_game_over confirm_match_over : EventType
  timeout timeout_ended end_change substitution score_override forfeit_declared : EventType

pub EventType-discrete : Discrete EventType
EventType-discrete = hlevel

-- `===` on event types.
pub event_type_eq : EventType → EventType → Bool
unfolding EventType-discrete
event_type_eq a b = ite (EventType-discrete a b) true false

-- The fields of the payload that the summary reads.
pub record Payload : Type 0 where
  pub team : Option Team
  pub reason : Option String
  pub forfeiting_team : Option Team

pub record MatchEvent : Type 0 where
  pub id : ℕ
  pub sequence_id : ℕ
  pub event_type : EventType
  pub payload : Payload

abbrev pub team_text : Team → String
team_text team_1 = "1"
team_text team_2 = "2"

-- `team ? … : …` and `reason ? … : …`: an empty reason is falsy.
abbrev pub with_team : String → Option Team → String → String → String
with_team before none after otherwise = otherwise
with_team before (some t) after otherwise = String.◌++◌ before (String.◌++◌ (team_text t) after)

abbrev pub with_reason : Option String → String
with_reason none = "Score override"
with_reason (some reason) =
    if str_eq reason "" then "Score override" else String.◌++◌ "Override: " reason

pub summarize_event : EventType → Payload → String
summarize_event point_team1 p = "Point to team 1"
summarize_event point_team2 p = "Point to team 2"
summarize_event point_removed p = with_team "Point removed from team " p.team "" "Point removed"
summarize_event timeout p = with_team "Team " p.team " timeout" "Timeout"
summarize_event score_override p = with_reason p.reason
summarize_event forfeit_declared p = with_team "Team " p.forfeiting_team " forfeit" "Forfeit"
summarize_event _ p = ""

pub data Order : Type 0 where
  newest oldest : Order

pub record Timeline : Type 0 where
  pub order : Order
  pub compact : Bool
  pub shown_types : List EventType
  pub expanded : List ℕ

abbrev pub has_type : EventType → List EventType → Bool
has_type t = any (λ u. event_type_eq u t)

abbrev pub has_id : ℕ → List ℕ → Bool
has_id n = any (λ m. m == n)

-- The comparator of each order is not positive.
abbrev pub comes_before : Order → MatchEvent → MatchEvent → Bool
comes_before newest a b = leb b.sequence_id a.sequence_id
comes_before oldest a b = leb a.sequence_id b.sequence_id

-- `filtered`.
pub visible_events : List MatchEvent → Timeline → List MatchEvent
visible_events events t =
    let sorted = sort (comes_before t.order) events in
    elim (t.shown_types) [
      | [] ↦ sorted
      | u ∷ us ↦ filter (λ e. has_type e.event_type (u ∷ us)) sorted
    ]

pub toggle_type : EventType → List EventType → List EventType
toggle_type t prev =
    if has_type t prev then filter (λ u. not (event_type_eq u t)) prev else prev ++ t ∷ []

pub toggle_expanded : ℕ → List ℕ → List ℕ
toggle_expanded id prev =
    if has_id id prev then filter (λ m. not (m == id)) prev else prev ++ id ∷ []

pub data Click : Type 0 where
  click_order click_compact click_clear : Click
  click_type : EventType → Click
  click_event : ℕ → Click

abbrev pub other_order : Order → Order
other_order newest = oldest
other_order oldest = newest

pub step : Timeline → Click → Timeline
unfolding toggle_type toggle_expanded
step t click_order = record t { order = other_order t.order }
step t click_compact = record t { compact = not t.compact }
step t click_clear = record t { shown_types = [] }
step t (click_type u) = record t { shown_types = toggle_type u t.shown_types }
step t (click_event id) =
    if t.compact then t else record t { expanded = toggle_expanded id t.expanded }

-- `EVENT_META[t].label`.
pub event_label : EventType → String
event_label match_started = "Match started"
event_label match_paused = "Match paused"
event_label match_resumed = "Match resumed"
event_label match_complete = "Match complete"
event_label match_reset = "Match reset"
event_label match_configured = "Match configured"
event_label point_team1 = "Point — Team 1"
event_label point_team2 = "Point — Team 2"
event_label point_removed = "Point removed"
event_label side_out = "Side out"
event_label undo = "Undo"
event_label game_complete = "Game complete"
event_label confirm_game_over = "Game confirmed"
event_label confirm_match_over = "Match confirmed"
event_label timeout = "Timeout called"
event_label timeout_ended = "Timeout ended"
event_label end_change = "End change"
event_label substitution = "Substitution"
event_label score_override = "Score override"
event_label forfeit_declared = "Forfeit declared"

abbrev pub success : String
success = "text-(--color-success)"

abbrev pub warning : String
warning = "text-(--color-warning)"

abbrev pub error : String
error = "text-(--color-error)"

abbrev pub accent : String
accent = "text-(--color-accent)"

abbrev pub secondary : String
secondary = "text-(--color-text-secondary)"

-- `EVENT_META[t].icon.color`.
pub event_color : EventType → String
event_color match_started = accent
event_color match_paused = warning
event_color match_resumed = secondary
event_color match_complete = accent
event_color match_reset = warning
event_color match_configured = secondary
event_color point_team1 = success
event_color point_team2 = success
event_color point_removed = warning
event_color side_out = secondary
event_color undo = warning
event_color game_complete = accent
event_color confirm_game_over = accent
event_color confirm_match_over = accent
event_color timeout = warning
event_color timeout_ended = secondary
event_color end_change = secondary
event_color substitution = secondary
event_color score_override = warning
event_color forfeit_declared = error

-- `BORDER_FROM_COLOR`.
abbrev pub border_from_color : List (String × String)
border_from_color =
    (success, "border-l-(--color-success)")
    ∷ (warning, "border-l-(--color-warning)")
    ∷ (error, "border-l-(--color-error)")
    ∷ (accent, "border-l-(--color-accent)")
    ∷ (secondary, "border-l-(--color-border)")
    ∷ []

pub lookup : String → List (String × String) → Option String
lookup k [] = none
lookup k ((j, v) ∷ m) = if str_eq j k then some v else lookup k m
