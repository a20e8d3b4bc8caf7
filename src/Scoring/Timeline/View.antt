-- ===== src/Scoring/Timeline/View.antt =====
-- What the timeline shows (web/src/features/scoring/EventsTimeline.tsx).
use court_command.Prelude.{
  ◌≤◌, ◌≡◌, refl, ◌≢◌, ◌↔◌, Bool, true, false, not, ◌&&◌, ◌||◌, false≢true, none, List, [], ◌∷◌,
  ◌++◌, arith, if◌then◌else◌, leb→le, filter, filter-true, Ordered, Ordered-map,
}
use mathlib.Core.List.{Perm}
use mathlib.Core.Logic.{ite}
use court_command.Sorting.{sort, Sorted, sort-perm, sort-Sorted, filter-sort}
use court_command.Scoring.Timeline.{
  EventType, match_started, EventType-discrete, event_type_eq, MatchEvent, Order, newest, oldest,
  Timeline, comes_before, has_type, visible_events, click_type, step, event_color, lookup,
  border_from_color,
}

-- With no type chosen every event is shown.
abbrev pub is_shown : List EventType → MatchEvent → Bool
is_shown [] e = true
is_shown (u ∷ us) e = has_type e.event_type (u ∷ us)

-- Each event of the list comes before those behind it in the chosen order of sequence ids.
abbrev pub InSequence : Order → List MatchEvent → Type 0
InSequence newest es = Ordered (λ a b. b.sequence_id ≤ a.sequence_id) es
InSequence oldest es = Ordered (λ a b. a.sequence_id ≤ b.sequence_id) es

total : (o : Order) (a b : MatchEvent) → comes_before o a b ≡ false → comes_before o b a ≡ true
total newest a b h = ground arith
total oldest a b h = ground arith

trans :
    (o : Order) (a b c : MatchEvent)
    → comes_before o a b ≡ true
    → comes_before o b c ≡ true
    → comes_before o a c ≡ true
trans newest a b c h k = ground arith
trans oldest a b c h k = ground arith

visible-eq :
    (es : List MatchEvent) (t : Timeline)
    → visible_events es t ≡ sort (comes_before t.order) (filter (is_shown t.shown_types) es)
unfolding visible_events
visible-eq es t = by_types t.shown_types
  where
    by_types :
        (us : List EventType)
        → (elim us [
          | [] ↦ sort (comes_before t.order) es
          | u ∷ vs ↦ filter (λ e. has_type e.event_type (u ∷ vs)) (sort (comes_before t.order) es)
        ])
          ≡ sort (comes_before t.order) (filter (is_shown us) es)
    by_types [] = rw (filter-true es)
    by_types (u ∷ vs) =
        filter-sort (comes_before t.order) (total t.order) (trans t.order)
          (λ e. has_type e.event_type (u ∷ vs)) es

Sorted-InSequence :
    (o : Order) (es : List MatchEvent) → Sorted (comes_before o) es → InSequence o es
Sorted-InSequence newest es s =
    Ordered-map (λ a b. comes_before newest a b ≡ true) (λ a b. b.sequence_id ≤ a.sequence_id)
      (λ a b h. leb→le b.sequence_id a.sequence_id h) es s
Sorted-InSequence oldest es s =
    Ordered-map (λ a b. comes_before oldest a b ≡ true) (λ a b. a.sequence_id ≤ b.sequence_id)
      (λ a b h. leb→le a.sequence_id b.sequence_id h) es s

-- The timeline shows each event of a chosen type once, or every event if no type is chosen, and no
-- other, in the chosen order of their sequence ids.
pub visible_events_lem :
    (es : List MatchEvent) (t : Timeline)
    → Perm (visible_events es t) (filter (is_shown t.shown_types) es)
      × InSequence t.order (visible_events es t)
visible_events_lem es t =
    let chosen = filter (is_shown t.shown_types) es in
    rw (visible-eq es t) (
      sort-perm (comes_before t.order) chosen,
      Sorted-InSequence t.order (sort (comes_before t.order) chosen)
          (sort-Sorted (comes_before t.order) (total t.order) (trans t.order) chosen),
    )

event_type_eq_iff : (a b : EventType) → (event_type_eq a b ≡ true) ↔ (a ≡ b)
unfolding event_type_eq
event_type_eq_iff a b =
    elim (EventType-discrete a b) as (λ d. (ite d true false ≡ true) ↔ (a ≡ b)) [
      | yes p ↦ (λ _. p, λ _. refl)
      | no p ↦ (λ h. absurd (false≢true h), λ q. absurd (p q))
    ]

has_type-filter :
    (v t : EventType) (us : List EventType)
    → has_type v (filter (λ u. not (event_type_eq u t)) us)
      ≡ (not (event_type_eq v t) && has_type v us)
has_type-filter v t [] = ground arith
has_type-filter v t (u ∷ us) = ground (
  arith,
  event_type_eq_iff u t,
  event_type_eq_iff u v,
  event_type_eq_iff v t,
  has_type-filter v t us,
)

has_type-append :
    (v t : EventType) (us : List EventType)
    → has_type v (us ++ t ∷ []) ≡ (event_type_eq t v || has_type v us)
has_type-append v t [] = refl
has_type-append v t (u ∷ us) = ground (arith, has_type-append v t us)

-- A click on a type switches that type and no other, and keeps everything else.
pub click_type_lem :
    (t : Timeline) (u v : EventType)
    → (has_type v (step t (click_type u)).shown_types
        ≡ (if event_type_eq v u then not (has_type u t.shown_types) else has_type v t.shown_types))
      × ((step t (click_type u)).order ≡ t.order)
      × ((step t (click_type u)).expanded ≡ t.expanded)
unfolding step
click_type_lem t u v = (
  ground (
    arith,
    event_type_eq_iff v u,
    event_type_eq_iff u v,
    has_type-filter v u t.shown_types,
    has_type-append v u t.shown_types,
  ),
  refl,
  refl,
)

-- The colour of every event type has a border class of its own in the table.
event_color-lookup : (t : EventType) → lookup (event_color t) border_from_color ≢ none
unfolding event_color lookup
event_color-lookup match_started = cc
event_color-lookup _ = cc
