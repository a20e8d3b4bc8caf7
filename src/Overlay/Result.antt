-- ===== src/Overlay/Result.antt =====
-- The card that celebrates the end of a match
-- (web/src/features/overlay/renderer/elements/MatchResult.tsx): its phases, and the timers and the
-- frame of its effect.
-- An effect asks for each of its callbacks once at most, so that a flag tells whether the browser
-- holds it. Of two timers, the one whose time comes first runs first.
pub mod Phases
mod Examples
use court_command.Prelude.{
  ℕ, zero, suc, ◌+◌, ◌-◌, ◌*◌, ◌/◌, ◌%◌, ◌^◌, ◌≤◌, ◌<◌, min, max, ◌≡◌, refl, sym, ap, ◌∙◌, subst,
  ◌≢◌, ◌↔◌, ◌⊎◌, inl, inr, Bool, true, false, not, ◌&&◌, ◌||◌, false≢true, Option, none, some, List,
  [], ◌∷◌, ◌++◌, map, arith, ltb, leb, ◌==◌, if◌then◌else◌, ltb→lt, lt→ltb, leb→le, ==_iff, ==_refl,
  Bool-cases, Option-cases, or_else, if_both, length, get_elem?, filter, any, all, length-append,
  length-filter-le, filter-filter, any-filter, filter-eq_of_length, filter-all, filter-true,
  filter-false, filter-append, All, In, Ordered, All-filter, Ordered-filter, In-filter,
  In-of_filter, In-map, All-map, All-In, All-append, Ordered-map,
}
use court_command.Prelude.Integers.{ℤ, pos, negsuc}
use court_command.Scoring.Match.{MatchStatus, completed}

pub data Phase : Type 0 where
  idle entering shown leaving : Phase

-- What the effect depends on: isActive, showDelayMs and dismissMs.
pub record Deps : Type 0 where
  pub is_active : Bool
  pub show_delay : ℕ
  pub dismiss : ℕ

unfoldable pub is_complete : MatchStatus → Bool
is_complete completed = true
is_complete _ = false

-- `Math.max(0, seconds * 1000)`, for whole seconds.
unfoldable pub millis : ℤ → ℕ
millis (pos n) = n * 1000
millis (negsuc n) = 0

unfoldable pub dismiss_ms : Option ℤ → ℕ
unfolding millis
dismiss_ms none = 30000
dismiss_ms (some seconds) = millis seconds

-- The props: whether a trigger is given, and of the config and the data what counts.
unfoldable pub deps_of : Bool → Bool → MatchStatus → Option ℤ → Option ℤ → Deps
unfolding is_complete millis dismiss_ms
deps_of triggered visible status show_after dismiss_after = record {
  is_active = triggered || (visible && is_complete status);
  show_delay = millis (or_else show_after (pos 0));
  dismiss = dismiss_ms dismiss_after;
}

pub record Card : Type 0 where
  pub deps : Deps
  pub phase : Phase
  pub enter_waits : Bool
  pub frame_waits : Bool
  pub dismiss_waits : Bool
  pub leave_waits : Bool
  pub mounted : Bool

-- The cleanup of an effect.
unfoldable pub cleanup : Card → Card
cleanup c = record c {
  enter_waits = false;
  frame_waits = false;
  dismiss_waits = false;
  leave_waits = false;
}

unfoldable pub effect : Bool → Deps → Card → Card
effect false d c = record c { deps = d; phase = idle }
effect true d c = record c { deps = d; enter_waits = true; dismiss_waits = ltb 0 d.dismiss }

-- The first render, and its effect.
unfoldable pub start : Deps → Card
unfolding effect
start d = effect d.is_active d (record {
  deps = d;
  phase = idle;
  enter_waits = false;
  frame_waits = false;
  dismiss_waits = false;
  leave_waits = false;
  mounted = true;
})

unfoldable pub same_deps : Deps → Deps → Bool
same_deps d e =
    (if d.is_active then e.is_active else not e.is_active)
    && (d.show_delay == e.show_delay && d.dismiss == e.dismiss)

unfoldable pub rendered : Deps → Card → Card
unfolding same_deps effect cleanup
rendered d c = if same_deps d c.deps then c else effect d.is_active d (cleanup c)

-- The callbacks.
unfoldable pub enter : Card → Card
enter c = record c { phase = entering; enter_waits = false; frame_waits = true }

unfoldable pub frame : Card → Card
frame c = record c { phase = shown; frame_waits = false }

unfoldable pub dismiss : Card → Card
dismiss c = record c { phase = leaving; dismiss_waits = false; leave_waits = true }

unfoldable pub leave : Card → Card
leave c = record c { phase = idle; leave_waits = false }

-- The timer that dismisses is set for later than the one that enters.
pub data Event : Type 0 where
  render : Deps → Event
  entered framed dismissed left : Event
  unmounted : Event

unfoldable pub step : Event → Card → Card
unfolding rendered enter frame dismiss leave cleanup
step (render d) c = if c.mounted then rendered d c else c
step entered c = if c.enter_waits then enter c else c
step framed c = if c.frame_waits then frame c else c
step dismissed c = if c.dismiss_waits && not c.enter_waits then dismiss c else c
step left c = if c.leave_waits then leave c else c
step unmounted c = record (cleanup c) { mounted = false }

unfoldable pub run : List Event → Card → Card
unfolding step
run [] c = c
run (e ∷ es) c = run es (step e c)

-- What is drawn: the winner's side, 1 or 2, in a phase that is not idle.
unfoldable pub winner : ℕ → ℕ → Option ℕ
winner wins_1 wins_2 =
    if ltb wins_2 wins_1 then some 1 else if ltb wins_1 wins_2 then some 2 else none

unfoldable pub drawn : Phase → Option ℕ → Option ℕ
drawn idle w = none
drawn _ w = w

unfoldable pub opacity : Phase → ℕ
opacity shown = 1
opacity _ = 0
