-- ===== src/Overlay/Fade.antt =====
-- The hook that fades an element of the overlay in and out
-- (web/src/features/overlay/renderer/FadeMount.tsx), with the browser's timers and frames.
-- A handle that the browser gives is never zero, so a handle kept in a ref is true as a condition.
-- The duration is the same for every timer: they run out in the order in which they were set.
pub mod Phases
pub mod Settles
mod Examples
use court_command.Prelude.{
  ℕ, zero, suc, ◌+◌, ◌-◌, ◌*◌, ◌/◌, ◌%◌, ◌^◌, ◌≤◌, ◌<◌, min, max, ◌≡◌, refl, sym, ap, ◌∙◌, subst,
  ◌≢◌, ◌↔◌, ◌⊎◌, inl, inr, Bool, true, false, not, ◌&&◌, ◌||◌, false≢true, Option, none, some, List,
  [], ◌∷◌, ◌++◌, map, arith, ltb, leb, ◌==◌, if◌then◌else◌, ltb→lt, lt→ltb, leb→le, ==_iff, ==_refl,
  Bool-cases, Option-cases, or_else, if_both, length, get_elem?, filter, any, all, length-append,
  length-filter-le, filter-filter, any-filter, filter-eq_of_length, filter-all, filter-true,
  filter-false, filter-append, All, In, Ordered, All-filter, Ordered-filter, In-filter,
  In-of_filter, In-map, All-map, All-In, All-append, Ordered-map,
}

pub data Frame : Type 0 where
  outer inner : Frame

-- What is rendered, the refs, and what the browser holds: `frames` are the callbacks for the next
-- animation frame and `timeouts` the timers, oldest first. `attached` is false after the unmount.
pub record Fade : Type 0 where
  pub visible : Bool
  pub mounted : Bool
  pub opacity : ℕ
  pub hide_timer : Option ℕ
  pub show_raf_a : Option ℕ
  pub show_raf_b : Option ℕ
  pub frames : List (ℕ × Frame)
  pub timeouts : List ℕ
  pub next_frame : ℕ
  pub next_timer : ℕ
  pub attached : Bool

-- `if (ref.current) cancelAnimationFrame(ref.current)`, and the same of a timeout.
unfoldable pub cancel_frame : Option ℕ → List (ℕ × Frame) → List (ℕ × Frame)
cancel_frame none fs = fs
cancel_frame (some id) fs = filter (λ f. not (f.0 == id)) fs

unfoldable pub clear_timeout : Option ℕ → List ℕ → List ℕ
clear_timeout none ts = ts
clear_timeout (some id) ts = filter (λ t. not (t == id)) ts

-- The first lines of the effect.
unfoldable pub cancel_pending : Fade → Fade
unfolding cancel_frame clear_timeout
cancel_pending f = record f {
  hide_timer = none;
  show_raf_a = none;
  show_raf_b = none;
  frames = cancel_frame f.show_raf_b (cancel_frame f.show_raf_a f.frames);
  timeouts = clear_timeout f.hide_timer f.timeouts;
}

-- The rest of the effect, for `visible` true and false.
unfoldable pub show : Fade → Fade
show f = record f {
  mounted = true;
  opacity = 0;
  show_raf_a = some f.next_frame;
  frames = f.frames ++ (f.next_frame, outer) ∷ [];
  next_frame = f.next_frame + 1;
}

unfoldable pub hide : Fade → Fade
hide f = record f {
  opacity = 0;
  hide_timer = some f.next_timer;
  timeouts = f.timeouts ++ f.next_timer ∷ [];
  next_timer = f.next_timer + 1;
}

unfoldable pub effect : Bool → Fade → Fade
unfolding cancel_pending show hide
effect true f = show (cancel_pending (record f { visible = true }))
effect false f = hide (cancel_pending (record f { visible = false }))

-- The first render, and the effect that follows it.
unfoldable pub start : Bool → Fade
unfolding effect
start visible = effect visible (record {
  visible = visible;
  mounted = visible;
  opacity = if visible then 1 else 0;
  hide_timer = none;
  show_raf_a = none;
  show_raf_b = none;
  frames = [];
  timeouts = [];
  next_frame = 1;
  next_timer = 1;
  attached = true;
})

-- A render with the prop: the effect runs if it has changed.
unfoldable pub rendered : Bool → Bool → Fade → Fade
unfolding effect
rendered true true f = f
rendered false false f = f
rendered true false f = effect true f
rendered false true f = effect false f

-- A callback of requestAnimationFrame.
unfoldable pub run_frame : Frame → Fade → Fade
run_frame outer f = record f {
  show_raf_b = some f.next_frame;
  frames = f.frames ++ (f.next_frame, inner) ∷ [];
  next_frame = f.next_frame + 1;
}
run_frame inner f = record f { opacity = 1; show_raf_a = none; show_raf_b = none }

unfoldable pub run_frames : List (ℕ × Frame) → Fade → Fade
unfolding run_frame
run_frames [] f = f
run_frames (c ∷ cs) f = run_frames cs (run_frame c.1 f)

-- The callback of setTimeout, for the oldest timer.
unfoldable pub run_timeout : List ℕ → Fade → Fade
run_timeout [] f = f
run_timeout (t ∷ ts) f = record f { mounted = false; hide_timer = none; timeouts = ts }

-- The cleanup of the second effect.
unfoldable pub unmount : Fade → Fade
unfolding cancel_frame clear_timeout
unmount f = record f {
  frames = cancel_frame f.show_raf_b (cancel_frame f.show_raf_a f.frames);
  timeouts = clear_timeout f.hide_timer f.timeouts;
  attached = false;
}

-- `framed` is an animation frame: the callbacks that waited for it run, and those that they ask for
-- wait for the next one.
pub data Event : Type 0 where
  render : (visible : Bool) → Event
  framed timed_out unmounted : Event

unfoldable pub step : Event → Fade → Fade
unfolding rendered run_frames run_timeout unmount
step (render visible) f = if f.attached then rendered visible f.visible f else f
step framed f = run_frames f.frames (record f { frames = [] })
step timed_out f = run_timeout f.timeouts f
step unmounted f = if f.attached then unmount f else f

unfoldable pub run : List Event → Fade → Fade
unfolding step
run [] f = f
run (e ∷ es) f = run es (step e f)
