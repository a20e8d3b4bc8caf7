-- ===== src/Overlay/Tv.antt =====
-- The rotation of the slides of a TV (web/src/features/overlay/tv/useSlideRotation.ts). The count of
-- slides and the interval are natural numbers. `now` is the clock, a timer the moment it fires at and
-- the count of slides that its callback has; `captured` are the options of the render that made the
-- object returned, which its `reset` schedules with.
pub mod Bounds
pub mod Cycle
pub mod Armed
pub mod Kiosk
pub mod Columns
pub mod Courts
mod Examples
use court_command.Prelude.{
  ℕ, zero, suc, ◌+◌, ◌-◌, ◌*◌, ◌/◌, ◌%◌, ◌^◌, ◌≤◌, ◌<◌, min, max, ◌≡◌, refl, sym, ap, ◌∙◌, subst,
  ◌≢◌, ◌↔◌, ◌⊎◌, inl, inr, Bool, true, false, not, ◌&&◌, ◌||◌, false≢true, Option, none, some, List,
  [], ◌∷◌, ◌++◌, map, arith, ltb, leb, ◌==◌, if◌then◌else◌, ltb→lt, lt→ltb, leb→le, ==_iff, ==_refl,
  Bool-cases, Option-cases, or_else, if_both, length, get_elem?, filter, any, all, length-append,
  length-filter-le, filter-filter, any-filter, filter-eq_of_length, filter-all, filter-true,
  filter-false, filter-append, All, In, Ordered, All-filter, Ordered-filter, In-filter,
  In-of_filter, In-map, All-map, All-In, All-append, Ordered-map,
}

pub record Options : Type 0 where
  pub count : ℕ
  pub interval_ms : ℕ
  pub paused : Bool

-- A number given as an index; one that is not whole stands by its floor.
pub data Number : Type 0 where
  natural : ℕ → Number
  negative not_finite : Number

pub clamp_index : Number → ℕ → ℕ
clamp_index (natural n) count = if count == 0 then 0 else if leb count n then count - 1 else n
clamp_index negative count = 0
clamp_index not_finite count = 0

pub record Timer : Type 0 where
  pub fires_at : ℕ
  pub count : ℕ

pub record Rotation : Type 0 where
  pub options : Options
  pub index : ℕ
  pub timer : Option Timer
  pub captured : Options
  pub now : ℕ

abbrev pub safe_interval : Options → ℕ
safe_interval o = max 1000 o.interval_ms

-- `scheduleNext`: what the timer is afterwards.
pub schedule_next : Options → ℕ → Option Timer
schedule_next o now =
    if o.paused || leb o.count 1
    then none
    else some record { fires_at = now + safe_interval o; count = o.count }

pub mounted : Options → Number → ℕ → Rotation
unfolding schedule_next clamp_index
mounted o start now = record {
  options = o;
  index = clamp_index start o.count;
  timer = schedule_next o now;
  captured = o;
  now = now;
}

abbrev pub same_flag : Bool → Bool → Bool
same_flag true b = b
same_flag false b = not b

-- The dependencies of the object returned, and those of the effect that arms the timer.
abbrev pub same_api : Options → Options → ℕ → ℕ → Bool
same_api o p index index' = index == index' && o.count == p.count

abbrev pub same_deps : Options → Options → ℕ → ℕ → Bool
same_deps o p index index' =
    index == index'
    && (o.count == p.count && (safe_interval o == safe_interval p && same_flag o.paused p.paused))

-- A render with the options and the index that it has, and its effects.
pub rendered : Options → ℕ → Rotation → Rotation
unfolding schedule_next
rendered o index s = record s {
  options = o;
  index = index;
  timer = if same_deps s.options o s.index index then s.timer else schedule_next o s.now;
  captured = if same_api s.options o s.index index then s.captured else o;
}

-- The effect that keeps the index valid when the count has changed.
abbrev pub valid_index : Options → Options → ℕ → ℕ
valid_index o p index =
    if o.count == p.count
    then index
    else if p.count == 0
    then 0
    else if leb p.count index
    then 0
    else index

-- The timer's callback, where the clock has come to it.
pub fired : Option Timer → Rotation → Rotation
unfolding rendered
fired none s = s
fired (some t) s =
    rendered s.options ((s.index + 1) % t.count) (record s { now = t.fires_at; timer = none })

-- `next` and `prev` of the index.
abbrev pub next_index : ℕ → ℕ → ℕ
next_index count index = if count == 0 then 0 else (index + 1) % count

abbrev pub prev_index : ℕ → ℕ → ℕ
prev_index count index = if count == 0 then 0 else (index + count - 1) % count

-- Time passes, and no timer fires.
abbrev pub passed : ℕ → Option Timer → ℕ → ℕ
passed duration none now = now + duration
passed duration (some t) now = min (now + duration) t.fires_at

pub data Event : Type 0 where
  options_given : Options → Event
  timer_fires next prev reset : Event
  go_to : Number → Event
  time_passes : ℕ → Event

pub step : Event → Rotation → Rotation
unfolding rendered fired schedule_next clamp_index
step (options_given o) s = rendered o (valid_index s.options o s.index) s
step timer_fires s = fired s.timer s
step next s = rendered s.options (next_index s.options.count s.index) s
step prev s = rendered s.options (prev_index s.options.count s.index) s
step (go_to n) s = rendered s.options (clamp_index n s.options.count) s
step reset s = record s { timer = schedule_next s.captured s.now }
step (time_passes duration) s = record s { now = passed duration s.timer s.now }

pub steps : List Event → Rotation → Rotation
unfolding step
steps [] s = s
steps (e ∷ es) s = steps es (step e s)
