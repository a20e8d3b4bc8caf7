-- ===== src/Overlay/Tv/Armed.antt =====
-- When the rotation (web/src/features/overlay/tv/useSlideRotation.ts) has its timer armed.
use court_command.Prelude.{
  and_right, and_left, ℕ, ◌+◌, ◌%◌, ◌<◌, ◌≡◌, refl, sym, ap, ◌∙◌, subst, inl, inr, Bool, true,
  false, not, ◌&&◌, ◌||◌, false≢true, Option, none, some, List, [], ◌∷◌, arith, ltb, leb, ◌==◌,
  if◌then◌else◌, lt→ltb, ==_refl, Bool-cases, all,
}
use court_command.Overlay.Tv.{
  Options, Number, Timer, Rotation, Event, safe_interval, clamp_index, schedule_next, mounted,
  same_deps, same_flag, rendered, valid_index, fired, next_index, prev_index, step, steps,
  options_given, timer_fires, next, prev, reset, go_to, time_passes,
}
use court_command.Overlay.Tv.Bounds.{
  is_slide, is_timer_for, IsInsideRotation, step-IsInside, clamp_index-is_slide,
  schedule_next-is_timer_for,
}
use court_command.Overlay.Tv.Cycle.{next-moves}

abbrev pub is_armed : Option Timer → Bool
is_armed none = false
is_armed (some t) = true

-- The rotation is to advance by itself.
abbrev pub is_automatic : Options → Bool
is_automatic o = not o.paused && ltb 1 o.count

abbrev pub keeps_timer : Event → Bool
keeps_timer reset = false
keeps_timer _ = true

armed_unless :
    (p : Bool) (c : ℕ) (t : Timer)
    → is_armed (if p || leb c 1 then none else some t) ≡ (not p && ltb 1 c)
armed_unless true c t = refl
armed_unless false c t = ground arith

automatic_eq :
    (p q x y : Bool) (c d : ℕ)
    → (x && (c == d && (y && same_flag p q))) ≡ true
    → (not p && ltb 1 c) ≡ (not q && ltb 1 d)
automatic_eq true true x y c d e = refl
automatic_eq true false x y c d e = ground arith
automatic_eq false true x y c d e = ground arith
automatic_eq false false x y c d e = ground arith

schedule_next-armed : (o : Options) (now : ℕ) → is_armed (schedule_next o now) ≡ is_automatic o
unfolding schedule_next
schedule_next-armed o now =
    armed_unless o.paused o.count record { fires_at = now + safe_interval o; count = o.count }

same_deps-automatic :
    (o p : Options) (i j : ℕ) → same_deps o p i j ≡ true → is_automatic o ≡ is_automatic p
same_deps-automatic o p i j e =
    automatic_eq o.paused p.paused (i == j) (safe_interval o == safe_interval p) o.count p.count e

rendered-armed :
    (o : Options) (index : ℕ) (s : Rotation)
    → (same_deps s.options o s.index index ≡ true → is_armed s.timer ≡ is_automatic s.options)
    → is_armed (rendered o index s).timer ≡ is_automatic o
unfolding rendered
rendered-armed o index s h = elim (Bool-cases (same_deps s.options o s.index index)) [
  | inl e ↦ rw e (h e ∙ same_deps-automatic s.options o s.index index e)
  | inr e ↦ rw e (schedule_next-armed o s.now)
]

timer-several : (count m : ℕ) → (m == count && ltb 1 count) ≡ true → 1 < m
timer-several count m h = ground arith

timer-slide :
    (count m index : ℕ)
    → (m == count && ltb 1 count) ≡ true
    → is_slide count index ≡ true
    → index < m
timer-slide count m index h i = ground arith

fired-armed :
    (timer : Option Timer) (s : Rotation)
    → s.timer ≡ timer
    → IsInsideRotation s
    → is_armed timer ≡ is_automatic s.options
    → is_armed (fired timer s).timer ≡ is_automatic s.options
unfolding fired
fired-armed none s e i h = ap is_armed e ∙ h
fired-armed (some t) s e i h =
    rendered-armed s.options ((s.index + 1) % t.count) (record s { now = t.fires_at; timer = none })
      (λ d.
        let same = subst (λ o. is_timer_for s.options.count o ≡ true) e i.1.1 in
        absurd (
          false≢true (
            sym (
              next-moves t.count s.index (timer-several s.options.count t.count same)
                (timer-slide s.options.count t.count s.index same i.0))
            ∙ and_left (s.index == (s.index + 1) % t.count) _ d)))

fired-options : (timer : Option Timer) (s : Rotation) → (fired timer s).options ≡ s.options
unfolding fired rendered
fired-options none s = refl
fired-options (some t) s = refl

step-armed :
    (e : Event) (s : Rotation)
    → keeps_timer e ≡ true
    → IsInsideRotation s
    → is_armed s.timer ≡ is_automatic s.options
    → is_armed (step e s).timer ≡ is_automatic (step e s).options
unfolding step
step-armed reset s k i h = absurd (false≢true k)
step-armed (options_given o) s k i h = rendered-armed o (valid_index s.options o s.index) s (λ d. h)
step-armed timer_fires s k i h =
    fired-armed s.timer s refl i h ∙ ap is_automatic (sym (fired-options s.timer s))
step-armed next s k i h = rendered-armed s.options (next_index s.options.count s.index) s (λ d. h)
step-armed prev s k i h = rendered-armed s.options (prev_index s.options.count s.index) s (λ d. h)
step-armed (go_to n) s k i h = rendered-armed s.options (clamp_index n s.options.count) s (λ d. h)
step-armed (time_passes d) s k i h = h

steps-armed :
    (es : List Event) (s : Rotation)
    → all keeps_timer es ≡ true
    → IsInsideRotation s
    → is_armed s.timer ≡ is_automatic s.options
    → is_armed (steps es s).timer ≡ is_automatic (steps es s).options
unfolding steps
steps-armed [] s k i h = h
steps-armed (e ∷ es) s k i h =
    steps-armed es (step e s) (and_right (keeps_timer e) (all keeps_timer es) k)
      (step-IsInside e s i) (step-armed e s (and_left (keeps_timer e) (all keeps_timer es) k) i h)

-- As long as `reset` is not called, whatever the options become and whatever else is called, the timer
-- is armed exactly when the rotation is not paused and has several slides.
pub armed_iff :
    (o : Options) (start : Number) (now : ℕ) (es : List Event)
    → all keeps_timer es ≡ true
    → is_armed (steps es (mounted o start now)).timer
      ≡ is_automatic (steps es (mounted o start now)).options
unfolding mounted
armed_iff o start now es k =
    steps-armed es (mounted o start now) k
      (clamp_index-is_slide start o.count, (refl, schedule_next-is_timer_for o now))
      (schedule_next-armed o now)

automatic : (o : Options) → o.paused ≡ false → 1 < o.count → is_automatic o ≡ true
automatic o p h = rw p (lt→ltb 1 o.count h)

-- A rotation that has several slides and is not paused is paused and then reset: its timer is armed
-- again, paused as it is.
pub reset_ignores_pause :
    (o : Options) (start : Number) (now : ℕ)
    → o.paused ≡ false
    → 1 < o.count
    → let after =
        steps (options_given (record o { paused = true }) ∷ reset ∷ []) (mounted o start now) in
      (after.options.paused ≡ true) × (is_armed after.timer ≡ true)
unfolding steps step rendered mounted
reset_ignores_pause o start now p h = (
  refl,
  rw (==_refl o.count, ==_refl (clamp_index start o.count))
      (schedule_next-armed o now ∙ automatic o p h),
)
