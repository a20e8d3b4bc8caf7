-- ===== src/Overlay/Tv/Bounds.antt =====
-- Where the index and the timer of the rotation (web/src/features/overlay/tv/useSlideRotation.ts) can be.
use native.Mathlib.Nat.{mod-lt}
use court_command.Prelude.{
  and_left, and_right, ℕ, zero, suc, ◌+◌, ◌-◌, ◌%◌, ◌<◌, max, ◌≡◌, refl, sym, ◌∙◌, subst, inl, inr,
  Bool, true, false, ◌&&◌, ◌||◌, Option, none, some, List, [], ◌∷◌, arith, ltb, leb, ◌==◌, lt→ltb,
  ==_iff, Bool-cases,
}
use court_command.Overlay.Tv.{
  Options, Number, natural, negative, not_finite, Timer, Rotation, Event, clamp_index,
  schedule_next, mounted, same_api, same_deps, rendered, valid_index, fired, next_index, prev_index,
  step, steps, options_given, timer_fires, next, prev, reset, go_to, time_passes,
}

-- The index is that of a slide, or zero where there is none.
abbrev pub is_slide : ℕ → ℕ → Bool
is_slide count index = ltb index (max 1 count)

-- A timer is for the slides there are, which are several.
abbrev pub is_timer_for : ℕ → Option Timer → Bool
is_timer_for count none = true
is_timer_for count (some t) = t.count == count && ltb 1 count

-- The invariant, on the count, the count captured, the index and the timer.
abbrev pub IsInside : ℕ → ℕ → ℕ → Option Timer → Type 0
IsInside count captured index timer =
    (is_slide count index ≡ true) × ((captured ≡ count) × (is_timer_for count timer ≡ true))

abbrev pub IsInsideRotation : Rotation → Type 0
IsInsideRotation s = IsInside s.options.count s.captured.count s.index s.timer

single_or_several :
    (count : ℕ) (paused : Bool)
    → (paused || leb count 1) ≡ false
    → (count == count && ltb 1 count) ≡ true
single_or_several count paused e = ground arith

pub schedule_next-is_timer_for :
    (o : Options) (now : ℕ) → is_timer_for o.count (schedule_next o now) ≡ true
unfolding schedule_next
schedule_next-is_timer_for o now = elim (Bool-cases (o.paused || leb o.count 1)) [
  | inl e ↦ rw e refl
  | inr e ↦ rw e (single_or_several o.count o.paused e)
]

pub clamp_index-is_slide : (n : Number) (count : ℕ) → is_slide count (clamp_index n count) ≡ true
unfolding clamp_index
clamp_index-is_slide (natural n) count = ground arith
clamp_index-is_slide negative count = ground arith
clamp_index-is_slide not_finite count = ground arith

below_max : (m count : ℕ) → m < count → m < max 1 count
below_max m count h = omega arith

pub mod-is_slide : (n count : ℕ) → 0 < count → is_slide count (n % count) ≡ true
mod-is_slide n count h = lt→ltb (n % count) (max 1 count) (below_max (n % count) count (mod-lt n h))

valid_index-is_slide :
    (o p : Options) (index : ℕ)
    → is_slide o.count index ≡ true
    → is_slide p.count (valid_index o p index) ≡ true
valid_index-is_slide o p index h = ground arith

same_api-count : (o p : Options) (i j : ℕ) → same_api o p i j ≡ true → o.count ≡ p.count
same_api-count o p i j e = (==_iff o.count p.count).0 (and_right (i == j) (o.count == p.count) e)

pub same_deps-count : (o p : Options) (i j : ℕ) → same_deps o p i j ≡ true → o.count ≡ p.count
same_deps-count o p i j e = ground arith

rendered-IsInside :
    (o : Options) (index : ℕ) (s : Rotation)
    → is_slide o.count index ≡ true
    → s.captured.count ≡ s.options.count
    → is_timer_for s.options.count s.timer ≡ true
    → IsInsideRotation (rendered o index s)
unfolding rendered
rendered-IsInside o index s i c t = (
  i,
  (
    elim (Bool-cases (same_api s.options o s.index index)) [
      | inl e ↦ rw e (c ∙ same_api-count s.options o s.index index e)
      | inr e ↦ rw e refl
    ],
    elim (Bool-cases (same_deps s.options o s.index index)) [
      | inl e ↦ rw e (
          subst (λ n. is_timer_for n s.timer ≡ true) (same_deps-count s.options o s.index index e)
            t)
      | inr e ↦ rw e (schedule_next-is_timer_for o s.now)
    ],
  ),
)

pub not_zero : (n : ℕ) → (suc n == 0) ≡ false
not_zero n = ground arith

pub next_index-is_slide : (count index : ℕ) → is_slide count (next_index count index) ≡ true
next_index-is_slide zero index = ground arith
next_index-is_slide (suc n) index = rw (not_zero n) (mod-is_slide (index + 1) (suc n) (omega arith))

prev_index-is_slide : (count index : ℕ) → is_slide count (prev_index count index) ≡ true
prev_index-is_slide zero index = ground arith
prev_index-is_slide (suc n) index =
    rw (not_zero n) (mod-is_slide (index + suc n - 1) (suc n) (omega arith))

several : (count m : ℕ) → (m == count && ltb 1 count) ≡ true → 0 < count
several count m h = ground arith

mod-is_slide_for :
    (count m n : ℕ) → (m == count && ltb 1 count) ≡ true → is_slide count (n % m) ≡ true
mod-is_slide_for count m n h =
    subst (λ k. is_slide count (n % k) ≡ true)
      (sym ((==_iff m count).0 (and_left (m == count) (ltb 1 count) h)))
      (mod-is_slide n count (several count m h))

fired-IsInside :
    (timer : Option Timer) (s : Rotation)
    → s.timer ≡ timer
    → IsInsideRotation s
    → IsInsideRotation (fired timer s)
unfolding fired
fired-IsInside none s e h = h
fired-IsInside (some t) s e h =
    let ok = subst (λ o. is_timer_for s.options.count o ≡ true) e h.1.1 in
    rendered-IsInside s.options ((s.index + 1) % t.count)
      (record s { now = t.fires_at; timer = none })
      (mod-is_slide_for s.options.count t.count (s.index + 1) ok) h.1.0 refl

pub step-IsInside : (e : Event) (s : Rotation) → IsInsideRotation s → IsInsideRotation (step e s)
unfolding step
step-IsInside (options_given o) s h =
    rendered-IsInside o (valid_index s.options o s.index) s
      (valid_index-is_slide s.options o s.index h.0) h.1.0 h.1.1
step-IsInside timer_fires s h = fired-IsInside s.timer s refl h
step-IsInside next s h =
    rendered-IsInside s.options (next_index s.options.count s.index) s
      (next_index-is_slide s.options.count s.index) h.1.0 h.1.1
step-IsInside prev s h =
    rendered-IsInside s.options (prev_index s.options.count s.index) s
      (prev_index-is_slide s.options.count s.index) h.1.0 h.1.1
step-IsInside reset s h = (
  h.0,
  (
    h.1.0,
    subst (λ n. is_timer_for n (schedule_next s.captured s.now) ≡ true) h.1.0
        (schedule_next-is_timer_for s.captured s.now),
  ),
)
step-IsInside (go_to n) s h =
    rendered-IsInside s.options (clamp_index n s.options.count) s
      (clamp_index-is_slide n s.options.count) h.1.0 h.1.1
step-IsInside (time_passes d) s h = h

steps-IsInside :
    (es : List Event) (s : Rotation) → IsInsideRotation s → IsInsideRotation (steps es s)
unfolding steps
steps-IsInside [] s h = h
steps-IsInside (e ∷ es) s h = steps-IsInside es (step e s) (step-IsInside e s h)

-- Whatever the options become and whatever is called, the index stays below the count of slides (zero
-- where there are none), and a timer that is armed is for that count, which is above one.
pub index_in_bounds :
    (o : Options) (start : Number) (now : ℕ) (es : List Event)
    → IsInsideRotation (steps es (mounted o start now))
unfolding mounted
index_in_bounds o start now es =
    steps-IsInside es (mounted o start now)
      (clamp_index-is_slide start o.count, (refl, schedule_next-is_timer_for o now))
