-- ===== src/Overlay/Sponsors/Rotation.antt =====
-- What the rotation of the sponsors' logos shows
-- (web/src/features/overlay/renderer/elements/SponsorBug.tsx).
use Prim.Native.String.{String}
use court_command.Prelude.{and_left, and_right}
use court_command.Prelude.{
  ℕ, zero, suc, ◌+◌, ◌-◌, ◌%◌, ◌<◌, ◌≡◌, refl, sym, ap, ◌∙◌, subst, ◌⊎◌, inl, inr, Bool, true,
  false, ◌&&◌, false≢true, Option, none, some, List, [], ◌∷◌, arith, ltb, leb, ◌==◌, if◌then◌else◌,
  Bool-cases, length, get_elem?,
}
use native.Mathlib.Nat.{mod-lt, mod-eq_of_lt, mod-add-mod}
use court_command.Prelude.Turns.{turns_until, turns-reach}
use court_command.Overlay.Sponsors.{
  Props, Bug, interval_for, same_flag, same_props, rotate_effect, clamp_effect, start, ticked,
  Event, render, tick, unmounted, step, run, active_logo,
}

-- The index is one of the logos, if there is one; an interval is set, while the element is mounted,
-- exactly for several visible logos, and for their number.
abbrev pub IsRotating : Bug → Type 0
IsRotating b =
    ((length b.props.logos ≡ 0) ⊎ (b.active_index < length b.props.logos))
    × (b.interval ≡ (if b.mounted then interval_for b.props else none))

same_flag→eq : (a b : Bool) → same_flag a b ≡ true → a ≡ b
unfolding same_flag
same_flag→eq true true h = refl
same_flag→eq true false h = absurd (false≢true h)
same_flag→eq false true h = absurd (false≢true h)
same_flag→eq false false h = refl

interval_for-eq :
    (p q : Props)
    → p.visible ≡ q.visible
    → length p.logos ≡ length q.logos
    → interval_for p ≡ interval_for q
unfolding interval_for
interval_for-eq p q e f = rw (e, f) refl

same_props-interval : (p q : Props) → same_props p q ≡ true → interval_for p ≡ interval_for q
unfolding same_props
same_props-interval p q h =
    let flags = same_flag p.visible q.visible in
    let lengths = length p.logos == length q.logos in
    let rest = and_right flags (lengths && p.rotation == q.rotation) h in
    interval_for-eq p q
      (same_flag→eq p.visible q.visible (and_left flags (lengths && p.rotation == q.rotation) h))
      (ground (arith, and_left lengths (p.rotation == q.rotation) rest))

-- What the second effect leaves: an index of the logos, if there is one.
clamped : (n i : ℕ) → (leb n i && ltb 0 n) ≡ false → (n ≡ 0) ⊎ (i < n)
clamped n i h = ground arith

positive : (n i : ℕ) → (leb n i && ltb 0 n) ≡ true → 0 < n
positive n i h = ground arith

clamp-IsRotating :
    (b : Bug)
    → b.interval ≡ (if b.mounted then interval_for b.props else none)
    → IsRotating (clamp_effect b)
unfolding clamp_effect
clamp-IsRotating b h =
    let n = length b.props.logos in
    elim (Bool-cases (leb n b.active_index && ltb 0 n)) [
      | inl e ↦ rw e (inr (positive n b.active_index e), h)
      | inr e ↦ rw e (clamped n b.active_index e, h)
    ]

rotate-interval :
    (p : Props) (b : Bug)
    → b.mounted ≡ true
    → b.interval ≡ interval_for b.props
    → (rotate_effect p b).interval
      ≡ (if (rotate_effect p b).mounted then interval_for (rotate_effect p b).props else none)
unfolding rotate_effect
rotate-interval p b m h = elim (Bool-cases (same_props p b.props)) [
  | inl e ↦
      rw e (h ∙ sym (same_props-interval p b.props e) ∙ sym (if_on b.mounted (interval_for p) m))
  | inr e ↦ rw e (sym (if_on b.mounted (interval_for p) m))
]
  where
    if_on : (c : Bool) (o : Option ℕ) → c ≡ true → (if c then o else none) ≡ o
    if_on c o e = rw e refl

tick-IsRotating : (o : Option ℕ) (b : Bug) → IsRotating b → IsRotating (ticked o b)
unfolding ticked
tick-IsRotating none b k = k
tick-IsRotating (some n) b k =
    clamp-IsRotating (record b { active_index = (b.active_index + 1) % n }) k.1

on_interval : (b : Bug) → b.mounted ≡ true → IsRotating b → b.interval ≡ interval_for b.props
on_interval b m k = k.1 ∙ rw m refl

step-IsRotating : (e : Event) (b : Bug) → IsRotating b → IsRotating (step e b)
unfolding step
step-IsRotating (render p) b k = elim (Bool-cases b.mounted) [
  | inl m ↦
      subst IsRotating (sym (taken b.mounted (clamp_effect (rotate_effect p b)) b m))
        (clamp-IsRotating (rotate_effect p b) (rotate-interval p b m (on_interval b m k)))
  | inr m ↦ subst IsRotating (sym (left_out b.mounted (clamp_effect (rotate_effect p b)) b m)) k
]
  where
    taken : (c : Bool) (x y : Bug) → c ≡ true → (if c then x else y) ≡ x
    taken c x y e = rw e refl

    left_out : (c : Bool) (x y : Bug) → c ≡ false → (if c then x else y) ≡ y
    left_out c x y e = rw e refl
step-IsRotating tick b k = tick-IsRotating b.interval b k
step-IsRotating unmounted b k = (k.0, refl)

steps-IsRotating : (es : List Event) (b : Bug) → IsRotating b → IsRotating (run es b)
unfolding run
steps-IsRotating [] b k = k
steps-IsRotating (e ∷ es) b k = steps-IsRotating es (step e b) (step-IsRotating e b k)

start-IsRotating : (p : Props) → IsRotating (start p)
unfolding start
start-IsRotating p = (first (length p.logos), refl)
  where
    first : (n : ℕ) → (n ≡ 0) ⊎ (0 < n)
    first zero = inl refl
    first (suc n) = inr (omega arith)

-- Whatever is rendered, however the list of logos grows and shrinks, and whenever the interval
-- fires: the index is that of a logo, if there is one; and an interval is set, while the element is
-- mounted, exactly if it is visible with several logos, and it goes around their number.
pub run-IsRotating : (p : Props) (es : List Event) → IsRotating (run es (start p))
run-IsRotating p es = steps-IsRotating es (start p) (start-IsRotating p)

abbrev pub ticks : ℕ → List Event
ticks zero = []
ticks (suc k) = tick ∷ ticks k

-- A mounted element that is visible, with its logos.
abbrev bug : List String → ℕ → ℕ → Bug
bug logos rotation i = record {
  props = record { visible = true; logos = logos; rotation = rotation };
  active_index = i;
  interval = some (length logos);
  mounted = true;
}

inside : (n i : ℕ) → 1 < n → (leb n (i % n) && ltb 0 n) ≡ false
inside n i h = below n (i % n) (mod-lt i (several n h))
  where
    several : (m : ℕ) → 1 < m → 0 < m
    several m h = omega arith

    below : (m j : ℕ) → j < m → (leb m j && ltb 0 m) ≡ false
    below m j l = ground arith

tick-bug :
    (logos : List String) (rotation i : ℕ)
    → 1 < length logos
    → step tick (bug logos rotation i) ≡ bug logos rotation ((i + 1) % length logos)
unfolding step ticked clamp_effect
tick-bug logos rotation i h = rw (inside (length logos) (i + 1) h) refl

ticks-bug :
    (k : ℕ) (logos : List String) (rotation i : ℕ)
    → 1 < length logos
    → i < length logos
    → run (ticks k) (bug logos rotation i) ≡ bug logos rotation ((i + k) % length logos)
unfolding run
ticks-bug zero logos rotation i h l =
    ap (bug logos rotation) (sym (mod-eq_of_lt l) ∙ ap (λ n. n % length logos) (add_zero i))
  where
    add_zero : (n : ℕ) → n ≡ n + 0
    add_zero n = omega arith
ticks-bug (suc k) logos rotation i h l =
    ap (run (ticks k)) (tick-bug logos rotation i h)
    ∙ ticks-bug k logos rotation ((i + 1) % length logos) h
        (mod-lt (i + 1) (several (length logos) h))
    ∙ ap (bug logos rotation)
        (mod-add-mod (i + 1) (length logos) k ∙ ap (λ n. n % length logos) (add_suc i k))
  where
    several : (m : ℕ) → 1 < m → 0 < m
    several m g = omega arith

    add_suc : (n j : ℕ) → n + 1 + j ≡ n + suc j
    add_suc n j = omega arith

visible-interval :
    (p : Props) → p.visible ≡ true → 1 < length p.logos → interval_for p ≡ some (length p.logos)
unfolding interval_for
visible-interval p v h = rw (v, enough (length p.logos) h) refl
  where
    enough : (n : ℕ) → 1 < n → ltb n 2 ≡ false
    enough n g = ground arith

as_bug :
    (b : Bug)
    → b.mounted ≡ true
    → b.props.visible ≡ true
    → 1 < length b.props.logos
    → IsRotating b
    → b ≡ bug b.props.logos b.props.rotation b.active_index
as_bug b m v h k =
    let i = on_interval b m k ∙ visible-interval b.props v h in
    ap (λ o. record b { interval = o }) i
    ∙ ap (λ c. record b { interval = some (length b.props.logos); mounted = c }) m
    ∙ ap
        (λ c. record b {
          props = record { visible = c; logos = b.props.logos; rotation = b.props.rotation };
          interval = some (length b.props.logos);
          mounted = true;
        })
        v

-- After anything that has happened, an element that is mounted and visible with several logos comes
-- to show each of them, after fewer firings of its interval than there are logos.
pub every_logo_shown :
    (p : Props) (es : List Event) (i : ℕ)
    → let b : Bug = run es (start p) in
      b.mounted ≡ true
      → b.props.visible ≡ true
      → 1 < length b.props.logos
      → i < length b.props.logos
      → (k : ℕ) × ((k < length b.props.logos)
          × (active_logo (run (ticks k) b) ≡ get_elem? b.props.logos i))
unfolding active_logo
every_logo_shown p es i m v h l =
    let b : Bug = run es (start p) in
    let logos = b.props.logos in
    let rotating = run-IsRotating p es in
    let index : b.active_index < length logos = ground (arith, rotating.0) in
    let k = turns_until (length logos) b.active_index i in
    let moved =
      ap (run (ticks k)) (as_bug b m v h rotating)
      ∙ ticks-bug k logos b.props.rotation b.active_index h index
      ∙ ap (bug logos b.props.rotation) (turns-reach (length logos) b.active_index i index l) in
    (
      k,
      (
        mod-lt (i + length logos - b.active_index) (several (length logos) h),
        ap (λ (s : Bug). get_elem? s.props.logos s.active_index) moved,
      ),
    )
  where
    several : (n : ℕ) → 1 < n → 0 < n
    several n g = omega arith
