-- ===== src/Overlay/Tv/Cycle.antt =====
-- What a rotation that runs (web/src/features/overlay/tv/useSlideRotation.ts) shows, and when; and that
-- `next` and `prev` undo one another.
use native.Mathlib.Nat.{suc-mul, mod-lt, mod-eq_of_lt, mod_self, mod-add-mod, add-mod_right}
use court_command.Prelude.Turns.{turns_until, turns-reach}
use court_command.Prelude.{
  ℕ, zero, suc, ◌+◌, ◌-◌, ◌*◌, ◌%◌, ◌<◌, ◌≡◌, refl, sym, ap, ◌∙◌, inl, inr, Bool, true, false, some,
  List, [], ◌∷◌, arith, leb, ◌==◌, if◌then◌else◌, ==_iff, Bool-cases,
}
use court_command.Overlay.Tv.{
  Options, Number, Rotation, Event, safe_interval, clamp_index, schedule_next, mounted, rendered,
  fired, next_index, prev_index, step, steps, timer_fires, next, prev,
}
use court_command.Overlay.Tv.Bounds.{is_slide, clamp_index-is_slide}

pub fires : ℕ → List Event
fires zero = []
fires (suc k) = timer_fires ∷ fires k

-- The rotation that shows a slide from a moment on.
abbrev pub running : Options → ℕ → ℕ → Rotation
running o index now = record {
  options = o;
  index = index;
  timer = some record { fires_at = now + safe_interval o; count = o.count };
  captured = o;
  now = now;
}

suc-wraps : (count index : ℕ) → index + 1 ≡ count → (index + 1) % count ≡ 0
suc-wraps count index e = ap (λ n. (index + 1) % n) (sym e) ∙ mod_self (index + 1)

below_suc : (count index : ℕ) → index < count → (index + 1 == count) ≡ false → index + 1 < count
below_suc count index l e = ground arith

suc-stays :
    (count index : ℕ)
    → index < count
    → (index + 1 == count) ≡ false
    → (index + 1) % count ≡ index + 1
suc-stays count index l e = mod-eq_of_lt (below_suc count index l e)

not_first : (count index : ℕ) → 1 < count → index + 1 ≡ count → (index == 0) ≡ false
not_first count index h e = ground arith

not_suc : (index : ℕ) → (index == index + 1) ≡ false
not_suc index = ground arith

-- The following slide is another one.
pub next-moves :
    (count index : ℕ) → 1 < count → index < count → (index == (index + 1) % count) ≡ false
next-moves count index h l = elim (Bool-cases (index + 1 == count)) [
  | inl e ↦
      let c = (==_iff (index + 1) count).0 e in
      rw (suc-wraps count index c) (not_first count index h c)
  | inr e ↦ rw (suc-stays count index l e) (not_suc index)
]

not_one : (count : ℕ) → 1 < count → leb count 1 ≡ false
not_one count h = ground arith

runs :
    (o : Options)
    → o.paused ≡ false
    → 1 < o.count
    → (now : ℕ)
    → schedule_next o now ≡ some record { fires_at = now + safe_interval o; count = o.count }
unfolding schedule_next
runs o p h now = rw (p, not_one o.count h) refl

same_both : {A : Type 0} (b : Bool) (x : A) → (if b then x else x) ≡ x
same_both true x = refl
same_both false x = refl

fire-running :
    (o : Options) (index now : ℕ)
    → o.paused ≡ false
    → 1 < o.count
    → index < o.count
    → step timer_fires (running o index now)
      ≡ running o ((index + 1) % o.count) (now + safe_interval o)
unfolding step fired rendered
fire-running o index now p h l =
    rw (next-moves o.count index h l, runs o p h (now + safe_interval o)) refl

running_eq : (o : Options) {i j n m : ℕ} → i ≡ j → n ≡ m → running o i n ≡ running o j m
running_eq o {j = j} {n = n} e f = ap (λ x. running o x n) e ∙ ap (running o j) f

add_zero : (n : ℕ) → n ≡ n + 0
add_zero n = omega arith

add_suc : (n k : ℕ) → n + 1 + k ≡ n + suc k
add_suc n k = omega arith

add_zero_times : (n t : ℕ) → n ≡ n + 0 * t
add_zero_times n t = omega arith

add_suc_times : (n k t : ℕ) → n + t + k * t ≡ n + suc k * t
add_suc_times n k t = omega (arith, suc-mul k t)

several : (count : ℕ) → 1 < count → 0 < count
several count h = omega arith

fires-running :
    (o : Options) (k index now : ℕ)
    → o.paused ≡ false
    → 1 < o.count
    → index < o.count
    → steps (fires k) (running o index now)
      ≡ running o ((index + k) % o.count) (now + k * safe_interval o)
unfolding steps fires
fires-running o zero index now p h l =
    running_eq o (sym (mod-eq_of_lt l) ∙ ap (λ i. i % o.count) (add_zero index))
      (add_zero_times now (safe_interval o))
fires-running o (suc k) index now p h l =
    ap (steps (fires k)) (fire-running o index now p h l)
    ∙ fires-running o k ((index + 1) % o.count) (now + safe_interval o) p h
        (mod-lt (index + 1) (several o.count h))
    ∙ running_eq o (mod-add-mod (index + 1) o.count k ∙ ap (λ i. i % o.count) (add_suc index k))
        (add_suc_times now k (safe_interval o))

mounted-running :
    (o : Options) (start : Number) (now : ℕ)
    → o.paused ≡ false
    → 1 < o.count
    → mounted o start now ≡ running o (clamp_index start o.count) now
unfolding mounted
mounted-running o start now p h = rw (runs o p h now) refl

is_slide-lt : (count index : ℕ) → 1 < count → is_slide count index ≡ true → index < count
is_slide-lt count index h e = ground arith

-- A rotation that is not paused and has several slides has, after any number of its timer's firings
-- from its mount on, moved by that many slides, around the end, and taken that many intervals; and it
-- goes on, with its timer armed for one interval more.
pub rotation_cycles :
    (o : Options) (start : Number) (now k : ℕ)
    → o.paused ≡ false
    → 1 < o.count
    → steps (fires k) (mounted o start now)
      ≡ running o ((clamp_index start o.count + k) % o.count) (now + k * safe_interval o)
rotation_cycles o start now k p h =
    ap (steps (fires k)) (mounted-running o start now p h)
    ∙ fires-running o k (clamp_index start o.count) now p h
        (is_slide-lt o.count (clamp_index start o.count) h (clamp_index-is_slide start o.count))

-- Such a rotation shows every slide, after fewer firings than there are slides.
pub every_slide_shown :
    (o : Options) (start : Number) (now slide : ℕ)
    → o.paused ≡ false
    → 1 < o.count
    → slide < o.count
    → (k : ℕ) × ((k < o.count)
        × (((steps (fires k) (mounted o start now)).index ≡ slide)
            × ((steps (fires k) (mounted o start now)).now ≡ now + k * safe_interval o)))
every_slide_shown o start now slide p h l =
    let index = clamp_index start o.count in
    let k = turns_until o.count index slide in
    let e = rotation_cycles o start now k p h in
    (
      k,
      (
        mod-lt (slide + o.count - index) (several o.count h),
        (
          ap Rotation.index e
              ∙ turns-reach o.count index slide
                  (is_slide-lt o.count index h (clamp_index-is_slide start o.count)) l,
          ap Rotation.now e,
        ),
      ),
    )

not_empty : (count index : ℕ) → index < count → (count == 0) ≡ false
not_empty count index l = ground arith

once_around : (count index : ℕ) → index < count → (index + count) % count ≡ index
once_around count index l = add-mod_right index count ∙ mod-eq_of_lt l

back : (m count index : ℕ) → index < count → m + count - 1 ≡ m + (count - 1)
back m count index l = omega arith

forth_back : (count index : ℕ) → index < count → index + 1 + (count - 1) ≡ index + count
forth_back count index l = omega arith

back_forth : (count index : ℕ) → index < count → index + count - 1 + 1 ≡ index + count
back_forth count index l = omega arith

prev_index-next_index :
    (count index : ℕ) → index < count → prev_index count (next_index count index) ≡ index
prev_index-next_index count index l = rw (not_empty count index l) (
    ap (λ n. n % count) (back ((index + 1) % count) count index l)
    ∙ mod-add-mod (index + 1) count (count - 1)
    ∙ ap (λ n. n % count) (forth_back count index l)
    ∙ once_around count index l)

next_index-prev_index :
    (count index : ℕ) → index < count → next_index count (prev_index count index) ≡ index
next_index-prev_index count index l = rw (not_empty count index l) (
    mod-add-mod (index + count - 1) count 1
    ∙ ap (λ n. n % count) (back_forth count index l)
    ∙ once_around count index l)

-- On a slide there is, `prev` after `next` and `next` after `prev` come back to it.
pub next_prev :
    (s : Rotation)
    → s.index < s.options.count
    → ((steps (next ∷ prev ∷ []) s).index ≡ s.index)
      × ((steps (prev ∷ next ∷ []) s).index ≡ s.index)
unfolding steps step rendered
next_prev s l = (
  prev_index-next_index s.options.count s.index l,
  next_index-prev_index s.options.count s.index l,
)
