-- ===== src/Overlay/Sponsors.antt =====
-- The rotation of the sponsors' logos
-- (web/src/features/overlay/renderer/elements/SponsorBug.tsx), with the interval that the browser
-- holds. A handle of an interval is never zero, so a flag stands for the ref.
pub mod Rotation
mod Examples
use Prim.Native.String.{String}
use court_command.Prelude.{
  ℕ, zero, suc, ◌+◌, ◌-◌, ◌*◌, ◌/◌, ◌%◌, ◌^◌, ◌≤◌, ◌<◌, min, max, ◌≡◌, refl, sym, ap, ◌∙◌, subst,
  ◌≢◌, ◌↔◌, ◌⊎◌, inl, inr, Bool, true, false, not, ◌&&◌, ◌||◌, false≢true, Option, none, some, List,
  [], ◌∷◌, ◌++◌, map, arith, ltb, leb, ◌==◌, if◌then◌else◌, ltb→lt, lt→ltb, leb→le, ==_iff, ==_refl,
  Bool-cases, Option-cases, or_else, if_both, length, get_elem?, filter, any, all, length-append,
  length-filter-le, filter-filter, any-filter, filter-eq_of_length, filter-all, filter-true,
  filter-false, filter-append, All, In, Ordered, All-filter, Ordered-filter, In-filter,
  In-of_filter, In-map, All-map, All-In, All-append, Ordered-map,
}
use court_command.Prelude.Integers.{ℤ, pos, negsuc}

-- `config.logos && config.logos.length > 0 ? config.logos : data.sponsor_logos ?? []`.
unfoldable pub logos_of : Option (List String) → Option (List String) → List String
logos_of (some (x ∷ xs)) resolved = x ∷ xs
logos_of _ resolved = or_else resolved []

-- `Math.max(1000, (rotation_seconds ?? 8) * 1000)`, for whole seconds.
unfoldable pub rotation_ms : Option ℤ → ℕ
rotation_ms none = 8000
rotation_ms (some (pos n)) = max 1000 (n * 1000)
rotation_ms (some (negsuc n)) = 1000

-- What the first effect depends on, of the logos their number.
pub record Props : Type 0 where
  pub visible : Bool
  pub logos : List String
  pub rotation : ℕ

-- `interval` is the number of logos that the callback of the interval has, if one is set.
pub record Bug : Type 0 where
  pub props : Props
  pub active_index : ℕ
  pub interval : Option ℕ
  pub mounted : Bool

unfoldable pub interval_for : Props → Option ℕ
interval_for p = if not p.visible || ltb (length p.logos) 2 then none else some (length p.logos)

unfoldable pub same_flag : Bool → Bool → Bool
same_flag true b = b
same_flag false b = not b

unfoldable pub same_props : Props → Props → Bool
unfolding same_flag
same_props p q =
    same_flag p.visible q.visible && (length p.logos == length q.logos && p.rotation == q.rotation)

-- The first effect, with the cleanup of the one before it.
unfoldable pub rotate_effect : Props → Bug → Bug
unfolding interval_for same_props
rotate_effect p b =
    if same_props p b.props
    then record b { props = p }
    else record b { props = p; interval = interval_for p }

-- The second effect.
unfoldable pub clamp_effect : Bug → Bug
clamp_effect b =
    if leb (length b.props.logos) b.active_index && ltb 0 (length b.props.logos)
    then record b { active_index = 0 }
    else b

unfoldable pub start : Props → Bug
unfolding interval_for
start p = record { props = p; active_index = 0; interval = interval_for p; mounted = true }

unfoldable pub ticked : Option ℕ → Bug → Bug
unfolding clamp_effect
ticked none b = b
ticked (some n) b = clamp_effect (record b { active_index = (b.active_index + 1) % n })

pub data Event : Type 0 where
  render : Props → Event
  tick unmounted : Event

unfoldable pub step : Event → Bug → Bug
unfolding rotate_effect clamp_effect ticked
step (render p) b = if b.mounted then clamp_effect (rotate_effect p b) else b
step tick b = ticked b.interval b
step unmounted b = record b { interval = none; mounted = false }

unfoldable pub run : List Event → Bug → Bug
unfolding step
run [] b = b
run (e ∷ es) b = run es (step e b)

-- The logo that is drawn, if the element is.
unfoldable pub active_logo : Bug → Option String
active_logo b = get_elem? b.props.logos b.active_index
