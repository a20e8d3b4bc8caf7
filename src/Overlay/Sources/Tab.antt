-- ===== src/Overlay/Sources/Tab.antt =====
-- The source tab of the control panel (web/src/features/overlay/controls/SourceTab.tsx): the mode,
-- its changes, and the match of the court that is shown.
pub mod Modes
pub mod Active
use Prim.Native.String.{String}
use court_command.Prelude.{
  ℕ, zero, suc, ◌+◌, ◌-◌, ◌*◌, ◌/◌, ◌%◌, ◌^◌, ◌≤◌, ◌<◌, min, max, ◌≡◌, refl, sym, ap, ◌∙◌, subst,
  ◌≢◌, ◌↔◌, ◌⊎◌, inl, inr, Bool, true, false, not, ◌&&◌, ◌||◌, false≢true, Option, none, some, List,
  [], ◌∷◌, ◌++◌, map, arith, ltb, leb, ◌==◌, if◌then◌else◌, ltb→lt, lt→ltb, leb→le, ==_iff, ==_refl,
  Bool-cases, Option-cases, or_else, if_both, length, get_elem?, filter, any, all, length-append,
  length-filter-le, filter-filter, any-filter, filter-eq_of_length, filter-all, filter-true,
  filter-false, filter-append, All, In, Ordered, All-filter, Ordered-filter, In-filter,
  In-of_filter, In-map, All-map, All-In, All-append, Ordered-map,
}
use court_command.Prelude.Integers.{ℤ}
use court_command.Scoring.Match.{Match, MatchStatus, scheduled, warmup, in_progress, paused}
use court_command.Overlay.Sources.{WireNumber, absent, plain, wrapped, SourceProfile}

pub data Mode : Type 0 where
  internal external : Mode

-- The tab's own version of what types.ts exports.
unfoldable pub normalize_profile_id : WireNumber → Option ℤ
normalize_profile_id absent = none
normalize_profile_id (plain v) = some v
normalize_profile_id (wrapped value valid) = if valid then some value else none

unfoldable pub mode_of : Option ℤ → Mode
mode_of none = internal
mode_of (some id) = external

unfoldable pub same_mode : Mode → Mode → Bool
same_mode internal internal = true
same_mode external external = true
same_mode _ _ = false

-- `profiles.find((p) => p.is_active)`.
unfoldable pub first_active : List SourceProfile → Option SourceProfile
first_active [] = none
first_active (p ∷ ps) = if p.is_active then some p else first_active ps

-- What a change comes to: nothing, the warning that there is no active profile, or a request with
-- the profile to bind.
pub data Change : Type 0 where
  unchanged warned : Change
  bind : Option ℤ → Change

unfoldable pub bind_first : Option SourceProfile → Change
bind_first none = warned
bind_first (some p) = bind (some p.id)

unfoldable pub change_to : Mode → List SourceProfile → Change
unfolding bind_first first_active
change_to internal profiles = bind none
change_to external profiles = bind_first (first_active profiles)

unfoldable pub handle_mode_change : Mode → WireNumber → List SourceProfile → Change
unfolding change_to same_mode mode_of normalize_profile_id
handle_mode_change next binding profiles =
    if same_mode next (mode_of (normalize_profile_id binding))
    then unchanged
    else change_to next profiles

-- The matches of the court that the tab lists, and the one that it shows.
unfoldable pub is_on_court : MatchStatus → Bool
is_on_court warmup = true
is_on_court in_progress = true
is_on_court paused = true
is_on_court _ = false

unfoldable pub is_scheduled : MatchStatus → Bool
is_scheduled scheduled = true
is_scheduled _ = false

abbrev pub take {ℓ} : {A : Type ℓ} → ℕ → List A → List A
take zero xs = []
take (suc n) [] = []
take (suc n) (x ∷ xs) = x ∷ take n xs

unfoldable pub match_options : List Match → List Match
unfolding is_on_court is_scheduled
match_options all = take 20 (filter (λ m. is_on_court m.status || is_scheduled m.status) all)

unfoldable pub find_on_court : List Match → Option Match
unfolding is_on_court
find_on_court [] = none
find_on_court (m ∷ ms) = if is_on_court m.status then some m else find_on_court ms

-- `options.find(...) ?? options[0]`.
unfoldable pub or_first : Option Match → List Match → Option Match
or_first (some m) ms = some m
or_first none [] = none
or_first none (m ∷ ms) = some m

unfoldable pub active_match : List Match → Option Match
unfolding match_options find_on_court or_first
active_match all = or_first (find_on_court (match_options all)) (match_options all)
