-- ===== src/Overlay/Theme.antt =====
-- The theme tab of the control panel (web/src/features/overlay/controls/ThemeTab.tsx): the colour
-- overrides, which are sent after a delay, and the choice of a theme, which is sent at once.
pub mod Colors
mod Examples
use Prim.Native.String.{String}
use court_command.Prelude.{
  ℕ, zero, suc, ◌+◌, ◌-◌, ◌*◌, ◌/◌, ◌%◌, ◌^◌, ◌≤◌, ◌<◌, min, max, ◌≡◌, refl, sym, ap, ◌∙◌, subst,
  ◌≢◌, ◌↔◌, ◌⊎◌, inl, inr, Bool, true, false, not, ◌&&◌, ◌||◌, false≢true, Option, none, some, List,
  [], ◌∷◌, ◌++◌, map, arith, ltb, leb, ◌==◌, if◌then◌else◌, ltb→lt, lt→ltb, leb→le, ==_iff, ==_refl,
  Bool-cases, Option-cases, or_else, if_both, length, get_elem?, filter, any, all, length-append,
  length-filter-le, filter-filter, any-filter, filter-eq_of_length, filter-all, filter-true,
  filter-false, filter-append, All, In, Ordered, All-filter, Ordered-filter, In-filter,
  In-of_filter, In-map, All-map, All-In, All-append, Ordered-map,
}
use court_command.Prelude.Text.{is_empty}
use court_command.Prelude.Maps.{TextMap, set_key, delete_key}
use court_command.Overlay.Debounce.{Timers, no_timers, rearm, cancel, drop_timer, expired}

abbrev pub ColorOverrides : Type 0
ColorOverrides = TextMap String

pub record Request : Type 0 where
  pub theme_id : String
  pub color_overrides : ColorOverrides

-- `theme` is the theme_id of the config, if there is a config.
pub record Tab : Type 0 where
  pub theme : Option String
  pub overrides : ColorOverrides
  pub pending_theme : Option String
  pub pending_overrides : Option ColorOverrides
  pub timers : Timers
  pub mounted : Bool
  pub sent : List Request

unfoldable pub start : Tab
unfolding no_timers
start = record {
  theme = none;
  overrides = [];
  pending_theme = none;
  pending_overrides = none;
  timers = no_timers;
  mounted = true;
  sent = [];
}

-- The effect on the config's overrides, which it may not have.
unfoldable pub hydrate : Option ColorOverrides → Tab → Tab
hydrate none t = t
hydrate (some overrides) t = record t { overrides = overrides }

unfoldable pub commit_with_debounce : String → ColorOverrides → Tab → Tab
unfolding rearm
commit_with_debounce theme overrides t = record t {
  pending_theme = some theme;
  pending_overrides = some overrides;
  timers = rearm t.timers;
}

unfoldable pub mutate : String → ColorOverrides → Tab → Tab
mutate theme overrides t = record t {
  sent = t.sent ++ record { theme_id = theme; color_overrides = overrides } ∷ [];
}

-- `a ?? b` where both may be missing.
unfoldable pub first_of : Option String → Option String → Option String
first_of none o = o
first_of (some s) o = some s

-- `if (!themeID) return`, and the request.
unfoldable pub mutate_given : Option String → ColorOverrides → Tab → Tab
unfolding mutate
mutate_given none overrides t = t
mutate_given (some theme) overrides t = if is_empty theme then t else mutate theme overrides t

-- The fallbacks are those of the render that set the timer, which has set both refs before.
unfoldable pub flush : Tab → Tab
unfolding mutate_given first_of
flush t =
    mutate_given (first_of t.pending_theme t.theme) (or_else t.pending_overrides t.overrides) t

unfoldable pub fire : List ℕ → Tab → Tab
unfolding flush expired
fire [] t = t
fire (id ∷ ids) t = flush (record t { timers = expired t.timers })

unfoldable pub select_theme : String → Tab → Tab
unfolding mutate cancel
select_theme theme t =
    mutate theme t.overrides (record t { pending_theme = some theme; timers = cancel t.timers })

-- `if (!value) delete next[key]; else next[key] = value`.
unfoldable pub put_color : String → Option String → ColorOverrides → ColorOverrides
unfolding set_key delete_key
put_color key none overrides = delete_key key overrides
put_color key (some value) overrides =
    if is_empty value then delete_key key overrides else set_key key value overrides

-- `config?.theme_id ?? 'classic'`.
unfoldable pub theme_or_classic : Option String → String
theme_or_classic theme = or_else theme "classic"

unfoldable pub set_override : String → Option String → Tab → Tab
unfolding put_color commit_with_debounce theme_or_classic
set_override key value t =
    let next = put_color key value t.overrides in
    commit_with_debounce (theme_or_classic t.theme) next (record t { overrides = next })

unfoldable pub reset_overrides : Tab → Tab
unfolding mutate cancel theme_or_classic
reset_overrides t = mutate (theme_or_classic t.theme) [] (record t {
  overrides = [];
  pending_theme = some (theme_or_classic t.theme);
  pending_overrides = some [];
  timers = cancel t.timers;
})

-- `config_came` brings the theme of a config that came in, and its overrides, if it has any that are
-- not those it had.
pub data Event : Type 0 where
  config_came : (theme : String) → Option ColorOverrides → Event
  theme_selected : String → Event
  color_edited : (key : String) → Option String → Event
  reset_clicked fired unmounted : Event

-- What is rendered takes the events; only the timer needs no rendering.
unfoldable pub step : Event → Tab → Tab
unfolding hydrate select_theme set_override reset_overrides fire drop_timer
step (config_came theme overrides) t =
    if t.mounted then hydrate overrides (record t { theme = some theme }) else t
step (theme_selected theme) t = if t.mounted then select_theme theme t else t
step (color_edited key value) t = if t.mounted then set_override key value t else t
step reset_clicked t = if t.mounted then reset_overrides t else t
step fired t = fire t.timers.timeouts t
step unmounted t = record t { mounted = false; timers = drop_timer t.timers }

unfoldable pub run : List Event → Tab → Tab
unfolding step
run [] t = t
run (e ∷ es) t = run es (step e t)
