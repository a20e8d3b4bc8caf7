-- ===== src/Overlay/Elements.antt =====
-- The elements tab of the control panel (web/src/features/overlay/controls/ElementsTab.tsx): the
-- draft of the elements' settings, and the request delayed by 400 ms.
-- The settings of an element are an object; what its fields hold is left open.
pub mod Edits
mod Examples
use Prim.Native.String.{String}
use court_command.Prelude.{
  ℕ, zero, suc, ◌+◌, ◌-◌, ◌*◌, ◌/◌, ◌%◌, ◌^◌, ◌≤◌, ◌<◌, min, max, ◌≡◌, refl, sym, ap, ◌∙◌, subst,
  ◌≢◌, ◌↔◌, ◌⊎◌, inl, inr, Bool, true, false, not, ◌&&◌, ◌||◌, false≢true, Option, none, some, List,
  [], ◌∷◌, ◌++◌, map, arith, ltb, leb, ◌==◌, if◌then◌else◌, ltb→lt, lt→ltb, leb→le, ==_iff, ==_refl,
  Bool-cases, Option-cases, or_else, if_both, length, get_elem?, filter, any, all, length-append,
  length-filter-le, filter-filter, any-filter, filter-eq_of_length, filter-all, filter-true,
  filter-false, filter-append, All, In, Ordered, All-filter, Ordered-filter, In-filter,
  In-of_filter, In-map, All-map, All-In, All-append, Ordered-map,
}
use court_command.Prelude.Maps.{TextMap, set_key, get_key}
use court_command.Overlay.Debounce.{Timers, no_timers, rearm, drop_timer, expired}

-- The elements by their keys.
abbrev pub ElementsConfig : Type 0 → Type 0
ElementsConfig V = TextMap (TextMap V)

module _ {V : Type 0} where
  -- `{ ...old, ...patch }`.
  unfoldable pub assign : TextMap V → TextMap V → TextMap V
  unfolding set_key
  assign [] old = old
  assign ((k, v) ∷ patch) old = assign patch (set_key k v old)

  -- `{ ...draft, [key]: { ...draft[key], ...patchValue } }`.
  unfoldable pub patched : String → TextMap V → ElementsConfig V → ElementsConfig V
  unfolding assign set_key get_key
  patched key patch draft = set_key key (assign patch (or_else (get_key key draft) [])) draft

pub record Tab (V : Type 0) : Type 0 where
  pub draft : Option (ElementsConfig V)
  pub pending : Option (ElementsConfig V)
  pub timers : Timers
  pub mounted : Bool
  pub sent : List (ElementsConfig V)

-- `config_came` brings the elements of a config that came in, if it has any.
pub data Event (V : Type 0) : Type 0 where
  edited : (key : String) (patch : TextMap V) → Event V
  config_came : Option (ElementsConfig V) → Event V
  fired unmounted : Event V

module _ {V : Type 0} where
  unfoldable pub start : Tab V
  unfolding no_timers
  start = record { draft = none; pending = none; timers = no_timers; mounted = true; sent = [] }

  unfoldable pub commit : ElementsConfig V → Tab V → Tab V
  unfolding rearm
  commit next t = record t { pending = some next; timers = rearm t.timers }

  unfoldable pub patch_draft : Option (ElementsConfig V) → String → TextMap V → Tab V → Tab V
  unfolding patched commit
  patch_draft none key patch t = t
  patch_draft (some draft) key patch t =
      let next = patched key patch draft in commit next (record t { draft = some next })

  -- The callback of the timer.
  unfoldable pub flush : Option (ElementsConfig V) → Tab V → Tab V
  flush none t = t
  flush (some pending) t = record t { sent = t.sent ++ pending ∷ [] }

  unfoldable pub fire : List ℕ → Tab V → Tab V
  unfolding flush expired
  fire [] t = t
  fire (id ∷ ts) t = flush t.pending (record t { timers = expired t.timers })

  unfoldable pub hydrate : Option (ElementsConfig V) → Tab V → Tab V
  hydrate none t = t
  hydrate (some elements) t = record t { draft = some elements }

  unfoldable pub step : Event V → Tab V → Tab V
  unfolding patch_draft hydrate fire drop_timer
  step (edited key patch) t = if t.mounted then patch_draft t.draft key patch t else t
  step (config_came elements) t = if t.mounted then hydrate elements t else t
  step fired t = fire t.timers.timeouts t
  step unmounted t = record t { mounted = false; timers = drop_timer t.timers }

  unfoldable pub run : List (Event V) → Tab V → Tab V
  unfolding step
  run [] t = t
  run (e ∷ es) t = run es (step e t)
