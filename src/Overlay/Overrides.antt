-- ===== src/Overlay/Overrides.antt =====
-- The overrides tab (web/src/features/overlay/controls/OverridesTab.tsx): the local draft, the
-- commit delayed by 400 ms, and the refreshes from the server.
-- A draft is the list of its entries in the order of their insertion. A number typed is natural.
-- The updater of setDraft, which schedules the commit, runs with its call.
pub mod Commit
pub mod Burst
pub mod Refresh
mod Examples
use Prim.Native.String.{String}
use court_command.Prelude.{
  ℕ, zero, suc, ◌+◌, ◌-◌, ◌*◌, ◌/◌, ◌%◌, ◌^◌, ◌≤◌, ◌<◌, min, max, ◌≡◌, refl, sym, ap, ◌∙◌, subst,
  ◌≢◌, ◌↔◌, ◌⊎◌, inl, inr, Bool, true, false, not, ◌&&◌, ◌||◌, false≢true, Option, none, some, List,
  [], ◌∷◌, ◌++◌, map, arith, ltb, leb, ◌==◌, if◌then◌else◌, ltb→lt, lt→ltb, leb→le, ==_iff, ==_refl,
  Bool-cases, Option-cases, or_else, if_both, length, get_elem?, filter, any, all, length-append,
  length-filter-le, filter-filter, any-filter, filter-eq_of_length, filter-all, filter-true,
  filter-false, filter-append, All, In, Ordered, All-filter, Ordered-filter, In-filter,
  In-of_filter, In-map, All-map, All-In, All-append, Ordered-map,
}
use court_command.Overlay.Contract.{OverrideKey, key_eq}

pub data Value : Type 0 where
  text : String → Value
  number : ℕ → Value

abbrev pub DataOverrides : Type 0
DataOverrides = List (OverrideKey × Value)

-- `next[key] = value`.
pub put : OverrideKey → Value → DataOverrides → DataOverrides
put key value [] = (key, value) ∷ []
put key value ((k, v) ∷ rest) =
    let deeper = put key value rest in if key_eq k key then (k, value) ∷ rest else (k, v) ∷ deeper

-- `delete next[key]`.
abbrev pub delete : OverrideKey → DataOverrides → DataOverrides
delete key = filter (λ e. not (key_eq e.0 key))

-- `draft[key]`.
pub get : OverrideKey → DataOverrides → Option Value
get key [] = none
get key ((k, v) ∷ rest) = if key_eq k key then some v else get key rest

abbrev pub edited : OverrideKey → Option Value → DataOverrides → DataOverrides
edited key none prev = delete key prev
edited key (some value) prev = put key value prev

pub data Request : Type 0 where
  update : DataOverrides → Request
  clear : Request

-- `timeouts` are those that the browser holds; `mounted` is false after the unmount.
pub record Tab : Type 0 where
  pub draft : DataOverrides
  pub pending : Option DataOverrides
  pub flush_timer : Option ℕ
  pub timeouts : List ℕ
  pub next_id : ℕ
  pub confirm_clear_open : Bool
  pub clear_pending : Bool
  pub mounted : Bool
  pub sent : List Request
  pub failures : List String
  pub cleared : ℕ

-- `clearTimeout` of the handle in flushTimer, if there is one.
abbrev pub clear_flush : Option ℕ → List ℕ → List ℕ
clear_flush none ts = ts
clear_flush (some id) ts = filter (λ t. not (t == id)) ts

pub schedule_commit : DataOverrides → Tab → Tab
schedule_commit next t = record t {
  pending = some next;
  flush_timer = some t.next_id;
  timeouts = t.next_id ∷ clear_flush t.flush_timer t.timeouts;
  next_id = t.next_id + 1;
}

pub set_override : OverrideKey → Option Value → Tab → Tab
unfolding schedule_commit
set_override key value t =
    let next = edited key value t.draft in schedule_commit next (record t { draft = next })

-- The callback of the timeout.
pub flush : Tab → Tab
flush t = elim (t.pending) [
  | none ↦ record t { pending = none; flush_timer = none }
  | some to_send ↦ record t {
    pending = none;
    flush_timer = none;
    sent = t.sent ++ update to_send ∷ [];
  }
]

pub handle_clear_all : Tab → Tab
handle_clear_all t = record t {
  pending = none;
  flush_timer = none;
  timeouts = clear_flush t.flush_timer t.timeouts;
  clear_pending = true;
  sent = t.sent ++ clear ∷ [];
}

-- The effect on [config]: a refresh reaches the draft only while no commit waits.
pub refresh : Option DataOverrides → Tab → Tab
refresh none t = t
refresh (some server) t = elim (t.pending) [ none ↦ record t { draft = server } | some waiting ↦ t ]

-- `config` brings the data_overrides of a config that came in, if there is one; `fired` is the
-- timeout with the given id; the answers to the requests come at any time.
pub data Event : Type 0 where
  edit : OverrideKey → Option Value → Event
  config : Option DataOverrides → Event
  fired : (id : ℕ) → Event
  open_confirm close_confirm confirm_clear : Event
  update_failed : (message : String) → Event
  clear_succeeded : Event
  clear_failed : (message : String) → Event
  unmount : Event

abbrev pub holds : ℕ → List ℕ → Bool
holds id = any (λ t. t == id)

-- A button that is not drawn or is disabled takes no click; the dialog closes also while the request
-- is on its way (the Escape key). After the unmount the component takes no event; only a timeout may still fire. The answer to a
-- mutation of an unmounted component calls none of its callbacks.
pub step : Tab → Event → Tab
unfolding set_override flush handle_clear_all refresh
step t (edit key value) = if t.mounted then set_override key value t else t
step t (config server) = if t.mounted then refresh server t else t
step t (fired id) =
    if holds id t.timeouts
    then flush (record t { timeouts = filter (λ i. not (i == id)) t.timeouts })
    else t
step t open_confirm =
    if t.mounted && (not (length t.draft == 0) && not t.clear_pending)
    then record t { confirm_clear_open = true }
    else t
step t close_confirm = if t.mounted then record t { confirm_clear_open = false } else t
step t confirm_clear =
    if t.mounted && (t.confirm_clear_open && not t.clear_pending) then handle_clear_all t else t
step t (update_failed message) =
    if t.mounted then record t { failures = t.failures ++ message ∷ [] } else t
step t clear_succeeded =
    if t.mounted
    then record t {
      draft = [];
      clear_pending = false;
      cleared = t.cleared + 1;
      confirm_clear_open = false;
    }
    else t
step t (clear_failed message) =
    if t.mounted
    then record t { clear_pending = false; failures = t.failures ++ message ∷ [] }
    else t
step t unmount =
    if t.mounted
    then record t { mounted = false; timeouts = clear_flush t.flush_timer t.timeouts }
    else t

pub run : Tab → List Event → Tab
run t [] = t
run t (e ∷ es) = run (step t e) es

-- The first render, with the draft of the config if it is there.
pub mount : Option DataOverrides → Tab
mount server = record {
  draft = or_else server [];
  pending = none;
  flush_timer = none;
  timeouts = [];
  next_id = 0;
  confirm_clear_open = false;
  clear_pending = false;
  mounted = true;
  sent = [];
  failures = [];
  cleared = 0;
}
