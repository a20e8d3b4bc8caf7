-- ===== src/Overlay/Triggers.antt =====
-- The queue of one-shot overlay triggers (web/src/features/overlay/useTriggerQueue.ts, and the
-- trigger types of web/src/features/overlay/types.ts).
-- The hook's state, its session storage and its sweep intervals are one record; a call of the hook's
-- functions, a tick of an interval and a change of the court are events. Ids and the clock come with
-- the events. What JSON.parse makes of the stored text is a value of `Stored`.
pub mod Storage
pub mod Sweep
pub mod Order
mod Examples
use Prim.Native.String.{String}
use text.Mathlib.Text.{◌==◌ as str_eq}
use court_command.Prelude.{
  ℕ, ◌+◌, Bool, true, false, not, ◌&&◌, ◌||◌, Option, none, some, List, [], ◌∷◌, filter, any,
  length, ltb, ◌==◌, if◌then◌else◌,
}

pub data TriggerKind : Type 0 where
  player_card team_card match_result custom_text : TriggerKind

pub data TriggerDismissMode : Type 0 where
  manual : TriggerDismissMode
  auto : (duration_ms : ℕ) → TriggerDismissMode

-- The payload is carried and never read by the queue: a list of named texts.
pub record OverlayTrigger : Type 0 where
  pub id : String
  pub kind : TriggerKind
  pub started_at : ℕ
  pub dismiss : TriggerDismissMode
  pub payload : Option (List (String × String))

pub record TriggerInput : Type 0 where
  pub kind : TriggerKind
  pub dismiss : TriggerDismissMode
  pub payload : Option (List (String × String))

abbrev pub kind_eq : TriggerKind → TriggerKind → Bool
kind_eq player_card player_card = true
kind_eq team_card team_card = true
kind_eq match_result match_result = true
kind_eq custom_text custom_text = true
kind_eq _ _ = false

-- `STORAGE_KEY`, and `${STORAGE_KEY}:${courtID}`.
pub data StorageKey : Type 0 where
  bare : StorageKey
  of_court : ℕ → StorageKey

abbrev pub storage_key : Option ℕ → StorageKey
storage_key none = bare
storage_key (some court) = of_court court

abbrev pub key_eq : StorageKey → StorageKey → Bool
key_eq bare bare = true
key_eq (of_court a) (of_court b) = a == b
key_eq _ _ = false

-- One element of a stored array: a falsy value or a primitive, or an object that is a trigger. Other
-- objects are not modelled; the source keeps those whose `dismiss.kind` is not 'auto'.
pub data Entry : Type 0 where
  other : Entry
  object : OverlayTrigger → Entry

-- What stands under a key: nothing (or an empty text), a text that JSON.parse refuses, a value that
-- is no array, an array.
pub data Stored : Type 0 where
  absent : Stored
  malformed : Stored
  not_array : Stored
  array : List Entry → Stored

-- JSON.stringify of a queue, as JSON.parse reads it back.
abbrev pub entries : List OverlayTrigger → List Entry
entries [] = []
entries (t ∷ ts) = object t ∷ entries ts

abbrev pub is_auto : TriggerDismissMode → Bool
is_auto manual = false
is_auto (auto _) = true

-- `now - startedAt < durationMs` over the integers.
abbrev pub mode_alive : ℕ → ℕ → TriggerDismissMode → Bool
mode_alive now started_at manual = true
mode_alive now started_at (auto duration_ms) = ltb now (started_at + duration_ms)

pub alive : ℕ → OverlayTrigger → Bool
alive now t = mode_alive now t.started_at t.dismiss

-- The filter over a parsed array in `loadTriggers`.
abbrev pub keep_entries : ℕ → List Entry → List OverlayTrigger
keep_entries now [] = []
keep_entries now (other ∷ es) = keep_entries now es
keep_entries now (object t ∷ es) =
    let rest = keep_entries now es in if alive now t then t ∷ rest else rest

pub load_triggers : ℕ → Stored → List OverlayTrigger
load_triggers now absent = []
load_triggers now malformed = []
load_triggers now not_array = []
load_triggers now (array es) = keep_entries now es

-- The intervals that the browser holds, the ref to one of them, and the value of `needsSweep` at the
-- last run of the effect, if it has run.
pub record Sweeper : Type 0 where
  pub sweep_ref : Option ℕ
  pub intervals : List ℕ
  pub next_interval : ℕ
  pub swept_for : Option Bool

-- `writable` is false while setItem throws (quota exceeded, storage disabled).
pub record Queue : Type 0 where
  pub key : StorageKey
  pub triggers : List OverlayTrigger
  pub storage : StorageKey → Stored
  pub writable : Bool
  pub sweeper : Sweeper

abbrev pub needs_sweep : List OverlayTrigger → Bool
needs_sweep = any (λ t. is_auto t.dismiss)

-- The effect on [storageKey, triggers].
abbrev pub persist :
    Bool → StorageKey → List OverlayTrigger → (StorageKey → Stored) → StorageKey → Stored
persist writable key ts storage k =
    if writable && key_eq key k then array (entries ts) else storage k

-- clearInterval of the ref where it is set, and the ref cleared.
abbrev pub clear_sweep : Option ℕ → Sweeper → Sweeper
clear_sweep none s = s
clear_sweep (some id) s = record s {
  sweep_ref = none;
  intervals = filter (λ i. not (i == id)) s.intervals;
}

-- What the last run of the effect returned: a cleanup, where it had set an interval.
abbrev pub sweep_cleanup : Option Bool → Sweeper → Sweeper
sweep_cleanup (some true) s = clear_sweep s.sweep_ref s
sweep_cleanup _ s = s

abbrev pub sweep_body : Bool → Sweeper → Sweeper
sweep_body false s = clear_sweep s.sweep_ref s
sweep_body true s = record s {
  sweep_ref = some s.next_interval;
  intervals = s.next_interval ∷ s.intervals;
  next_interval = s.next_interval + 1;
}

abbrev pub same_dependency : Option Bool → Bool → Bool
same_dependency none needs = false
same_dependency (some true) needs = needs
same_dependency (some false) needs = not needs

-- The effect on [needsSweep], after a render in which it has this value.
pub sweep_effect : Bool → Sweeper → Sweeper
sweep_effect needs s =
    if same_dependency s.swept_for needs
    then s
    else record (sweep_body needs (sweep_cleanup s.swept_for s)) { swept_for = some needs }

-- The effects that run after a render with a new key or a new array of triggers.
pub settle : StorageKey → List OverlayTrigger → Queue → Queue
unfolding sweep_effect
settle key ts q = record q {
  key = key;
  triggers = ts;
  storage = persist q.writable key ts q.storage;
  sweeper = sweep_effect (needs_sweep ts) q.sweeper;
}

pub data Event : Type 0 where
  fire : (id : String) → (now : ℕ) → TriggerInput → Event
  dismiss : (id : String) → Event
  dismiss_all : Option TriggerKind → Event
  tick : (interval now : ℕ) → Event
  change_court : Option ℕ → Event
  storage_full : Bool → Event

abbrev pub new_trigger : String → ℕ → TriggerInput → OverlayTrigger
new_trigger id now input = record {
  id = id;
  kind = input.kind;
  started_at = now;
  dismiss = input.dismiss;
  payload = input.payload;
}

-- The updater of the sweep: the same array where nothing expired.
pub sweep : ℕ → List OverlayTrigger → List OverlayTrigger
sweep now prev =
    let next = filter (alive now) prev in if length next == length prev then prev else next

abbrev pub keep_other_kinds : Option TriggerKind → List OverlayTrigger → List OverlayTrigger
keep_other_kinds none ts = []
keep_other_kinds (some kind) ts = filter (λ t. not (kind_eq t.kind kind)) ts

-- A tick renders anew only where the array is a new one, and comes only from an interval that the
-- browser holds; the effects of a change of the court run only where the key differs.
pub step : Queue → Event → Queue
unfolding settle
step q (fire id now input) = settle q.key (new_trigger id now input ∷ q.triggers) q
step q (dismiss id) = settle q.key (filter (λ t. not (str_eq t.id id)) q.triggers) q
step q (dismiss_all kind) = settle q.key (keep_other_kinds kind q.triggers) q
step q (tick interval now) =
    if not (any (λ i. i == interval) q.sweeper.intervals)
      || length (filter (alive now) q.triggers) == length q.triggers
    then q
    else settle q.key (sweep now q.triggers) q
step q (change_court court) =
    if key_eq (storage_key court) q.key then q else settle (storage_key court) q.triggers q
step q (storage_full full) = record q { writable = not full }

-- Before the first effects.
abbrev pub no_sweeper : Sweeper
no_sweeper = record { sweep_ref = none; intervals = []; next_interval = 0; swept_for = none }

-- The first render and its effects.
pub mount : Option ℕ → ℕ → Bool → (StorageKey → Stored) → Queue
unfolding settle load_triggers
mount court now writable storage =
    let key = storage_key court in
    let ts = load_triggers now (storage key) in
    settle key ts (record {
      key = key;
      triggers = ts;
      storage = storage;
      writable = writable;
      sweeper = no_sweeper;
    })

-- What the cleanup of the effect leaves when the component unmounts.
pub after_unmount : Queue → Queue
after_unmount q = record q { sweeper = sweep_cleanup q.sweeper.swept_for q.sweeper }

pub run : Queue → List Event → Queue
run q [] = q
run q (e ∷ es) = run (step q e) es
