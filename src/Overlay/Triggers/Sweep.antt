-- ===== src/Overlay/Triggers/Sweep.antt =====
-- The sweep of expired triggers (web/src/features/overlay/useTriggerQueue.ts).
use Prim.Native.String.{String}
use court_command.Prelude.{
  any, ap, ◌∙◌, ==_refl, ◌==◌, if_both, none, some, ℕ, ◌+◌, ◌≤◌, ◌≡◌, refl, Bool, true, false,
  Option, List, [], ◌∷◌, filter, filter-eq_of_length, In, In-filter, In-of_filter, ◌↔◌, arith, not,
  ◌≢◌,
}
use text.Mathlib.Text.{◌==◌ as str_eq}
use text.Mathlib.TextEquality.{eq_iff}
use court_command.Overlay.Triggers.{
  new_trigger, keep_other_kinds, Sweeper, clear_sweep, sweep_cleanup, sweep_effect, no_sweeper,
  after_unmount, settle, storage_key, load_triggers, OverlayTrigger, manual, auto, alive, Queue,
  needs_sweep, Event, fire, dismiss, dismiss_all, tick, change_court, storage_full, sweep, step,
  run, mount, Stored, StorageKey,
}

-- The browser holds one interval, which the ref names; or none.
abbrev pub Sweeps : Bool → Sweeper → Type 0
Sweeps true s = (id : ℕ) × ((s.sweep_ref ≡ some id) × (s.intervals ≡ id ∷ []))
Sweeps false s = (s.sweep_ref ≡ none) × (s.intervals ≡ [])

abbrev SweptFor : Bool → Sweeper → Type 0
SweptFor needs s = (s.swept_for ≡ some needs) × Sweeps needs s

abbrev pub Swept : Queue → Type 0
Swept q =
    (q.sweeper.swept_for ≡ some (needs_sweep q.triggers))
    × Sweeps (needs_sweep q.triggers) q.sweeper

remove_only : (id : ℕ) → filter (λ i. not (i == id)) (id ∷ []) ≡ []
remove_only id = ground (arith, ==_refl id)

clear-Sweeps : (s : Sweeper) → Sweeps true s → Sweeps false (clear_sweep s.sweep_ref s)
clear-Sweeps s (id, (r, i)) = rw r (refl, ap (filter (λ j. not (j == id))) i ∙ remove_only id)

effect-SweptFor :
    (before needs : Bool) (s : Sweeper) → SweptFor before s → SweptFor needs (sweep_effect needs s)
unfolding sweep_effect
effect-SweptFor true true s (f, k) = rw f (refl, k)
effect-SweptFor false false s (f, k) = rw f (refl, k)
effect-SweptFor true false s (f, (id, (r, i))) =
    rw (f, r) (refl, (refl, ap (filter (λ j. not (j == id))) i ∙ remove_only id))
effect-SweptFor false true s (f, (r, i)) =
    rw f (refl, (s.next_interval, (refl, ap (λ l. s.next_interval ∷ l) i)))

first-SweptFor : (needs : Bool) → SweptFor needs (sweep_effect needs no_sweeper)
unfolding sweep_effect
first-SweptFor true = (refl, (0, (refl, refl)))
first-SweptFor false = (refl, (refl, refl))

settle-Swept :
    (key : StorageKey) (ts : List OverlayTrigger) (q : Queue) → Swept q → Swept (settle key ts q)
unfolding settle
settle-Swept key ts q h = effect-SweptFor (needs_sweep q.triggers) (needs_sweep ts) q.sweeper h

step-Swept : (q : Queue) (e : Event) → Swept q → Swept (step q e)
unfolding step
step-Swept q (fire id now input) h = settle-Swept q.key (new_trigger id now input ∷ q.triggers) q h
step-Swept q (dismiss id) h = settle-Swept q.key (filter (λ t. not (str_eq t.id id)) q.triggers) q h
step-Swept q (dismiss_all kind) h = settle-Swept q.key (keep_other_kinds kind q.triggers) q h
step-Swept q (tick interval now) h =
    if_both {A = Queue} Swept _ h (settle-Swept q.key (sweep now q.triggers) q h)
step-Swept q (change_court court) h =
    if_both {A = Queue} Swept _ h (settle-Swept (storage_key court) q.triggers q h)
step-Swept q (storage_full full) h = h

run-Swept_from : (q : Queue) (es : List Event) → Swept q → Swept (run q es)
unfolding run
run-Swept_from q [] h = h
run-Swept_from q (e ∷ es) h = run-Swept_from (step q e) es (step-Swept q e h)

mount-Swept :
    (court : Option ℕ) (now : ℕ) (writable : Bool) (storage : StorageKey → Stored)
    → Swept (mount court now writable storage)
unfolding mount settle
mount-Swept court now writable storage =
    first-SweptFor (needs_sweep (load_triggers now (storage (storage_key court))))

cleanup-ends :
    (needs : Bool) (s : Sweeper) → SweptFor needs s → (sweep_cleanup s.swept_for s).intervals ≡ []
cleanup-ends true s (f, k) = ap (λ o. (sweep_cleanup o s).intervals) f ∙ (clear-Sweeps s k).1
cleanup-ends false s (f, k) = ap (λ o. (sweep_cleanup o s).intervals) f ∙ k.1

-- Whatever happens after the first render: while some trigger of the queue dismisses itself, the
-- browser holds exactly one sweep interval, the one that the hook's ref names; while none does, it
-- holds none and the ref is empty; and after an unmount no interval is left.
pub run-Swept :
    (court : Option ℕ) (now : ℕ) (writable : Bool) (storage : StorageKey → Stored) (es : List Event)
    → let q = run (mount court now writable storage) es in
      Sweeps (needs_sweep q.triggers) q.sweeper × ((after_unmount q).sweeper.intervals ≡ [])
unfolding after_unmount
run-Swept court now writable storage es =
    let q = run (mount court now writable storage) es in
    let h : Swept q = run-Swept_from _ es (mount-Swept court now writable storage) in
    (h.1, cleanup-ends (needs_sweep q.triggers) q.sweeper h)

pub sweep-eq-filter : (now : ℕ) (ts : List OverlayTrigger) → sweep now ts ≡ filter (alive now) ts
unfolding sweep
sweep-eq-filter now ts = ground (arith, filter-eq_of_length (alive now) ts)

-- The browser holds the interval.
abbrev pub is_held : Queue → ℕ → Bool
is_held q interval = any (λ i. i == interval) q.sweeper.intervals

-- A tick of an interval that the browser holds leaves exactly the triggers that are alive at its
-- time, although it keeps the old array where none expired.
pub tick-eq-filter :
    (q : Queue) (interval now : ℕ)
    → is_held q interval ≡ true
    → (step q (tick interval now)).triggers ≡ filter (alive now) q.triggers
unfolding step
tick-eq-filter q interval now h =
    ground (arith, sweep-eq-filter now q.triggers, filter-eq_of_length (alive now) q.triggers)

alive_auto :
    (now d : ℕ) (t : OverlayTrigger)
    → t.dismiss ≡ auto d
    → t.started_at + d ≤ now
    → alive now t ≡ false
unfolding alive
alive_auto now d t e h = ground arith

alive_manual : (now : ℕ) (t : OverlayTrigger) → t.dismiss ≡ manual → alive now t ≡ true
unfolding alive
alive_manual now t e = ground arith

-- After a tick of an interval that the browser holds, no trigger of the queue dismisses itself at or
-- before the time of the tick.
pub tick_expires :
    (q : Queue) (interval now d : ℕ) (t : OverlayTrigger)
    → is_held q interval ≡ true
    → t.dismiss ≡ auto d
    → t.started_at + d ≤ now
    → In t (step q (tick interval now)).triggers
    → ⊥
tick_expires q interval now d t h e late m =
    let (_, kept) =
      In-of_filter (alive now) t q.triggers (rw (tick-eq-filter q interval now h) at m) in
    cc (alive_auto now d t e late)

-- A trigger that is dismissed by hand alone stays through a tick of an interval that is held.
pub tick_keeps_manual :
    (q : Queue) (interval now : ℕ) (t : OverlayTrigger)
    → is_held q interval ≡ true
    → t.dismiss ≡ manual
    → In t q.triggers
    → In t (step q (tick interval now)).triggers
tick_keeps_manual q interval now t h e m =
    rw (tick-eq-filter q interval now h)
      (In-filter (alive now) t q.triggers m (alive_manual now t e))

str_ne : (a b : String) → a ≢ b → not (str_eq a b) ≡ true
str_ne a b h = ground (arith, eq_iff a b)

ne_of_str : (a b : String) → not (str_eq a b) ≡ true → a ≢ b
ne_of_str a b h = ground (arith, eq_iff a b)

-- Dismissing an id removes the triggers of that id and no other.
pub dismiss_iff :
    (q : Queue) (id : String) (t : OverlayTrigger)
    → In t (step q (dismiss id)).triggers ↔ (In t q.triggers × (t.id ≢ id))
unfolding step
dismiss_iff q id t = (
  λ m.
      let (deep, kept) = In-of_filter (λ x. not (str_eq x.id id)) t q.triggers m in
      (deep, ne_of_str t.id id kept),
  λ p. In-filter (λ x. not (str_eq x.id id)) t q.triggers p.0 (str_ne t.id id p.1),
)
