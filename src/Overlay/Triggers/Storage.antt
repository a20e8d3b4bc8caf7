-- ===== src/Overlay/Triggers/Storage.antt =====
-- The queue in session storage: a reload, and a change of the court.
use court_command.Prelude.{
  ℕ, ◌≡◌, refl, true, false, Option, List, [], ◌∷◌, filter, arith, if_both, ==_refl, All,
  Bool-cases, inl, inr,
}
use court_command.Overlay.Triggers.{
  OverlayTrigger, alive, entries, Stored, array, StorageKey, bare, of_court, key_eq, storage_key,
  keep_entries, load_triggers, Queue, settle, Event, fire, dismiss, dismiss_all, tick, change_court,
  storage_full, step, run, mount, sweep, no_sweeper,
}

key_eq_refl : (k : StorageKey) → key_eq k k ≡ true
key_eq_refl bare = refl
key_eq_refl (of_court n) = ==_refl n

-- What stands under the queue's key is the queue, and storage takes writes.
pub record Mirrored (q : Queue) : Type 0 where
  pub open_storage : q.writable ≡ true
  pub stored : q.storage q.key ≡ array (entries q.triggers)

settle-Mirrored :
    (key : StorageKey) (ts : List OverlayTrigger) (q : Queue)
    → q.writable ≡ true
    → Mirrored (settle key ts q)
unfolding settle
settle-Mirrored key ts q h = record { open_storage = h; stored = ground (arith, key_eq_refl key) }

-- Storage does not fill up at this event.
abbrev pub Stores : Event → Type 0
Stores (storage_full full) = full ≡ false
Stores _ = Unit

step-Mirrored : (q : Queue) (e : Event) → Stores e → Mirrored q → Mirrored (step q e)
unfolding step
step-Mirrored q (fire id now input) s h = settle-Mirrored _ _ q h.open_storage
step-Mirrored q (dismiss id) s h = settle-Mirrored _ _ q h.open_storage
step-Mirrored q (dismiss_all kind) s h = settle-Mirrored _ _ q h.open_storage
step-Mirrored q (tick interval now) s h =
    if_both Mirrored _ h (settle-Mirrored q.key (sweep now q.triggers) q h.open_storage)
step-Mirrored q (change_court court) s h = elim (Bool-cases (key_eq (storage_key court) q.key)) [
  | inl e ↦ rw e h
  | inr e ↦ rw e (settle-Mirrored (storage_key court) q.triggers q h.open_storage)
]
step-Mirrored q (storage_full full) s h = record { open_storage = ground arith; stored = h.stored }

run-Mirrored : (q : Queue) (es : List Event) → All Stores es → Mirrored q → Mirrored (run q es)
unfolding run
run-Mirrored q [] s h = h
run-Mirrored q (e ∷ es) (s, ss) h = run-Mirrored (step q e) es ss (step-Mirrored q e s h)

mount-Mirrored :
    (court : Option ℕ) (now : ℕ) (storage : StorageKey → Stored)
    → Mirrored (mount court now true storage)
unfolding mount
mount-Mirrored court now storage =
    let key = storage_key court in
    let ts = load_triggers now (storage key) in
    settle-Mirrored key ts
      (record {
        key = key;
        triggers = ts;
        storage = storage;
        writable = true;
        sweeper = no_sweeper;
      })
      refl

keep_entries-entries :
    (now : ℕ) (ts : List OverlayTrigger) → keep_entries now (entries ts) ≡ filter (alive now) ts
keep_entries-entries now [] = refl
keep_entries-entries now (t ∷ ts) = ground (arith, keep_entries-entries now ts)

-- A reload at any time finds exactly the triggers of the queue that are still alive then, whatever
-- happened since the first render, while storage takes every write.
pub reload-eq-filter :
    (court : Option ℕ) (start now : ℕ) (storage : StorageKey → Stored) (es : List Event)
    → All Stores es
    → let q = run (mount court start true storage) es in
      load_triggers now (q.storage q.key) ≡ filter (alive now) q.triggers
unfolding load_triggers
reload-eq-filter court start now storage es s =
    let q = run (mount court start true storage) es in
    let m : Mirrored q = run-Mirrored _ es s (mount-Mirrored court start storage) in
    rw (m.stored) (keep_entries-entries now q.triggers)

-- A change of the court shows the old court's triggers and writes them over whatever was stored
-- for the new court: a later load for that court finds the old court's triggers.
pub change_court-carries :
    (q : Queue) (court : Option ℕ) (now : ℕ)
    → q.writable ≡ true
    → key_eq (storage_key court) q.key ≡ false
    → ((step q (change_court court)).triggers ≡ q.triggers)
      × (load_triggers now ((step q (change_court court)).storage (storage_key court))
          ≡ filter (alive now) q.triggers)
unfolding step load_triggers settle
change_court-carries q court now w ne = (
  ground arith,
  ground (arith, key_eq_refl (storage_key court), keep_entries-entries now q.triggers),
)
