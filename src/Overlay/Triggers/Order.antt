-- ===== src/Overlay/Triggers/Order.antt =====
-- The order of the queue, and its ids (web/src/features/overlay/useTriggerQueue.ts).
use Prim.Native.String.{String}
use text.Mathlib.Text.{◌==◌ as str_eq}
use court_command.Prelude.{
  ℕ, ◌≤◌, ◌≡◌, refl, sym, ◌≢◌, Bool, true, not, none, some, List, [], ◌∷◌, filter, arith, All,
  Ordered, In, All-filter, Ordered-filter, All-map, All-In, inl, inr, filter-true, filter-false, ap,
  if_both, false,
}
use court_command.Overlay.Triggers.{
  OverlayTrigger, kind_eq, alive, Queue, Event, fire, dismiss, dismiss_all, tick, change_court,
  storage_full, step, run, new_trigger,
}
use court_command.Overlay.Triggers.Sweep.{sweep-eq-filter}

abbrev added : Event → List OverlayTrigger → List OverlayTrigger
added (fire id now input) ts = new_trigger id now input ∷ ts
added _ ts = ts

-- An event takes some triggers out, and at most puts a new one in front.
abbrev Shrinks : Queue → Event → List OverlayTrigger → Type 0
Shrinks q e ts = (p : OverlayTrigger → Bool) × (ts ≡ added e (filter p q.triggers))

step-Shrinks : (q : Queue) (e : Event) → Shrinks q e (step q e).triggers
unfolding step
step-Shrinks q (fire id now input) =
    (λ _. true, ap (λ ts. new_trigger id now input ∷ ts) (sym (filter-true q.triggers)))
step-Shrinks q (dismiss id) = (λ t. not (str_eq t.id id), refl)
step-Shrinks q (dismiss_all none) = (λ _. false, sym (filter-false q.triggers))
step-Shrinks q (dismiss_all (some kind)) = (λ t. not (kind_eq t.kind kind), refl)
step-Shrinks q (tick interval now) =
    if_both {A = Queue} (λ r. Shrinks q (tick interval now) r.triggers) _
      (λ _. true, sym (filter-true q.triggers)) (alive now, sweep-eq-filter now q.triggers)
step-Shrinks q (change_court court) =
    if_both {A = Queue} (λ r. Shrinks q (change_court court) r.triggers) _
      (λ _. true, sym (filter-true q.triggers)) (λ _. true, sym (filter-true q.triggers))
step-Shrinks q (storage_full full) = (λ _. true, sym (filter-true q.triggers))

-- The clock does not go back between two triggers.
abbrev pub Clocked : ℕ → List Event → Type 0
Clocked now [] = Unit
Clocked now (fire id t input ∷ es) = (now ≤ t) × Clocked t es
Clocked now (_ ∷ es) = Clocked now es

abbrev pub NewestFirst : List OverlayTrigger → Type 0
NewestFirst ts = Ordered (λ a b. b.started_at ≤ a.started_at) ts

abbrev pub Started : ℕ → List OverlayTrigger → Type 0
Started now ts = All (λ t. t.started_at ≤ now) ts

abbrev InOrder : ℕ → List OverlayTrigger → Type 0
InOrder now ts = Started now ts × NewestFirst ts

abbrev time_after : ℕ → Event → ℕ
time_after now (fire id t input) = t
time_after now _ = now

Clocked-cons :
    (now : ℕ) (e : Event) (es : List Event)
    → Clocked now (e ∷ es)
    → (now ≤ time_after now e) × Clocked (time_after now e) es
Clocked-cons now (fire id t input) es h = h
Clocked-cons now (dismiss id) es h = (omega arith, h)
Clocked-cons now (dismiss_all kind) es h = (omega arith, h)
Clocked-cons now (tick interval t) es h = (omega arith, h)
Clocked-cons now (change_court court) es h = (omega arith, h)
Clocked-cons now (storage_full full) es h = (omega arith, h)

Started-later : (now t : ℕ) (ts : List OverlayTrigger) → now ≤ t → Started now ts → Started t ts
Started-later now t ts le h =
    All-map (λ x. x.started_at ≤ now) (λ x. x.started_at ≤ t) (λ a k. omega arith) ts h

added-InOrder :
    (now : ℕ) (e : Event) (ts : List OverlayTrigger)
    → now ≤ time_after now e
    → InOrder now ts
    → InOrder (time_after now e) (added e ts)
added-InOrder now (fire id t input) ts le (s, o) =
    let s' = Started-later now t ts le s in ((omega arith, s'), (s', o))
added-InOrder now (dismiss id) ts le h = h
added-InOrder now (dismiss_all kind) ts le h = h
added-InOrder now (tick interval t) ts le h = h
added-InOrder now (change_court court) ts le h = h
added-InOrder now (storage_full full) ts le h = h

step-InOrder :
    (now : ℕ) (q : Queue) (e : Event)
    → now ≤ time_after now e
    → InOrder now q.triggers
    → InOrder (time_after now e) (step q e).triggers
step-InOrder now q e le (s, o) =
    let (p, eq) = step-Shrinks q e in
    rw eq (
      added-InOrder now e (filter p q.triggers) le
        (All-filter _ p q.triggers s, Ordered-filter _ p q.triggers o))

-- While the clock does not go back, a queue that stands newest first does so after any events.
pub run-NewestFirst :
    (now : ℕ) (q : Queue) (es : List Event)
    → Clocked now es
    → Started now q.triggers
    → NewestFirst q.triggers
    → NewestFirst (run q es).triggers
unfolding run
run-NewestFirst now q [] c s o = o
run-NewestFirst now q (e ∷ es) c s o =
    let (le, c') = Clocked-cons now e es c in
    let (s', o') = step-InOrder now q e le (s, o) in
    run-NewestFirst (time_after now e) (step q e) es c' s' o'

-- Each id that is fired is new (crypto.randomUUID): it differs from the ids used before.
abbrev pub FreshIds : List String → List Event → Type 0
FreshIds used [] = Unit
FreshIds used (fire id now input ∷ es) = All (λ u. id ≢ u) used × FreshIds (id ∷ used) es
FreshIds used (_ ∷ es) = FreshIds used es

abbrev pub Used : List String → List OverlayTrigger → Type 0
Used used ts = All (λ t. In t.id used) ts

abbrev pub DistinctIds : List OverlayTrigger → Type 0
DistinctIds ts = Ordered (λ a b. a.id ≢ b.id) ts

abbrev used_after : List String → Event → List String
used_after used (fire id now input) = id ∷ used
used_after used _ = used

abbrev IsNew : List String → Event → Type 0
IsNew used (fire id now input) = All (λ u. id ≢ u) used
IsNew used _ = Unit

FreshIds-cons :
    (used : List String) (e : Event) (es : List Event)
    → FreshIds used (e ∷ es)
    → IsNew used e × FreshIds (used_after used e) es
FreshIds-cons used (fire id t input) es h = h
FreshIds-cons used (dismiss id) es h = (tt, h)
FreshIds-cons used (dismiss_all kind) es h = (tt, h)
FreshIds-cons used (tick interval t) es h = (tt, h)
FreshIds-cons used (change_court court) es h = (tt, h)
FreshIds-cons used (storage_full full) es h = (tt, h)

added-DistinctIds :
    (used : List String) (e : Event) (ts : List OverlayTrigger)
    → IsNew used e
    → Used used ts × DistinctIds ts
    → Used (used_after used e) (added e ts) × DistinctIds (added e ts)
added-DistinctIds used (fire id t input) ts new (u, d) = (
  (inl refl, All-map (λ x. In x.id used) (λ x. In x.id (id ∷ used)) (λ a m. inr m) ts u),
  (
    All-map (λ x. In x.id used) (λ x. id ≢ x.id) (λ a m. All-In (λ v. id ≢ v) a.id used new m) ts u,
    d,
  ),
)
added-DistinctIds used (dismiss id) ts new h = h
added-DistinctIds used (dismiss_all kind) ts new h = h
added-DistinctIds used (tick interval t) ts new h = h
added-DistinctIds used (change_court court) ts new h = h
added-DistinctIds used (storage_full full) ts new h = h

-- Where each fired id is new, the ids of the queue stay pairwise distinct.
pub run-DistinctIds :
    (used : List String) (q : Queue) (es : List Event)
    → FreshIds used es
    → Used used q.triggers
    → DistinctIds q.triggers
    → DistinctIds (run q es).triggers
unfolding run
run-DistinctIds used q [] f u d = d
run-DistinctIds used q (e ∷ es) f u d =
    let (new, f') = FreshIds-cons used e es f in
    let (p, eq) = step-Shrinks q e in
    let both : Used (used_after used e) (step q e).triggers × DistinctIds (step q e).triggers =
      rw eq (
        added-DistinctIds used e (filter p q.triggers) new
          (All-filter _ p q.triggers u, Ordered-filter _ p q.triggers d)) in
    run-DistinctIds (used_after used e) (step q e) es f' both.0 both.1
