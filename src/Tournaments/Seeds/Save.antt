-- ===== src/Tournaments/Seeds/Save.antt =====
-- What a save of the seeds sends (web/src/features/tournaments/DivisionSeeds.tsx).
use court_command.Prelude.{
  ℕ, ◌≡◌, refl, sym, ap, ◌∙◌, subst, ◌≢◌, ◌↔◌, inl, inr, true, false, false≢true, Option, none,
  some, List, [], ◌∷◌, arith, ==_refl, Bool-cases, any, All, In, All-In,
}
use court_command.Tournaments.Seeds.{
  Registration, SeedTable, lookup, initialized_from_server, current_seeds, seed_or_null, seed_eq,
  updates, has_change, changed, has_changes, Edit, local_seeds, row,
}
use court_command.Tournaments.Seeds.Table.{
  DistinctKeys, local_seeds-DistinctKeys, current_seeds-lookup,
}
use court_command.Tournaments.Seeds.Rows.{HasOtherId, DistinctIds}

abbrev with_seed : Registration → Option (Option ℕ) → Registration
with_seed r none = r
with_seed r (some seed) = record r { seed = seed }

-- The registration after the requests of a save have been carried out.
abbrev pub saved : List (ℕ × Option ℕ) → Registration → Registration
saved sent r = with_seed r (lookup r.id sent)

-- The registration with the seed that its row shows.
abbrev pub as_shown : List Registration → SeedTable → Registration → Registration
as_shown regs local r = record r { seed = (row (initialized_from_server regs local) r).seed }

seed_eq_iff : (s t : Option ℕ) → (seed_eq s t ≡ true) ↔ (s ≡ t)
seed_eq_iff none none = ground arith
seed_eq_iff none (some t) = ground arith
seed_eq_iff (some s) none = ground arith
seed_eq_iff (some s) (some t) = ground arith

updates-HasOtherId :
    (k : ℕ) (cur : SeedTable) (rs : List Registration)
    → All (HasOtherId k) rs
    → lookup k (updates cur rs) ≡ none
unfolding lookup updates
updates-HasOtherId k cur [] a = refl
updates-HasOtherId k cur (r ∷ rs) a = ground (arith, updates-HasOtherId k cur rs a.1, a.0)

abbrev NewSeed : SeedTable → List (ℕ × Option ℕ) → Registration → Type 0
NewSeed cur sent r = saved sent r ≡ record r { seed = seed_or_null (lookup r.id cur) }

updates_first :
    (cur : SeedTable) (r : Registration) (rs : List Registration)
    → All (HasOtherId r.id) rs
    → NewSeed cur (updates cur (r ∷ rs)) r
unfolding lookup updates
updates_first cur r rs a = elim (Bool-cases (seed_eq (seed_or_null (lookup r.id cur)) r.seed)) [
  | inl e ↦ rw e (
      rw (updates-HasOtherId r.id cur rs a) (
        ap (λ seed. record r { seed = seed })
          (sym ((seed_eq_iff (seed_or_null (lookup r.id cur)) r.seed).0 e))))
  | inr e ↦ rw e (rw (==_refl r.id) refl)
]

updates_later :
    (cur : SeedTable) (s r : Registration) (rs : List Registration)
    → HasOtherId s.id r
    → NewSeed cur (updates cur rs) r
    → NewSeed cur (updates cur (s ∷ rs)) r
unfolding lookup updates
updates_later cur s r rs n h = elim (Bool-cases (seed_eq (seed_or_null (lookup s.id cur)) s.seed)) [
  | inl e ↦ rw e h
  | inr e ↦ rw e (rw n h)
]

updates-NewSeed :
    (cur : SeedTable) (rs : List Registration) (r : Registration)
    → DistinctIds rs
    → In r rs
    → NewSeed cur (updates cur rs) r
updates-NewSeed cur [] r d m = absurd m
updates-NewSeed cur (s ∷ rs) r d (inl e) =
    subst (NewSeed cur (updates cur (s ∷ rs))) (sym e) (updates_first cur s rs d.0)
updates-NewSeed cur (s ∷ rs) r d (inr m) =
    updates_later cur s r rs (All-In (HasOtherId s.id) r rs d.0 m) (updates-NewSeed cur rs r d.1 m)

initialized-cons :
    (regs : List Registration) (e : ℕ × Option ℕ) (local : SeedTable)
    → initialized_from_server regs (e ∷ local) ≡ e ∷ local
unfolding initialized_from_server
initialized-cons [] e local = refl
initialized-cons (r ∷ regs) e local = refl

-- Where the local seeds lack a registration that has a seed at the backend, it does not count as a
-- change, and yet a save takes its seed away.
pub late_registration_cleared :
    (regs : List Registration) (e : ℕ × Option ℕ) (local : SeedTable) (r : Registration) (s : ℕ)
    → DistinctIds regs
    → DistinctKeys (e ∷ local)
    → In r regs
    → r.seed ≡ some s
    → lookup r.id (e ∷ local) ≡ none
    → (has_change (e ∷ local) r ≡ false)
      × (saved (updates (current_seeds regs (e ∷ local)) regs) r ≡ record r { seed = none })
late_registration_cleared regs e local r s d k m seeded late = (
  rw late refl,
  updates-NewSeed (current_seeds regs (e ∷ local)) regs r d m
      ∙ ap (λ o. record r { seed = seed_or_null o })
          (current_seeds-lookup r.id regs (e ∷ local) k
            ∙ (ap (lookup r.id) (initialized-cons regs e local) ∙ late)),
)

changed-seed_eq :
    (o : Option (Option ℕ)) (seed : Option ℕ)
    → seed_eq (seed_or_null o) seed ≡ true
    → changed o seed ≡ false
changed-seed_eq none seed h = refl
changed-seed_eq (some v) seed h = rw h refl

has_change-updates :
    (cur local : SeedTable) (rs : List Registration)
    → ((k : ℕ) → lookup k cur ≡ lookup k local)
    → updates cur rs ≡ []
    → any (has_change local) rs ≡ false
unfolding updates
has_change-updates cur local [] same unsent = refl
has_change-updates cur local (r ∷ rs) same unsent =
    elim (Bool-cases (seed_eq (seed_or_null (lookup r.id cur)) r.seed)) [
      | inl e ↦
          let equal = subst (λ o. seed_eq (seed_or_null o) r.seed ≡ true) (same r.id) e in
          rw (changed-seed_eq (lookup r.id local) r.seed equal)
            (has_change-updates cur local rs same (rw e at unsent))
      | inr e ↦ absurd (sent_something (rw e at unsent))
    ]
  where
    sent_something : {x : ℕ × Option ℕ} {xs : List (ℕ × Option ℕ)} → x ∷ xs ≡ [] → ⊥
    sent_something h = cc

changes-sent :
    (regs : List Registration) (local : SeedTable)
    → DistinctKeys local
    → has_changes regs local ≡ true
    → updates (current_seeds regs local) regs ≢ []
unfolding has_changes
changes-sent regs [] d h unsent = false≢true h
changes-sent regs (e ∷ local) d h unsent =
    false≢true
      (sym (has_change-updates (current_seeds regs (e ∷ local)) (e ∷ local) regs same unsent) ∙ h)
  where
    same : (k : ℕ) → lookup k (current_seeds regs (e ∷ local)) ≡ lookup k (e ∷ local)
    same k =
        current_seeds-lookup k regs (e ∷ local) d ∙ ap (lookup k) (initialized-cons regs e local)

-- While the tab says that there are unsaved changes, a save has something to send.
pub has_changes_sends :
    (regs : List Registration) (es : List (List Registration × Edit))
    → has_changes regs (local_seeds [] es) ≡ true
    → updates (current_seeds regs (local_seeds [] es)) regs ≢ []
has_changes_sends regs es h =
    changes-sent regs (local_seeds [] es) (local_seeds-DistinctKeys [] es tt) h
