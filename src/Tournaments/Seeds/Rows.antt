-- ===== src/Tournaments/Seeds/Rows.antt =====
-- The registrations that are seeded, the order of their rows, and the automatic seeds
-- (web/src/features/tournaments/DivisionSeeds.tsx).
use court_command.Prelude.{
  ℕ, zero, suc, ◌+◌, ◌≤◌, ◌≡◌, refl, sym, ap, ◌∙◌, subst, inl, inr, true, false, false≢true, Option,
  none, some, List, [], ◌∷◌, ◌++◌, map, arith, ◌==◌, if◌then◌else◌, leb→le, ==_iff, ==_refl,
  Bool-cases, if_both, get_elem?, All, Ordered, Ordered-map,
}
use mathlib.Core.List.{Perm}
use court_command.Sorting.{sort, sort-perm, sort-Sorted}
use court_command.Tournaments.Seeds.{
  Registration, SeedTable, put, lookup, set_by_id, set_each, combined_regs, SeedRow, row, rows,
  comes_before, seeds_before, numbered, auto_seed_by_rating, randomize, initialized_from_server,
}
use court_command.Tournaments.Seeds.Table.{lookup-put}

abbrev pub HasOtherId : ℕ → Registration → Type 0
HasOtherId k r = (k == r.id) ≡ false

abbrev pub DistinctIds : List Registration → Type 0
DistinctIds rs = Ordered (λ a b. HasOtherId a.id b) rs

abbrev pub find : ℕ → List Registration → Option Registration
find id [] = none
find id (r ∷ rs) = if r.id == id then some r else find id rs

-- The last registration of the list with the id, or the one found before.
abbrev pub last_of : ℕ → List Registration → Option Registration → Option Registration
last_of id [] before = before
last_of id (r ∷ rs) before = last_of id rs (if r.id == id then some r else before)

find-set_by_id :
    (id : ℕ) (r : Registration) (rs : List Registration)
    → find id (set_by_id r rs) ≡ (if r.id == id then some r else find id rs)
unfolding set_by_id
find-set_by_id id r [] = refl
find-set_by_id id r (s ∷ rs) = ground (arith, find-set_by_id id r rs)

find-set_each :
    (id : ℕ) (by_id rs : List Registration)
    → find id (set_each by_id rs) ≡ last_of id rs (find id by_id)
unfolding set_each
find-set_each id by_id [] = refl
find-set_each id by_id (r ∷ rs) =
    find-set_each id (set_by_id r by_id) rs ∙ ap (last_of id rs) (find-set_by_id id r by_id)

set_by_id-HasOtherId :
    (k : ℕ) (r : Registration) (rs : List Registration)
    → HasOtherId k r
    → All (HasOtherId k) rs
    → All (HasOtherId k) (set_by_id r rs)
unfolding set_by_id
set_by_id-HasOtherId k r [] n a = (n, tt)
set_by_id-HasOtherId k r (s ∷ rs) n a =
    if_both {A = List Registration} (All (HasOtherId k)) (s.id == r.id) (n, a.1)
      (a.0, set_by_id-HasOtherId k r rs n a.1)

set_by_id-DistinctIds :
    (r : Registration) (rs : List Registration) → DistinctIds rs → DistinctIds (set_by_id r rs)
unfolding set_by_id
set_by_id-DistinctIds r [] d = (tt, tt)
set_by_id-DistinctIds r (s ∷ rs) d = elim (Bool-cases (s.id == r.id)) [
  | inl e ↦ rw e (subst (λ k. All (HasOtherId k) rs) ((==_iff s.id r.id).0 e) d.0, d.1)
  | inr e ↦ rw e (set_by_id-HasOtherId s.id r rs e d.0, set_by_id-DistinctIds r rs d.1)
]

set_each-DistinctIds :
    (by_id rs : List Registration) → DistinctIds by_id → DistinctIds (set_each by_id rs)
unfolding set_each
set_each-DistinctIds by_id [] d = d
set_each-DistinctIds by_id (r ∷ rs) d =
    set_each-DistinctIds (set_by_id r by_id) rs (set_by_id-DistinctIds r by_id d)

-- Each id of the approved and of the checked-in registrations has one entry among those seeded, the
-- last one that was fetched, and no other id has one.
pub combined_regs_lem :
    (approved checked_in : List Registration) (id : ℕ)
    → (find id (combined_regs approved checked_in) ≡ last_of id (approved ++ checked_in) none)
      × DistinctIds (combined_regs approved checked_in)
unfolding combined_regs
combined_regs_lem approved checked_in id = (
  find-set_each id [] (approved ++ checked_in),
  set_each-DistinctIds [] (approved ++ checked_in) tt,
)

-- The order of two rows by their seeds: lower seeds first, then those without a seed by their ids.
abbrev pub SeedOrder : Option ℕ → Option ℕ → ℕ → ℕ → Type 0
SeedOrder none none i j = i ≤ j
SeedOrder none (some t) i j = ⊥
SeedOrder (some s) none i j = Unit
SeedOrder (some s) (some t) i j = s ≤ t

abbrev pub Precedes : SeedRow → SeedRow → Type 0
Precedes a b = SeedOrder a.seed b.seed a.registration.id b.registration.id

seeds_before_total :
    (s t : Option ℕ) (i j : ℕ) → seeds_before s t i j ≡ false → seeds_before t s j i ≡ true
seeds_before_total none none i j h = ground arith
seeds_before_total none (some t) i j h = refl
seeds_before_total (some s) none i j h = absurd (false≢true (sym h))
seeds_before_total (some s) (some t) i j h = ground arith

seeds_before_trans :
    (s t u : Option ℕ) (i j k : ℕ)
    → seeds_before s t i j ≡ true
    → seeds_before t u j k ≡ true
    → seeds_before s u i k ≡ true
seeds_before_trans none none none i j k h l = ground arith
seeds_before_trans none none (some u) i j k h l = l
seeds_before_trans none (some t) u i j k h l = absurd (false≢true h)
seeds_before_trans (some s) t none i j k h l = refl
seeds_before_trans (some s) none (some u) i j k h l = absurd (false≢true l)
seeds_before_trans (some s) (some t) (some u) i j k h l = ground arith

seeds_before-SeedOrder :
    (s t : Option ℕ) (i j : ℕ) → seeds_before s t i j ≡ true → SeedOrder s t i j
seeds_before-SeedOrder none none i j h = leb→le i j h
seeds_before-SeedOrder none (some t) i j h = false≢true h
seeds_before-SeedOrder (some s) none i j h = tt
seeds_before-SeedOrder (some s) (some t) i j h = leb→le s t h

total : (a b : SeedRow) → comes_before a b ≡ false → comes_before b a ≡ true
total a b h = seeds_before_total a.seed b.seed a.registration.id b.registration.id h

trans :
    (a b c : SeedRow) → comes_before a b ≡ true → comes_before b c ≡ true → comes_before a c ≡ true
trans a b c h k =
    seeds_before_trans a.seed b.seed c.seed a.registration.id b.registration.id c.registration.id h
      k

precedes : (a b : SeedRow) → comes_before a b ≡ true → Precedes a b
precedes a b h = seeds_before-SeedOrder a.seed b.seed a.registration.id b.registration.id h

-- There is one row for each registration, with its seed shown, and the rows stand by seed, those
-- without one behind, by their ids.
pub rows_lem :
    (regs : List Registration) (local : SeedTable)
    → Perm (rows regs local) (map (row (initialized_from_server regs local)) regs)
      × Ordered Precedes (rows regs local)
unfolding rows
rows_lem regs local =
    let drawn = map (row (initialized_from_server regs local)) regs in
    (
      sort-perm comes_before drawn,
      Ordered-map (λ a b. comes_before a b ≡ true) Precedes precedes (sort comes_before drawn)
          (sort-Sorted comes_before total trans drawn),
    )

lookup-numbered :
    (k i : ℕ) (f : SeedTable) (rs : List Registration)
    → All (HasOtherId k) rs
    → lookup k (numbered f i rs) ≡ lookup k f
unfolding numbered
lookup-numbered k i f [] a = refl
lookup-numbered k i f (r ∷ rs) a =
    lookup-numbered k (i + 1) (put r.id (some (i + 1)) f) rs a.1
    ∙ ground (arith, lookup-put k r.id (some (i + 1)) f, a.0)

numbered-at :
    (i j : ℕ) (f : SeedTable) (rs : List Registration) (r : Registration)
    → DistinctIds rs
    → get_elem? rs i ≡ some r
    → lookup r.id (numbered f j rs) ≡ some (some (j + i + 1))
unfolding numbered
numbered-at i j f [] r d g = cc
numbered-at zero j f (s ∷ rs) r d g =
    let same : s ≡ r = cc in
    subst
      (λ q. lookup q.id (numbered (put s.id (some (j + 1)) f) (j + 1) rs) ≡ some (some (j + 0 + 1)))
      same
      (lookup-numbered s.id (j + 1) (put s.id (some (j + 1)) f) rs d.0
        ∙ (lookup-put s.id s.id (some (j + 1)) f
            ∙ rw (==_refl s.id) (ap (λ n. some (some n)) (omega arith))))
numbered-at (suc i) j f (s ∷ rs) r d g =
    numbered-at i (j + 1) (put s.id (some (j + 1)) f) rs r d.1 g
    ∙ ap (λ n. some (some n)) (omega arith)

-- The automatic seeds and a shuffle give the registration at each position of the list the next
-- number, from one on, where no two have the same id.
pub seeds_count_up :
    (regs : List Registration) (i : ℕ) (r : Registration)
    → DistinctIds regs
    → get_elem? regs i ≡ some r
    → (lookup r.id (auto_seed_by_rating regs) ≡ some (some (i + 1)))
      × (lookup r.id (randomize regs) ≡ some (some (i + 1)))
unfolding auto_seed_by_rating randomize
seeds_count_up regs i r d g = (number, number)
  where
    number : lookup r.id (numbered [] 0 regs) ≡ some (some (i + 1))
    number = numbered-at i 0 [] regs r d g ∙ ap (λ n. some (some n)) (omega arith)
