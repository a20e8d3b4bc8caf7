-- ===== src/Tournaments/Seeds.antt =====
-- The seeds of a division (web/src/features/tournaments/DivisionSeeds.tsx).
-- A Map and an object are the list of their entries in the order of their insertion; a seed typed
-- is a natural number or none. Of a registration the code reads the id and the seed.
pub mod Table
pub mod Rows
pub mod Save
mod Examples
use court_command.Prelude.{
  ℕ, zero, suc, ◌+◌, ◌-◌, ◌*◌, ◌/◌, ◌%◌, ◌^◌, ◌≤◌, ◌<◌, min, max, ◌≡◌, refl, sym, ap, ◌∙◌, subst,
  ◌≢◌, ◌↔◌, ◌⊎◌, inl, inr, Bool, true, false, not, ◌&&◌, ◌||◌, false≢true, Option, none, some, List,
  [], ◌∷◌, ◌++◌, map, arith, ltb, leb, ◌==◌, if◌then◌else◌, ltb→lt, lt→ltb, leb→le, ==_iff, ==_refl,
  Bool-cases, Option-cases, or_else, if_both, length, get_elem?, filter, any, all, length-append,
  length-filter-le, filter-filter, any-filter, filter-eq_of_length, filter-all, filter-true,
  filter-false, filter-append, All, In, Ordered, All-filter, Ordered-filter, In-filter,
  In-of_filter, In-map, All-map, All-In, All-append, Ordered-map,
}
use court_command.Sorting.{sort}

pub record Registration : Type 0 where
  pub id : ℕ
  pub seed : Option ℕ

abbrev pub SeedTable : Type 0
SeedTable = List (ℕ × Option ℕ)

-- `table[id] = seed`.
pub put : ℕ → Option ℕ → SeedTable → SeedTable
put id seed [] = (id, seed) ∷ []
put id seed ((k, v) ∷ rest) =
    let deeper = put id seed rest in if k == id then (k, seed) ∷ rest else (k, v) ∷ deeper

-- `table[id]`, with none for undefined.
pub lookup : ℕ → SeedTable → Option (Option ℕ)
lookup id [] = none
lookup id ((k, v) ∷ rest) = if k == id then some v else lookup id rest

-- `{ ...first, ...second }`.
pub spread : SeedTable → SeedTable → SeedTable
spread first [] = first
spread first ((k, v) ∷ rest) = spread (put k v first) rest

-- `byId.set(r.id, r)`.
pub set_by_id : Registration → List Registration → List Registration
set_by_id r [] = r ∷ []
set_by_id r (s ∷ rest) =
    let deeper = set_by_id r rest in if s.id == r.id then r ∷ rest else s ∷ deeper

pub set_each : List Registration → List Registration → List Registration
unfolding set_by_id
set_each by_id [] = by_id
set_each by_id (r ∷ rest) = set_each (set_by_id r by_id) rest

-- `combinedRegs`, of the approved registrations and of those checked in.
pub combined_regs : List Registration → List Registration → List Registration
unfolding set_each
combined_regs approved checked_in = set_each [] (approved ++ checked_in)

-- `seed[r.id] = r.seed` for each registration.
pub seeds_of : SeedTable → List Registration → SeedTable
unfolding put
seeds_of table [] = table
seeds_of table (r ∷ rest) = seeds_of (put r.id r.seed table) rest

-- `initializedFromServer`.
pub initialized_from_server : List Registration → SeedTable → SeedTable
unfolding seeds_of
initialized_from_server [] local = local
initialized_from_server (r ∷ rest) [] = seeds_of [] (r ∷ rest)
initialized_from_server (r ∷ rest) (e ∷ local) = e ∷ local

-- `table[id] ?? null`.
abbrev pub seed_or_null : Option (Option ℕ) → Option ℕ
seed_or_null none = none
seed_or_null (some seed) = seed

pub record SeedRow : Type 0 where
  pub registration : Registration
  pub seed : Option ℕ

-- The comparator of the rows is not positive, on the seeds and the ids.
abbrev pub seeds_before : Option ℕ → Option ℕ → ℕ → ℕ → Bool
seeds_before none none i j = leb i j
seeds_before none (some t) i j = false
seeds_before (some s) none i j = true
seeds_before (some s) (some t) i j = leb s t

abbrev pub comes_before : SeedRow → SeedRow → Bool
comes_before a b = seeds_before a.seed b.seed a.registration.id b.registration.id

abbrev pub row : SeedTable → Registration → SeedRow
row table r = record { registration = r; seed = seed_or_null (lookup r.id table) }

pub rows : List Registration → SeedTable → List SeedRow
unfolding lookup
rows regs local = sort comes_before (map (row (initialized_from_server regs local)) regs)

-- `value ? Number(value) : null` comes as the seed.
pub update_seed : List Registration → ℕ → Option ℕ → SeedTable → SeedTable
unfolding put spread
update_seed regs id seed prev = put id seed (spread prev (initialized_from_server regs prev))

-- `next[r.id] = i + 1` for each registration, from an index on.
pub numbered : SeedTable → ℕ → List Registration → SeedTable
unfolding put
numbered next i [] = next
numbered next i (r ∷ rest) = numbered (put r.id (some (i + 1)) next) (i + 1) rest

pub auto_seed_by_rating : List Registration → SeedTable
unfolding numbered
auto_seed_by_rating regs = numbered [] 0 regs

-- `randomize`, where the shuffle gives the list.
pub randomize : List Registration → SeedTable
unfolding numbered
randomize shuffled = numbered [] 0 shuffled

-- `newSeed !== reg.seed`.
abbrev pub seed_eq : Option ℕ → Option ℕ → Bool
seed_eq none none = true
seed_eq (some s) (some t) = s == t
seed_eq _ _ = false

-- The requests of `saveAndLockSeeds`: a registration's id and its new seed.
pub updates : SeedTable → List Registration → List (ℕ × Option ℕ)
unfolding lookup
updates current [] = []
updates current (r ∷ rest) =
    let later = updates current rest in
    let new_seed = seed_or_null (lookup r.id current) in
    if seed_eq new_seed r.seed then later else (r.id, new_seed) ∷ later

pub current_seeds : List Registration → SeedTable → SeedTable
unfolding spread initialized_from_server
current_seeds regs local = spread (initialized_from_server regs local) local

-- `current !== undefined && current !== reg.seed`.
abbrev pub changed : Option (Option ℕ) → Option ℕ → Bool
changed none seed = false
changed (some current) seed = not (seed_eq current seed)

abbrev pub has_change : SeedTable → Registration → Bool
has_change local r = changed (lookup r.id local) r.seed

-- `hasChanges`.
pub has_changes : List Registration → SeedTable → Bool
unfolding lookup
has_changes regs [] = false
has_changes regs (e ∷ local) = any (has_change (e ∷ local)) regs

-- What sets the local seeds: a seed typed, the automatic seeds, and a shuffled list.
pub data Edit : Type 0 where
  typed : (id : ℕ) → (seed : Option ℕ) → Edit
  auto_seeded : Edit
  randomized : (shuffled : List Registration) → Edit

pub apply_edit : List Registration → Edit → SeedTable → SeedTable
unfolding update_seed auto_seed_by_rating randomize
apply_edit regs (typed id seed) prev = update_seed regs id seed prev
apply_edit regs auto_seeded prev = auto_seed_by_rating regs
apply_edit regs (randomized shuffled) prev = randomize shuffled

-- Each edit comes with the registrations at the render before it.
pub local_seeds : SeedTable → List (List Registration × Edit) → SeedTable
unfolding apply_edit
local_seeds prev [] = prev
local_seeds prev ((regs, e) ∷ es) = local_seeds (apply_edit regs e prev) es
