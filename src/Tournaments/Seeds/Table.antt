-- ===== src/Tournaments/Seeds/Table.antt =====
-- The tables of seeds: lookups, and keys that are distinct
-- (web/src/features/tournaments/DivisionSeeds.tsx).
use court_command.Prelude.{
  ℕ, ◌+◌, ◌≡◌, refl, ◌∙◌, subst, inl, inr, false, Option, none, some, List, [], ◌∷◌, arith, ◌==◌,
  if◌then◌else◌, ==_iff, Bool-cases, if_both, All, Ordered,
}
use court_command.Tournaments.Seeds.{
  Registration, SeedTable, put, lookup, spread, numbered, update_seed, initialized_from_server,
  current_seeds, Edit, typed, auto_seeded, randomized, apply_edit, local_seeds, auto_seed_by_rating,
  randomize,
}

-- No key of the table is the given one.
abbrev pub Lacks : ℕ → SeedTable → Type 0
Lacks k t = All (λ e. (k == e.0) ≡ false) t

abbrev pub DistinctKeys : SeedTable → Type 0
DistinctKeys t = Ordered (λ a b. (a.0 == b.0) ≡ false) t

pub lookup-put :
    (k id : ℕ) (seed : Option ℕ) (t : SeedTable)
    → lookup k (put id seed t) ≡ (if id == k then some seed else lookup k t)
unfolding lookup put
lookup-put k id seed [] = refl
lookup-put k id seed ((j, v) ∷ t) = ground (arith, lookup-put k id seed t)

lookup-Lacks : (k : ℕ) (t : SeedTable) → Lacks k t → lookup k t ≡ none
unfolding lookup
lookup-Lacks k [] l = refl
lookup-Lacks k ((j, v) ∷ t) l = ground (arith, l.0, lookup-Lacks k t l.1)

put-Lacks :
    (k id : ℕ) (seed : Option ℕ) (t : SeedTable)
    → (k == id) ≡ false
    → Lacks k t
    → Lacks k (put id seed t)
unfolding put
put-Lacks k id seed [] n l = (n, tt)
put-Lacks k id seed ((j, v) ∷ t) n l =
    if_both {A = SeedTable} (Lacks k) (j == id) (l.0, l.1) (l.0, put-Lacks k id seed t n l.1)

pub put-DistinctKeys :
    (id : ℕ) (seed : Option ℕ) (t : SeedTable) → DistinctKeys t → DistinctKeys (put id seed t)
unfolding put
put-DistinctKeys id seed [] d = (tt, tt)
put-DistinctKeys id seed ((j, v) ∷ t) d = elim (Bool-cases (j == id)) [
  | inl e ↦ rw e d
  | inr e ↦ rw e (put-Lacks j id seed t e d.0, put-DistinctKeys id seed t d.1)
]

spread-DistinctKeys : (f t : SeedTable) → DistinctKeys f → DistinctKeys (spread f t)
unfolding spread
spread-DistinctKeys f [] d = d
spread-DistinctKeys f ((k, v) ∷ t) d = spread-DistinctKeys (put k v f) t (put-DistinctKeys k v f d)

numbered-DistinctKeys :
    (f : SeedTable) (i : ℕ) (rs : List Registration)
    → DistinctKeys f
    → DistinctKeys (numbered f i rs)
unfolding numbered
numbered-DistinctKeys f i [] d = d
numbered-DistinctKeys f i (r ∷ rs) d =
    numbered-DistinctKeys (put r.id (some (i + 1)) f) (i + 1) rs
      (put-DistinctKeys r.id (some (i + 1)) f d)

-- The first value, if there is one.
abbrev prefer : Option (Option ℕ) → Option (Option ℕ) → Option (Option ℕ)
prefer none q = q
prefer (some v) q = some v

prefer_self : (o : Option (Option ℕ)) → prefer o o ≡ o
prefer_self none = refl
prefer_self (some v) = refl

lookup-spread :
    (k : ℕ) (f t : SeedTable)
    → DistinctKeys t
    → lookup k (spread f t) ≡ prefer (lookup k t) (lookup k f)
unfolding lookup spread
lookup-spread k f [] d = refl
lookup-spread k f ((j, v) ∷ t) d =
    let deeper = lookup-spread k (put j v f) t d.1 in
    elim (Bool-cases (j == k)) [
      | inl e ↦
          let absent = lookup-Lacks k t (subst (λ n. Lacks n t) ((==_iff j k).0 e) d.0) in
          rw e (deeper ∙ rw absent (rw (lookup-put k j v f) (rw e refl)))
      | inr e ↦ rw e (deeper ∙ rw (lookup-put k j v f) (rw e refl))
    ]

spread_self : (k : ℕ) (t : SeedTable) → DistinctKeys t → lookup k (spread t t) ≡ lookup k t
spread_self k t d = lookup-spread k t t d ∙ prefer_self (lookup k t)

edit-DistinctKeys :
    (regs : List Registration) (e : Edit) (prev : SeedTable)
    → DistinctKeys prev
    → DistinctKeys (apply_edit regs e prev)
unfolding apply_edit update_seed auto_seed_by_rating randomize
edit-DistinctKeys regs (typed id seed) prev d =
    put-DistinctKeys id seed (spread prev (initialized_from_server regs prev))
      (spread-DistinctKeys prev (initialized_from_server regs prev) d)
edit-DistinctKeys regs auto_seeded prev d = numbered-DistinctKeys [] 0 regs tt
edit-DistinctKeys regs (randomized shuffled) prev d = numbered-DistinctKeys [] 0 shuffled tt

pub local_seeds-DistinctKeys :
    (prev : SeedTable) (es : List (List Registration × Edit))
    → DistinctKeys prev
    → DistinctKeys (local_seeds prev es)
unfolding local_seeds
local_seeds-DistinctKeys prev [] d = d
local_seeds-DistinctKeys prev ((regs, e) ∷ es) d =
    local_seeds-DistinctKeys (apply_edit regs e prev) es (edit-DistinctKeys regs e prev d)

-- The seeds that a save compares are those of the rows.
pub current_seeds-lookup :
    (k : ℕ) (regs : List Registration) (local : SeedTable)
    → DistinctKeys local
    → lookup k (current_seeds regs local) ≡ lookup k (initialized_from_server regs local)
unfolding current_seeds initialized_from_server spread
current_seeds-lookup k [] local d = spread_self k local d
current_seeds-lookup k (r ∷ regs) [] d = refl
current_seeds-lookup k (r ∷ regs) (e ∷ local) d = spread_self k (e ∷ local) d
