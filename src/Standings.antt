-- ===== src/Standings.antt =====
-- The standings of a season, grouped by division (web/src/features/leagues/StandingsView.tsx). Of an
-- entry the grouping reads the division and the rank.
mod Examples
use court_command.Prelude.{
  ℕ, zero, suc, ◌+◌, ◌-◌, ◌*◌, ◌/◌, ◌%◌, ◌^◌, ◌≤◌, ◌<◌, min, max, ◌≡◌, refl, sym, ap, ◌∙◌, subst,
  ◌≢◌, ◌↔◌, ◌⊎◌, inl, inr, Bool, true, false, not, ◌&&◌, ◌||◌, false≢true, Option, none, some, List,
  [], ◌∷◌, ◌++◌, map, arith, ltb, leb, ◌==◌, if◌then◌else◌, ltb→lt, lt→ltb, leb→le, ==_iff, ==_refl,
  Bool-cases, Option-cases, or_else, if_both, length, get_elem?, filter, any, all, length-append,
  length-filter-le, filter-filter, any-filter, filter-eq_of_length, filter-all, filter-true,
  filter-false, filter-append, All, In, Ordered, All-filter, Ordered-filter, In-filter,
  In-of_filter, In-map, All-map, All-In, All-append, Ordered-map,
}
use court_command.Grouping.{
  group_from, IsGrouped, group_from-IsGrouped, sorted_keys, column, count, in_group, ranked,
}
use court_command.Sorting.{sort, Sorted}

pub record StandingsEntry : Type 0 where
  pub id : ℕ
  pub division_id : ℕ
  pub rank : ℕ

pub record GroupedDivision : Type 0 where
  pub division_id : ℕ
  pub entries : List StandingsEntry

abbrev pub division_of : StandingsEntry → ℕ
division_of e = e.division_id

abbrev pub rank_of : StandingsEntry → ℕ
rank_of e = e.rank

-- `map`, of the entries that there are.
pub by_division : List StandingsEntry → List (ℕ × List StandingsEntry)
by_division entries = group_from division_of [] entries

abbrev pub grouped_division : List (ℕ × List StandingsEntry) → ℕ → GroupedDivision
grouped_division groups division_id = record {
  division_id = division_id;
  entries = column rank_of groups division_id;
}

-- `grouped`.
pub grouped : List StandingsEntry → List GroupedDivision
unfolding by_division
grouped entries = map (grouped_division (by_division entries)) (sorted_keys (by_division entries))

abbrev pub ids : List GroupedDivision → List ℕ
ids [] = []
ids (g ∷ gs) = g.division_id ∷ ids gs

ids-map :
    (groups : List (ℕ × List StandingsEntry)) (ks : List ℕ)
    → ids (map (grouped_division groups) ks) ≡ ks
ids-map groups [] = refl
ids-map groups (k ∷ ks) = ap (λ r. k ∷ r) (ids-map groups ks)

-- What a group must hold.
abbrev pub IsRanked : List StandingsEntry → GroupedDivision → Type 0
IsRanked entries g =
    g.entries ≡ sort (ranked rank_of) (filter (in_group division_of g.division_id) entries)

map-IsRanked :
    (entries : List StandingsEntry) (groups : List (ℕ × List StandingsEntry))
    → IsGrouped division_of rank_of entries groups
    → (ks : List ℕ) → All (IsRanked entries) (map (grouped_division groups) ks)
map-IsRanked entries groups h [] = tt
map-IsRanked entries groups h (k ∷ ks) = ((h.1 k).1, map-IsRanked entries groups h ks)

-- The divisions are shown in the order of their ids, each that an entry has exactly once and no other;
-- and each with all of its entries, sorted by rank, those of the same rank in the order they came.
pub grouped_lem :
    (entries : List StandingsEntry)
    → Sorted leb (ids (grouped entries))
      × (((k : ℕ)
            → count k (ids (grouped entries))
              ≡ min 1 (length (filter (in_group division_of k) entries)))
          × All (IsRanked entries) (grouped entries))
unfolding grouped by_division
grouped_lem entries =
    let g = group_from division_of [] entries in
    let h = group_from-IsGrouped division_of rank_of entries in
    rw (ids-map g (sorted_keys g)) (h.0, (λ k. (h.1 k).0, map-IsRanked entries g h (sorted_keys g)))
