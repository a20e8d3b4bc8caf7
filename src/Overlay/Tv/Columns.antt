-- ===== src/Overlay/Tv/Columns.antt =====
-- The columns of a bracket on a TV
-- (web/src/features/overlay/tv/TVKioskBracket.tsx).
use court_command.Prelude.{
  ℕ, min, ◌≡◌, refl, ap, Option, List, [], ◌∷◌, map, leb, or_else, length, filter, All,
}
use court_command.Grouping.{
  group_from, IsGrouped, group_from-IsGrouped, sorted_keys, column, count, in_group, ranked,
}
use court_command.Sorting.{sort, Sorted}

-- Of a match the columns read these.
pub record KioskBracketMatch : Type 0 where
  pub id : ℕ
  pub round : Option ℕ
  pub match_number : Option ℕ
  pub position : Option ℕ

abbrev pub round_of : KioskBracketMatch → ℕ
round_of m = or_else m.round 0

abbrev pub place_of : KioskBracketMatch → ℕ
place_of m = or_else m.match_number (or_else m.position 0)

pub by_round : List KioskBracketMatch → List (ℕ × List KioskBracketMatch)
by_round rows = group_from round_of [] rows

-- The columns of `BracketColumns`: a round with its matches.
pub bracket_columns : List KioskBracketMatch → List (ℕ × List KioskBracketMatch)
unfolding by_round
bracket_columns rows =
    map (λ r. (r, column place_of (by_round rows) r)) (sorted_keys (by_round rows))

abbrev pub shown_rounds : List (ℕ × List KioskBracketMatch) → List ℕ
shown_rounds [] = []
shown_rounds (c ∷ cs) = c.0 ∷ shown_rounds cs

-- What a column must hold.
abbrev pub IsColumn : List KioskBracketMatch → ℕ × List KioskBracketMatch → Type 0
IsColumn rows c = c.1 ≡ sort (ranked place_of) (filter (in_group round_of c.0) rows)

shown_rounds-map :
    (f : ℕ → List KioskBracketMatch) (ks : List ℕ) → shown_rounds (map (λ r. (r, f r)) ks) ≡ ks
shown_rounds-map f [] = refl
shown_rounds-map f (k ∷ ks) = ap (λ r. k ∷ r) (shown_rounds-map f ks)

columns-map :
    (rows : List KioskBracketMatch) (groups : List (ℕ × List KioskBracketMatch))
    → IsGrouped round_of place_of rows groups
    → (ks : List ℕ) → All (IsColumn rows) (map (λ r. (r, column place_of groups r)) ks)
columns-map rows groups h [] = tt
columns-map rows groups h (k ∷ ks) = ((h.1 k).1, columns-map rows groups h ks)

-- The TV shows the rounds in their order, each that a match has exactly once (round 0 for a match
-- without one), with the matches of that round, all of them, sorted by their numbers.
pub bracket_columns_lem :
    (rows : List KioskBracketMatch)
    → Sorted leb (shown_rounds (bracket_columns rows))
      × (((k : ℕ)
            → count k (shown_rounds (bracket_columns rows))
              ≡ min 1 (length (filter (in_group round_of k) rows)))
          × All (IsColumn rows) (bracket_columns rows))
unfolding bracket_columns by_round
bracket_columns_lem rows =
    let g = group_from round_of [] rows in
    let h = group_from-IsGrouped round_of place_of rows in
    rw (shown_rounds-map (column place_of g) (sorted_keys g))
      (h.0, (λ k. (h.1 k).0, columns-map rows g h (sorted_keys g)))
