-- ===== src/Tournaments/Bracket/Columns.antt =====
-- The columns of a bracket (web/src/features/tournaments/DivisionBracket.tsx), and their labels.
use court_command.Prelude.{
  ℕ, ◌-◌, min, ◌≡◌, refl, sym, ap, ◌∙◌, or_else, Bool, true, ◌==◌, Option, some, none, List, arith,
  leb, length, filter,
}
use court_command.Grouping.{group_from-IsGrouped, count, in_group, ranked}
use court_command.Sorting.{sort, Sorted}
use court_command.Tournaments.Bracket.{
  BracketMatch, round_of, number_of, rounds, round_keys, round_matches, RoundLabel, named, finals,
  semifinals, quarterfinals, round_number, get_round_label,
}

-- The round that a label tells, among so many rounds.
abbrev pub labelled_round : ℕ → RoundLabel → ℕ
labelled_round total (named name) = 0
labelled_round total finals = total
labelled_round total semifinals = total - 1
labelled_round total quarterfinals = total - 2
labelled_round total (round_number round) = round

-- Where no name is given, the label of a round tells which round it is, so that two rounds never
-- have the same label, even if there are fewer rounds than a round's number says.
pub label_tells_round :
    (round total : ℕ) → labelled_round total (get_round_label round total none) ≡ round
unfolding get_round_label
label_tells_round round total = ground arith

-- The round of a match is the given one, and the first for a match without one.
abbrev pub is_round : ℕ → Option ℕ → Bool
is_round k none = k == 1
is_round k (some round) = k == round

-- A match without a number comes as one numbered zero.
abbrev pub in_order : Option ℕ → Option ℕ → Bool
in_order none b = true
in_order (some m) none = m == 0
in_order (some m) (some n) = leb m n

round-eq-is_round : (k : ℕ) (o : Option ℕ) → (or_else o 1 == k) ≡ is_round k o
round-eq-is_round k none = ground arith
round-eq-is_round k (some round) = ground arith

in_group-eq-is_round : (k : ℕ) → in_group round_of k ≡ (λ m. is_round k m.round)
in_group-eq-is_round k i m = round-eq-is_round k m.round i

number-eq-in_order : (o p : Option ℕ) → leb (or_else o 0) (or_else p 0) ≡ in_order o p
number-eq-in_order none p = ground arith
number-eq-in_order (some m) none = ground arith
number-eq-in_order (some m) (some n) = refl

ranked-eq-in_order : ranked number_of ≡ (λ a b. in_order a.match_number b.match_number)
ranked-eq-in_order i a b = number-eq-in_order a.match_number b.match_number i

-- The columns stand in the order of their rounds, one for each round that a match has, the first
-- round for a match without one, and no other; a column holds the matches of its round, all of them,
-- sorted by their numbers, a match without a number as one numbered zero, those of the same number
-- in the order they came; and two columns that have no name get different labels.
pub columns_lem :
    (matches : List BracketMatch)
    → Sorted leb (round_keys matches)
      × (((k : ℕ)
            → (count k (round_keys matches)
                ≡ min 1 (length (filter (λ m. is_round k m.round) matches)))
              × (round_matches matches k
                  ≡ sort
                      (λ a b. in_order a.match_number b.match_number)
                      (filter (λ m. is_round k m.round) matches)))
          × ((j k : ℕ)
              → get_round_label j (length (round_keys matches)) none
                ≡ get_round_label k (length (round_keys matches)) none
              → j ≡ k))
unfolding round_keys rounds round_matches
columns_lem matches =
    let g = group_from-IsGrouped round_of number_of matches in
    let total = length (round_keys matches) in
    (
      g.0,
      (
        λ k. rw (← in_group-eq-is_round k, ← ranked-eq-in_order) (g.1 k),
        λ j k e.
            sym (label_tells_round j total)
            ∙ ap (labelled_round total) e
            ∙ label_tells_round k total,
      ),
    )
