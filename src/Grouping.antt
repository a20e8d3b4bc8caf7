-- ===== src/Grouping.antt =====
-- Items grouped under a number and each group put in order, as the brackets
-- (web/src/features/tournaments/DivisionBracket.tsx, web/src/features/overlay/tv/TVKioskBracket.tsx)
-- and the standings (web/src/features/leagues/StandingsView.tsx) do: an object or a Map of arrays is
-- the list of its entries. The keys are sorted by the code, so the order of the entries is not seen.
use court_command.Prelude.{
  append_assoc, append-nil, ℕ, suc, min, max, ◌≡◌, refl, sym, ap, ◌∙◌, inl, inr, Bool, true, false,
  List, [], ◌∷◌, ◌++◌, arith, leb, ◌==◌, if◌then◌else◌, Bool-cases, length, filter,
}
use court_command.Sorting.{sort, insert, sort-Sorted, Sorted}

module _ {A : Type 0} where
  -- The item goes to the end of the array under the key, which is made when it is missing.
  pub push : ℕ → A → List (ℕ × List A) → List (ℕ × List A)
  push k a [] = (k, a ∷ []) ∷ []
  push k a ((j, items) ∷ rest) =
      let deeper = push k a rest in
      if j == k then (j, items ++ a ∷ []) ∷ rest else (j, items) ∷ deeper

  pub group_from : (A → ℕ) → List (ℕ × List A) → List A → List (ℕ × List A)
  unfolding push
  group_from key groups [] = groups
  group_from key groups (a ∷ items) = group_from key (push (key a) a groups) items

  abbrev pub keys : List (ℕ × List A) → List ℕ
  keys [] = []
  keys ((k, items) ∷ rest) = k ∷ keys rest

  -- `groups[k]`, empty where the key is missing.
  pub group_at : ℕ → List (ℕ × List A) → List A
  group_at k [] = []
  group_at k ((j, items) ∷ rest) = let deeper = group_at k rest in if j == k then items else deeper

  pub sorted_keys : List (ℕ × List A) → List ℕ
  sorted_keys groups = sort leb (keys groups)

  -- The comparator `rank(a) - rank(b)` is not positive.
  abbrev pub ranked : (A → ℕ) → A → A → Bool
  ranked rank a b = leb (rank a) (rank b)

  abbrev pub in_group : (A → ℕ) → ℕ → A → Bool
  in_group key k a = key a == k

abbrev pub count : ℕ → List ℕ → ℕ
count k [] = 0
count k (x ∷ xs) = if x == k then suc (count k xs) else count k xs

module _ {A : Type 0} where
  group_at-push :
      (k j : ℕ) (a : A) (g : List (ℕ × List A))
      → group_at k (push j a g) ≡ (if j == k then group_at k g ++ a ∷ [] else group_at k g)
  unfolding group_at push
  group_at-push k j a [] = ground arith
  group_at-push k j a ((i, items) ∷ rest) = ground (arith, group_at-push k j a rest)

  group_at-group_from :
      (key : A → ℕ) (k : ℕ) (g : List (ℕ × List A)) (xs : List A)
      → group_at k (group_from key g xs) ≡ group_at k g ++ filter (in_group key k) xs
  unfolding group_from
  group_at-group_from key k g [] = sym (append-nil (group_at k g))
  group_at-group_from key k g (x ∷ xs) =
      group_at-group_from key k (push (key x) x g) xs
      ∙ ap (λ r. r ++ filter (in_group key k) xs) (group_at-push k (key x) x g)
      ∙ elim (Bool-cases (key x == k)) [
        | inl e ↦ rw e (append_assoc (group_at k g) (x ∷ []) (filter (in_group key k) xs))
        | inr e ↦ rw e refl
      ]

  count-push :
      (k j : ℕ) (a : A) (g : List (ℕ × List A))
      → count k (keys (push j a g))
        ≡ (if j == k then max 1 (count k (keys g)) else count k (keys g))
  unfolding push
  count-push k j a [] = ground arith
  count-push k j a ((i, items) ∷ rest) = ground (arith, count-push k j a rest)

count-insert : (k x : ℕ) (ys : List ℕ) → count k (insert leb x ys) ≡ count k (x ∷ ys)
count-insert k x [] = refl
count-insert k x (y ∷ ys) = ground (arith, count-insert k x ys)

count-sort : (k : ℕ) (xs : List ℕ) → count k (sort leb xs) ≡ count k xs
count-sort k [] = refl
count-sort k (x ∷ xs) = count-insert k x (sort leb xs) ∙ ground (arith, count-sort k xs)

once_more : (c n : ℕ) → max (max 1 c) (min 1 n) ≡ max c (min 1 (suc n))
once_more c n = omega arith

or_zero : (n : ℕ) → max 0 n ≡ n
or_zero n = omega arith

leb_total : (a b : ℕ) → leb a b ≡ false → leb b a ≡ true
leb_total a b h = ground arith

leb_trans : (a b c : ℕ) → leb a b ≡ true → leb b c ≡ true → leb a c ≡ true
leb_trans a b c h k = ground arith

module _ {A : Type 0} where
  -- A group as it is shown.
  abbrev pub column : (A → ℕ) → List (ℕ × List A) → ℕ → List A
  column rank groups k = sort (ranked rank) (group_at k groups)

  count-group_from :
      (key : A → ℕ) (k : ℕ) (g : List (ℕ × List A)) (xs : List A)
      → count k (keys (group_from key g xs))
        ≡ max (count k (keys g)) (min 1 (length (filter (in_group key k) xs)))
  unfolding group_from
  count-group_from key k g [] = omega arith
  count-group_from key k g (x ∷ xs) =
      count-group_from key k (push (key x) x g) xs
      ∙ ap (λ n. max n (min 1 (length (filter (in_group key k) xs)))) (count-push k (key x) x g)
      ∙ elim (Bool-cases (key x == k)) [
        | inl e ↦ rw e (once_more (count k (keys g)) (length (filter (in_group key k) xs)))
        | inr e ↦ rw e refl
      ]

  -- The groups: their keys stand in ascending order, each key that an item has once and no other; and
  -- the group under a key is the items of that key, sorted by their rank.
  abbrev pub IsGrouped : (A → ℕ) → (A → ℕ) → List A → List (ℕ × List A) → Type 0
  IsGrouped key rank xs g =
      Sorted leb (sorted_keys g)
      × ((k : ℕ)
          → (count k (sorted_keys g) ≡ min 1 (length (filter (in_group key k) xs)))
            × (column rank g k ≡ sort (ranked rank) (filter (in_group key k) xs)))

  pub group_from-IsGrouped :
      (key rank : A → ℕ) (xs : List A) → IsGrouped key rank xs (group_from key [] xs)
  unfolding sorted_keys group_at
  group_from-IsGrouped key rank xs = (
    sort-Sorted leb leb_total leb_trans (keys (group_from key [] xs)),
    λ k. (
      count-sort k (keys (group_from key [] xs))
          ∙ count-group_from key k [] xs
          ∙ or_zero (min 1 (length (filter (in_group key k) xs))),
      ap (sort (ranked rank)) (group_at-group_from key k [] xs),
    ),
  )
