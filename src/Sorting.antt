-- ===== src/Sorting.antt =====
-- Array.prototype.sort with a comparator, which sorts stably, and its laws. The comparator is given
-- as the test that it is not positive.
use court_command.Prelude.{
  ◌≡◌, refl, inl, inr, Bool, true, false, List, [], ◌∷◌, arith, if◌then◌else◌, Bool-cases, if_both,
  filter, All, Ordered, All-filter, All-map,
}
use mathlib.Core.List.{Perm}
use mathlib.Core.List.Perm

module _ {A : Type 0} (le : A → A → Bool) where
  abbrev pub insert : A → List A → List A
  insert x [] = x ∷ []
  insert x (y ∷ ys) = if le x y then x ∷ y ∷ ys else y ∷ insert x ys

  abbrev pub sort : List A → List A
  sort [] = []
  sort (x ∷ xs) = insert x (sort xs)

  abbrev pub Sorted : List A → Type 0
  Sorted xs = Ordered (λ a b. le a b ≡ true) xs

  insert-perm : (x : A) (ys : List A) → Perm (insert x ys) (x ∷ ys)
  insert-perm x [] = Perm.refl (x ∷ [])
  insert-perm x (y ∷ ys) =
      if_both (λ zs. Perm zs (x ∷ y ∷ ys)) (le x y) (Perm.refl (x ∷ y ∷ ys))
        (Perm.trans (Perm.cons y (insert-perm x ys)) (Perm.swap x y ys))

  pub sort-perm : (xs : List A) → Perm (sort xs) xs
  sort-perm [] = Perm.refl []
  sort-perm (x ∷ xs) = Perm.trans (insert-perm x (sort xs)) (Perm.cons x (sort-perm xs))

  module _ (total : (a b : A) → le a b ≡ false → le b a ≡ true)
      (trans : (a b c : A) → le a b ≡ true → le b c ≡ true → le a c ≡ true) where
    insert-All :
        (z x : A) (ys : List A)
        → le z x ≡ true
        → All (λ b. le z b ≡ true) ys
        → All (λ b. le z b ≡ true) (insert x ys)
    insert-All z x [] h a = (h, tt)
    insert-All z x (y ∷ ys) h a =
        if_both (All (λ b. le z b ≡ true)) (le x y) (h, a) (a.0, insert-All z x ys h a.1)

    insert-Sorted : (x : A) (ys : List A) → Sorted ys → Sorted (insert x ys)
    insert-Sorted x [] s = (tt, tt)
    insert-Sorted x (y ∷ ys) s = elim (Bool-cases (le x y)) [
      | inl e ↦ rw e (
        (e, All-map (λ b. le y b ≡ true) (λ b. le x b ≡ true) (λ b h. trans x y b e h) ys s.0),
        s,
      )
      | inr e ↦ rw e (insert-All y x ys (total x y e) s.0, insert-Sorted x ys s.1)
    ]

    pub sort-Sorted : (xs : List A) → Sorted (sort xs)
    sort-Sorted [] = tt
    sort-Sorted (x ∷ xs) = insert-Sorted x (sort xs) (sort-Sorted xs)

    insert_front : (x : A) (ys : List A) → All (λ b. le x b ≡ true) ys → insert x ys ≡ x ∷ ys
    insert_front x [] a = refl
    insert_front x (y ∷ ys) a = rw (a.0)

    filter-insert :
        (p : A → Bool) (x : A) (ys : List A)
        → Sorted ys
        → filter p (insert x ys) ≡ (if p x then insert x (filter p ys) else filter p ys)
    filter-insert p x [] s = refl
    filter-insert p x (y ∷ ys) s = elim (Bool-cases (le x y)) [
      | inl e ↦
          let below : All (λ b. le x b ≡ true) (y ∷ ys) = (
            e,
            All-map (λ b. le y b ≡ true) (λ b. le x b ≡ true) (λ b h. trans x y b e h) ys s.0,
          ) in
          let front =
            insert_front x (filter p (y ∷ ys)) (All-filter (λ b. le x b ≡ true) p (y ∷ ys) below) in
          ground (arith, front)
      | inr e ↦ ground (arith, filter-insert p x ys s.1)
    ]

    -- Sorting and filtering commute, since the sort is stable.
    pub filter-sort : (p : A → Bool) (xs : List A) → filter p (sort xs) ≡ sort (filter p xs)
    filter-sort p [] = refl
    filter-sort p (x ∷ xs) = elim (Bool-cases (p x)) [
      | inl e ↦ ground (arith, filter-insert p x (sort xs) (sort-Sorted xs), filter-sort p xs)
      | inr e ↦ ground (arith, filter-insert p x (sort xs) (sort-Sorted xs), filter-sort p xs)
    ]
