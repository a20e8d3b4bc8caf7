-- ===== src/Prelude/Members.antt =====
-- Predicates over lists by recursion: all elements, membership, distinctness, order.
use mathlib.Core.Path.{◌≡◌, sym, subst}
use mathlib.Core.Logic.{◌⊎◌, inl, inr}
use mathlib.Core.Bool.{Bool, true}
use mathlib.Core.List.{List, [], ◌∷◌, ◌++◌, map}
use court_command.Prelude.Tests.{Bool-cases}
use court_command.Prelude.Lists.{filter}

abbrev pub All {ℓ κ} : {A : Type ℓ} → (A → Type κ) → List A → Type κ
All P [] = Unit
All P (x ∷ xs) = P x × All P xs

-- Membership, with its position kept.
abbrev pub In : {A : Type 0} → A → List A → Type 0
In a [] = ⊥
In a (x ∷ xs) = (a ≡ x) ⊎ In a xs

-- Each element stands in the relation to all that follow it.
abbrev pub Ordered {ℓ} : {A : Type 0} → (A → A → Type ℓ) → List A → Type ℓ
Ordered R [] = Unit
Ordered R (x ∷ xs) = All (R x) xs × Ordered R xs

module _ {ℓ κ} {A : Type ℓ} (P : A → Type κ) where
  pub All-filter : (p : A → Bool) (xs : List A) → All P xs → All P (filter p xs)
  All-filter p [] h = tt
  All-filter p (x ∷ xs) h = elim (Bool-cases (p x)) [
    | inl e ↦ rw e (h.0, All-filter p xs h.1)
    | inr e ↦ rw e (All-filter p xs h.1)
  ]

module _ {ℓ κ} {A : Type ℓ} (P : A → Type κ) where
  pub All-append : (xs ys : List A) → All P xs → All P ys → All P (xs ++ ys)
  All-append [] ys h k = k
  All-append (x ∷ xs) ys h k = (h.0, All-append xs ys h.1 k)

module _ {ℓ} {A : Type 0} (R : A → A → Type ℓ) where
  pub Ordered-filter : (p : A → Bool) (xs : List A) → Ordered R xs → Ordered R (filter p xs)
  Ordered-filter p [] h = tt
  Ordered-filter p (x ∷ xs) h = elim (Bool-cases (p x)) [
    | inl e ↦ rw e (All-filter (R x) p xs h.0, Ordered-filter p xs h.1)
    | inr e ↦ rw e (Ordered-filter p xs h.1)
  ]

module _ {A : Type 0} where
  pub In-filter : (p : A → Bool) (a : A) (xs : List A) → In a xs → p a ≡ true → In a (filter p xs)
  In-filter p a [] m h = m
  In-filter p a (x ∷ xs) (inl e) h = rw (rw e at h) (inl e)
  In-filter p a (x ∷ xs) (inr m) h = elim (Bool-cases (p x)) [
    | inl e ↦ rw e (inr (In-filter p a xs m h))
    | inr e ↦ rw e (In-filter p a xs m h)
  ]

  pub In-of_filter :
      (p : A → Bool) (a : A) (xs : List A) → In a (filter p xs) → In a xs × (p a ≡ true)
  In-of_filter p a [] m = absurd m
  In-of_filter p a (x ∷ xs) m = elim (Bool-cases (p x)) [
    | inl e ↦ from_head e (In-of_filter p a xs) (rw e at m)
    | inr e ↦ let (deep, kept) = In-of_filter p a xs (rw e at m) in (inr deep, kept)
  ]
    where
      from_head :
          p x ≡ true
          → (In a (filter p xs) → In a xs × (p a ≡ true))
          → In a (x ∷ filter p xs)
          → In a (x ∷ xs) × (p a ≡ true)
      from_head e deeper (inl same) = (inl same, rw same e)
      from_head e deeper (inr later) = let (deep, kept) = deeper later in (inr deep, kept)

module _ {A : Type 0} {B : Type 0} where
  pub In-map : (f : A → B) (a : A) (xs : List A) → In a xs → In (f a) (map f xs)
  In-map f a [] m = absurd m
  In-map f a (x ∷ xs) (inl e) = inl (rw e)
  In-map f a (x ∷ xs) (inr m) = inr (In-map f a xs m)

module _ {ℓ κ} {A : Type ℓ} (P Q : A → Type κ) where
  pub All-map : ((a : A) → P a → Q a) → (xs : List A) → All P xs → All Q xs
  All-map f [] h = tt
  All-map f (x ∷ xs) h = (f x h.0, All-map f xs h.1)

module _ {ℓ} {A : Type 0} (P : A → Type ℓ) where
  pub All-In : (a : A) (xs : List A) → All P xs → In a xs → P a
  All-In a [] h m = absurd m
  All-In a (x ∷ xs) h (inl e) = subst P (sym e) h.0
  All-In a (x ∷ xs) h (inr m) = All-In a xs h.1 m

module _ {ℓ} {A : Type 0} (R S : A → A → Type ℓ) where
  pub Ordered-map : ((a b : A) → R a b → S a b) → (xs : List A) → Ordered R xs → Ordered S xs
  Ordered-map f [] h = tt
  Ordered-map f (x ∷ xs) h = (All-map (R x) (S x) (f x) xs h.0, Ordered-map f xs h.1)
