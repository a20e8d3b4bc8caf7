-- ===== src/Prelude/Maps.antt =====
-- Objects whose keys are texts, as lists of entries in the order of their insertion.
use Prim.Native.String.{String}
use mathlib.Core.Path.{◌≡◌, refl}
use mathlib.Core.Logic.{inl, inr}
use mathlib.Core.Bool.{true, false, not}
use mathlib.Core.Option.{Option, none, some}
use mathlib.Core.List.{List, [], ◌∷◌}
use court_command.Prelude.Tests.{if◌then◌else◌, Bool-cases}
use court_command.Prelude.Lists.{filter}
use court_command.Prelude.Text.{same_text, same_text_refl, same_text→eq}

abbrev pub TextMap {ℓ} : Type ℓ → Type ℓ
TextMap V = List (String × V)

module _ {ℓ} {V : Type ℓ} where
  -- `{ ...m, [key]: value }`.
  unfoldable pub set_key : String → V → TextMap V → TextMap V
  set_key key value [] = (key, value) ∷ []
  set_key key value ((k, v) ∷ rest) =
      let deeper = set_key key value rest in
      if same_text k key then (k, value) ∷ rest else (k, v) ∷ deeper

  -- `delete m[key]`.
  unfoldable pub delete_key : String → TextMap V → TextMap V
  delete_key key m = filter (λ e. not (same_text e.0 key)) m

  -- `m[key]`.
  unfoldable pub get_key : String → TextMap V → Option V
  get_key key [] = none
  get_key key ((k, v) ∷ rest) = if same_text k key then some v else get_key key rest

-- Of two keys that differ, a text is one of them at most.
not_both : (k a b : String) → same_text a b ≡ false → same_text k a ≡ true → same_text k b ≡ false
not_both k a b h e = rw (same_text→eq k a e) h

module _ {ℓ} {V : Type ℓ} where
  pub get-set :
      (key : String) (value : V) (m : TextMap V) → get_key key (set_key key value m) ≡ some value
  unfolding set_key get_key
  get-set key value [] = rw (same_text_refl key) refl
  get-set key value ((k, v) ∷ rest) = elim (Bool-cases (same_text k key)) [
    | inl e ↦ rw e (rw e refl)
    | inr e ↦ rw e (rw e (get-set key value rest))
  ]

  pub get-set_other :
      (key other : String) (value : V) (m : TextMap V)
      → same_text key other ≡ false
      → get_key other (set_key key value m) ≡ get_key other m
  unfolding set_key get_key
  get-set_other key other value [] h = rw h refl
  get-set_other key other value ((k, v) ∷ rest) h = elim (Bool-cases (same_text k key)) [
    | inl e ↦ rw (e, not_both k key other h e) refl
    | inr e ↦ elim (Bool-cases (same_text k other)) [
      | inl o ↦ rw (e, o) refl
      | inr o ↦ rw (e, o) (get-set_other key other value rest h)
    ]
  ]

  pub get-delete : (key : String) (m : TextMap V) → get_key key (delete_key key m) ≡ none
  unfolding delete_key get_key
  get-delete key [] = refl
  get-delete key ((k, v) ∷ rest) = elim (Bool-cases (same_text k key)) [
    | inl e ↦ rw e (get-delete key rest)
    | inr e ↦ rw e (rw e (get-delete key rest))
  ]

  pub get-delete_other :
      (key other : String) (m : TextMap V)
      → same_text key other ≡ false
      → get_key other (delete_key key m) ≡ get_key other m
  unfolding delete_key get_key
  get-delete_other key other [] h = refl
  get-delete_other key other ((k, v) ∷ rest) h = elim (Bool-cases (same_text k key)) [
    | inl e ↦ rw (e, not_both k key other h e) (get-delete_other key other rest h)
    | inr e ↦ elim (Bool-cases (same_text k other)) [
      | inl o ↦ rw (e, o) refl
      | inr o ↦ rw (e, o) (get-delete_other key other rest h)
    ]
  ]
