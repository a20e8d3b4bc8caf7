-- ===== src/Overlay/Sources/Tab/Modes.antt =====
-- That a change of mode reaches the mode chosen
-- (web/src/features/overlay/controls/SourceTab.tsx).
use court_command.Prelude.{
  ◌≡◌, refl, sym, subst, ◌≢◌, inl, inr, true, false, false≢true, Option, none, some, List, [], ◌∷◌,
  arith, Bool-cases, Option-cases, any, In,
}
use court_command.Prelude.Integers.{ℤ}
use court_command.Overlay.Sources.{
  WireNumber, absent, plain, wrapped, SourceProfile, normalize_source_profile_id,
}
use court_command.Overlay.Sources.Tab.{
  Mode, internal, external, normalize_profile_id, mode_of, same_mode, first_active, Change,
  unchanged, warned, bind, bind_first, change_to, handle_mode_change,
}

-- The tab reads a binding as the helper of types.ts does.
pub normalize_profile_id_lem :
    (v : WireNumber) → normalize_profile_id v ≡ normalize_source_profile_id v
unfolding normalize_profile_id normalize_source_profile_id
normalize_profile_id_lem absent = refl
normalize_profile_id_lem (plain v) = refl
normalize_profile_id_lem (wrapped value valid) = refl

-- A profile that is bound is an active one of the list.
abbrev pub IsOffered : Option ℤ → List SourceProfile → Type 0
IsOffered none profiles = Unit
IsOffered (some id) profiles =
    (p : SourceProfile) × (In p profiles × ((p.is_active ≡ true) × (p.id ≡ id)))

-- What a change of mode must come to, given the mode before it and whether a profile is active.
abbrev pub Reaches : Mode → WireNumber → List SourceProfile → Change → Type 0
Reaches next binding profiles unchanged = mode_of (normalize_profile_id binding) ≡ next
Reaches next binding profiles warned =
    (next ≡ external)
    × ((mode_of (normalize_profile_id binding) ≡ internal)
        × (any SourceProfile.is_active profiles ≡ false))
Reaches next binding profiles (bind id) =
    (mode_of id ≡ next) × ((mode_of (normalize_profile_id binding) ≢ next) × IsOffered id profiles)

same_mode→eq : (a b : Mode) → same_mode a b ≡ true → b ≡ a
unfolding same_mode
same_mode→eq internal internal h = refl
same_mode→eq external external h = refl
same_mode→eq internal external h = absurd (false≢true h)
same_mode→eq external internal h = absurd (false≢true h)

IsInternal : Mode → Type 0
IsInternal internal = Unit
IsInternal external = ⊥

not_same_mode : (a b : Mode) → same_mode a b ≡ false → b ≢ a
unfolding same_mode IsInternal
not_same_mode internal internal h = absurd (false≢true (sym h))
not_same_mode external external h = absurd (false≢true (sym h))
not_same_mode internal external h = λ e. subst IsInternal (sym e) tt
not_same_mode external internal h = λ e. subst IsInternal e tt

none_active :
    (ps : List SourceProfile) → first_active ps ≡ none → any SourceProfile.is_active ps ≡ false
unfolding first_active
none_active [] h = refl
none_active (p ∷ ps) h = elim (Bool-cases p.is_active) [
  | inl e ↦ ground (arith, rw e at h)
  | inr e ↦ rw e (none_active ps (rw e at h))
]

first_active-In :
    (ps : List SourceProfile) (p : SourceProfile)
    → first_active ps ≡ some p
    → In p ps × (p.is_active ≡ true)
unfolding first_active
first_active-In [] p h = ground arith
first_active-In (q ∷ ps) p h = elim (Bool-cases q.is_active) [
  | inl e ↦
      let same : q ≡ p = ground (arith, rw e at h) in
      (inl (sym same), subst (λ s. s.is_active ≡ true) same e)
  | inr e ↦ let (deep, active) = first_active-In ps p (rw e at h) in (inr deep, active)
]

change-Reaches :
    (next : Mode) (v : WireNumber) (ps : List SourceProfile)
    → mode_of (normalize_profile_id v) ≢ next
    → Reaches next v ps (change_to next ps)
unfolding change_to mode_of bind_first
change-Reaches internal v ps h = (refl, (h, tt))
change-Reaches external v ps h = elim (Option-cases (first_active ps)) [
  | inl e ↦ rw e (refl, (other (mode_of (normalize_profile_id v)) h, none_active ps e))
  | inr (p, e) ↦
      let (deep, active) = first_active-In ps p e in rw e (refl, (h, (p, (deep, (active, refl)))))
]
  where
    other : (m : Mode) → m ≢ external → m ≡ internal
    other internal h = refl
    other external h = absurd (h refl)

-- A click on a mode that is shown changes nothing. A click on the other one sends a binding that is
-- read as that mode: none for the internal one, and for the external one the id of an active profile
-- of the list; or, if none of them is active, it sends nothing and warns.
pub mode_change_lem :
    (next : Mode) (v : WireNumber) (ps : List SourceProfile)
    → Reaches next v ps (handle_mode_change next v ps)
unfolding handle_mode_change
mode_change_lem next v ps =
    let m = mode_of (normalize_profile_id v) in
    elim (Bool-cases (same_mode next m)) [
      | inl e ↦ rw e (same_mode→eq next m e)
      | inr e ↦ rw e (change-Reaches next v ps (not_same_mode next m e))
    ]
