-- ===== src/Overlay/Tv/Kiosk.antt =====
-- The slides of a tournament's TV (web/src/features/overlay/tv/TVKioskBracket.tsx), over any type of
-- divisions. Of the courts it reads how many there are.
use court_command.Prelude.{
  get_elem?-lt, ℕ, zero, suc, ◌*◌, ◌<◌, ◌≡◌, refl, ap, ◌∙◌, false, Option, none, some, List, [],
  ◌∷◌, ◌++◌, map, arith, length, get_elem?,
}
use court_command.Overlay.Tv.{Options, natural, mounted, steps}
use court_command.Overlay.Tv.Cycle.{fires, every_slide_shown}

pub data Slide (D : Type 0) : Type 0 where
  hero courts : Slide D
  division : D → Slide D

module _ {D : Type 0} where
  abbrev pub court_slides : ℕ → List (Slide D)
  court_slides zero = []
  court_slides (suc n) = courts ∷ []

  pub slides : List D → ℕ → List (Slide D)
  slides divisions court_count = hero ∷ (map division divisions ++ court_slides court_count)

  -- The options given to the rotation, which starts at the first slide and is never paused.
  pub rotation_options : List (Slide D) → ℕ → Options
  rotation_options list cycle_seconds = record {
    count = length list;
    interval_ms = cycle_seconds * 1000;
    paused = false;
  }

  -- `slides[index] ?? slides[0]`.
  abbrev pub first_unless : Option (Slide D) → List (Slide D) → Option (Slide D)
  first_unless none list = get_elem? list 0
  first_unless (some slide) list = some slide

  pub active : List (Slide D) → ℕ → Option (Slide D)
  active list index = first_unless (get_elem? list index) list

  mapped : Option D → Option (Slide D)
  mapped none = none
  mapped (some d) = some (division d)

  get_elem?-division :
      (divisions : List D) (rest : List (Slide D)) (i : ℕ) (d : D)
      → get_elem? divisions i ≡ some d
      → get_elem? (map division divisions ++ rest) i ≡ some (division d)
  unfolding mapped
  get_elem?-division [] rest i d e = ground arith
  get_elem?-division (x ∷ divisions) rest zero d e = ap (λ o. mapped o) e
  get_elem?-division (x ∷ divisions) rest (suc i) d e = get_elem?-division divisions rest i d e

  -- Each division has its slide shown, after fewer turns than there are slides, if the slides stay.
  pub every_division_shown :
      (divisions : List D) (court_count cycle_seconds now i : ℕ) (d : D)
      → get_elem? divisions i ≡ some d
      → (k : ℕ) × ((k < length (slides divisions court_count))
          × (active
                (slides divisions court_count)
                (steps (fires k) (
                  mounted
                    (rotation_options (slides divisions court_count) cycle_seconds)
                    (natural 0)
                    now)).index
              ≡ some (division d)))
  unfolding slides active rotation_options
  every_division_shown divisions court_count cycle_seconds now i d e =
      let list = slides divisions court_count in
      let found = get_elem?-division divisions (court_slides court_count) i d e in
      let in_range =
        get_elem?-lt (map division divisions ++ court_slides court_count) i (division d) found in
      let shown =
        every_slide_shown (rotation_options list cycle_seconds) (natural 0) now (suc i) refl
          (omega (arith, in_range)) (omega (arith, in_range)) in
      (shown.0, (shown.1.0, ap (active list) shown.1.1.0 ∙ ap (λ o. first_unless o list) found))
