-- ===== src/Tournaments/Wizard/Divisions.antt =====
-- What the divisions of the wizard (web/src/features/tournaments/TournamentCreate.tsx) become when one
-- is edited, and when another is removed meanwhile.
use court_command.Prelude.{
  ℕ, zero, suc, ◌≤◌, ◌≡◌, refl, ap, ◌∙◌, Bool, true, false, ◌&&◌, Option, some, List, [], ◌∷◌, ◌++◌,
  map, arith, ltb, ◌==◌, if◌then◌else◌, length, get_elem?,
}
use court_command.Prelude.Text.{is_blank}
use court_command.Tournaments.Draft.{DivisionDraft, DraftEdit, update}
use court_command.Tournaments.Wizard.{
  Wizard, replace_at, remove_at, handle_edit_division, handle_save_division, handle_remove_division,
}
use court_command.Tournaments.Wizard.Page.{
  Event, act, act_all, run, offered, division_edited, division_saved, division_removed,
  draft_changed,
}

pub get_elem?-replace_at :
    {A : Type 0} (i : ℕ) (y : A) (xs : List A) (j : ℕ)
    → get_elem? (replace_at i y xs) j
      ≡ (if j == i && ltb j (length xs) then some y else get_elem? xs j)
get_elem?-replace_at i y [] j = ground arith
get_elem?-replace_at zero y (x ∷ xs) zero = ground arith
get_elem?-replace_at zero y (x ∷ xs) (suc j) = ground arith
get_elem?-replace_at (suc i) y (x ∷ xs) zero = ground arith
get_elem?-replace_at (suc i) y (x ∷ xs) (suc j) = get_elem?-replace_at i y xs j ∙ ground arith

pub get_elem?-remove_at :
    {A : Type 0} (i : ℕ) (xs : List A) (j : ℕ)
    → get_elem? (remove_at i xs) j ≡ (if ltb j i then get_elem? xs j else get_elem? xs (suc j))
get_elem?-remove_at i [] j = ground arith
get_elem?-remove_at zero (x ∷ xs) zero = ground arith
get_elem?-remove_at zero (x ∷ xs) (suc j) = ground arith
get_elem?-remove_at (suc i) (x ∷ xs) zero = ground arith
get_elem?-remove_at (suc i) (x ∷ xs) (suc j) = get_elem?-remove_at i xs j ∙ ground arith

length-get_elem? :
    {A : Type 0} (xs : List A) (i : ℕ) {x : A} → get_elem? xs i ≡ some x → ltb i (length xs) ≡ true
length-get_elem? [] i e = ground arith
length-get_elem? (y ∷ xs) zero e = ground arith
length-get_elem? (y ∷ xs) (suc i) e = ground (arith, length-get_elem? xs i e)

-- The edits of a draft, one after the other.
abbrev pub update_all : List DraftEdit → DivisionDraft → DivisionDraft
update_all [] d = d
update_all (edit ∷ edits) d = update_all edits (update edit d)

abbrev pub typed : List DraftEdit → List Event
typed edits = map draft_changed edits ++ division_saved ∷ []

-- The wizard at the divisions, with one of them in the form.
abbrev editing : ℕ → DivisionDraft → Wizard → Wizard
editing i d w = record w {
  step = 1;
  division_draft = d;
  editing_division_index = some i;
  show_division_form = true;
}

typed-divisions :
    (season_of : ℕ → ℕ → Bool) (edits : List DraftEdit) (w : Wizard) (i : ℕ) (d : DivisionDraft)
    → is_blank (update_all edits d).name ≡ false
    → (act_all season_of (typed edits) (editing i d w)).divisions
      ≡ replace_at i (update_all edits d) w.divisions
unfolding act_all act run offered handle_save_division
typed-divisions season_of [] w i d b = rw b refl
typed-divisions season_of (edit ∷ edits) w i d b =
    typed-divisions season_of edits w i (update edit d) b

edit_opens :
    (season_of : ℕ → ℕ → Bool) (w : Wizard) (i : ℕ) (d : DivisionDraft)
    → w.step ≡ 1
    → get_elem? w.divisions i ≡ some d
    → act season_of (division_edited i) w ≡ editing i d w
unfolding act run offered handle_edit_division
edit_opens season_of w i d z e = rw (z, length-get_elem? w.divisions i e, e) refl

at_place : (j i n : ℕ) → ltb i n ≡ true → (j == i && ltb j n) ≡ (j == i)
at_place j i n h = ground arith

-- At the divisions, editing the one at a place, making any edits of its form that leave the name not
-- blank, and saving changes that division as the edits say, and no other.
pub edit_then_save :
    (season_of : ℕ → ℕ → Bool) (w : Wizard) (i : ℕ) (d : DivisionDraft) (edits : List DraftEdit)
    (j : ℕ)
    → w.step ≡ 1
    → get_elem? w.divisions i ≡ some d
    → is_blank (update_all edits d).name ≡ false
    → get_elem? (act_all season_of (division_edited i ∷ typed edits) w).divisions j
      ≡ (if j == i then some (update_all edits d) else get_elem? w.divisions j)
unfolding act_all
edit_then_save season_of w i d edits j z e b =
    ap (λ v. get_elem? (act_all season_of (typed edits) v).divisions j)
      (edit_opens season_of w i d z e)
    ∙ ap (λ ds. get_elem? ds j) (typed-divisions season_of edits w i d b)
    ∙ get_elem?-replace_at i (update_all edits d) w.divisions j
    ∙ ap (λ c. if c then some (update_all edits d) else get_elem? w.divisions j)
        (at_place j i (length w.divisions) (length-get_elem? w.divisions i e))

remove_stays :
    (season_of : ℕ → ℕ → Bool) (w : Wizard) (i k : ℕ) (d : DivisionDraft)
    → ltb k (length w.divisions) ≡ true
    → act season_of (division_removed k) (editing i d w)
      ≡ editing i d (record w { divisions = remove_at k w.divisions })
unfolding act run offered handle_remove_division
remove_stays season_of w i k d l = rw l refl

removed_at :
    {A : Type 0} (i k : ℕ) (c : Bool) (x y z : Option A)
    → k ≤ i
    → (if i == suc i && c then x else if ltb i k then y else z) ≡ z
removed_at i k c x y z l = ground arith

before_in_range : (k i n : ℕ) → k ≤ i → ltb (suc i) n ≡ true → ltb k n ≡ true
before_in_range k i n l h = ground arith

-- Of the divisions, the one at a place is edited; one before it is removed while the form is open; the
-- form is then edited and saved. The edited division stays as it was, one place further to the front,
-- and the draft stands in the place of the division that followed it, if there is one, and nowhere
-- else: each other place has what the removal left there.
pub remove_while_editing :
    (season_of : ℕ → ℕ → Bool) (w : Wizard) (i k : ℕ) (d : DivisionDraft) (edits : List DraftEdit)
    → w.step ≡ 1
    → get_elem? w.divisions (suc i) ≡ some d
    → k ≤ i
    → is_blank (update_all edits d).name ≡ false
    → let after =
        (act_all season_of
          (division_edited (suc i) ∷ division_removed k ∷ typed edits)
          w).divisions in
      (get_elem? after i ≡ some d)
      × ((j : ℕ)
          → get_elem? after j ≡ (
              if j == suc i && ltb j (length (remove_at k w.divisions))
              then some (update_all edits d)
              else if ltb j k
              then get_elem? w.divisions j
              else get_elem? w.divisions (suc j)))
unfolding act_all
remove_while_editing season_of w i k d edits z e l b =
    let in_range = length-get_elem? w.divisions (suc i) e in
    let places : (j : ℕ) → _ = λ j.
      ap (λ v. get_elem? (act_all season_of (division_removed k ∷ typed edits) v).divisions j)
        (edit_opens season_of w (suc i) d z e)
      ∙ ap (λ v. get_elem? (act_all season_of (typed edits) v).divisions j)
          (remove_stays season_of w (suc i) k d
            (before_in_range k i (length w.divisions) l in_range))
      ∙ ap (λ ds. get_elem? ds j)
          (typed-divisions season_of edits (record w { divisions = remove_at k w.divisions })
            (suc i) d b)
      ∙ get_elem?-replace_at (suc i) (update_all edits d) (remove_at k w.divisions) j
      ∙ ap
          (λ x.
            if j == suc i && ltb j (length (remove_at k w.divisions))
            then some (update_all edits d)
            else x)
          (get_elem?-remove_at k w.divisions j) in
    (
      places i
          ∙ removed_at i k (ltb i (length (remove_at k w.divisions))) (some (update_all edits d))
              (get_elem? w.divisions i) (get_elem? w.divisions (suc i)) l
          ∙ e,
      places,
    )
