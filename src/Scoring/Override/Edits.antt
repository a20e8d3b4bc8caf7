-- ===== src/Scoring/Override/Edits.antt =====
-- What an override applies (web/src/features/scoring/ScoreOverrideModal.tsx).
use Prim.Native.String.{String}
use text.Mathlib.TextEquality.{eq_iff}
use text.Mathlib.Text.{◌==◌ as str_eq}
use court_command.Prelude.Text.{trim}
use court_command.Prelude.{
  and_left, and_right, ◌≡◌, refl, sym, ap, ◌∙◌, subst, inl, inr, Bool, true, false, ◌&&◌,
  false≢true, Option, none, List, [], ◌∷◌, ◌++◌, map, arith, ltb, if◌then◌else◌, Bool-cases, all,
}
use court_command.Scoring.Match.{Match}
use court_command.Scoring.Actions.{request, Request, override_score}
use court_command.Scoring.Override.{
  Dialog, Event, GameRow, build_initial_rows, update_row, text_length, game_input, mounted,
  rendered, reset_to, submit, step, run, match_given, row_edited, reason_typed, submitted, answered,
}

-- The user edits, and matches of the same id come in while the dialog stays open.
abbrev pub stays : String → Event → Bool
stays id (match_given is_open m) = is_open && str_eq id m.public_id
stays id submitted = false
stays id _ = true

-- The edits alone, on the rows and on the reason.
pub edited_rows : List Event → List GameRow → List GameRow
unfolding update_row
edited_rows [] rows = rows
edited_rows (row_edited idx edit ∷ es) rows = edited_rows es (update_row idx edit rows)
edited_rows (_ ∷ es) rows = edited_rows es rows

pub typed_reason : List Event → String → String
typed_reason [] reason = reason
typed_reason (reason_typed text ∷ es) reason = typed_reason es text
typed_reason (_ ∷ es) reason = typed_reason es reason

abbrev opened : Match → List GameRow → String → Option String → List Request → Dialog
opened m rows reason error sent = record {
  is_open = true;
  shown_match = m;
  rows = rows;
  reason = reason;
  error = error;
  pending = false;
  sent = sent;
}

eq_of_str : (a b : String) → str_eq a b ≡ true → a ≡ b
eq_of_str a b h = ground (arith, eq_iff a b)

run-opened :
    (es : List Event) (m : Match) (rows : List GameRow) (reason : String) (error : Option String)
    (sent : List Request)
    → all (stays m.public_id) es ≡ true
    → (m' : Match) × ((run es (opened m rows reason error sent)
          ≡ opened m' (edited_rows es rows) (typed_reason es reason) error sent)
        × (m'.public_id ≡ m.public_id))
unfolding run step rendered edited_rows typed_reason
run-opened [] m rows reason error sent h = (m, (refl, refl))
run-opened (match_given false n ∷ es) m rows reason error sent h = absurd (false≢true h)
run-opened (match_given true n ∷ es) m rows reason error sent h =
    let e = and_left (str_eq m.public_id n.public_id) (all (stays m.public_id) es) h in
    let same = eq_of_str m.public_id n.public_id e in
    let rest =
      subst (λ id. all (stays id) es ≡ true) same
        (and_right (str_eq m.public_id n.public_id) (all (stays m.public_id) es) h) in
    let r = run-opened es n rows reason error sent rest in (r.0, (rw e r.1.0, r.1.1 ∙ sym same))
run-opened (row_edited idx edit ∷ es) m rows reason error sent h =
    run-opened es m (update_row idx edit rows) reason error sent h
run-opened (reason_typed text ∷ es) m rows reason error sent h =
    run-opened es m rows text error sent h
run-opened (submitted ∷ es) m rows reason error sent h = absurd (false≢true h)
run-opened (answered ∷ es) m rows reason error sent h = run-opened es m rows reason error sent h

-- The request of a submission, if the trimmed reason has ten characters.
abbrev pub applied : String → List GameRow → String → List Request
applied id rows reason =
    if ltb (text_length (trim reason)) 10
    then []
    else request id (override_score (map game_input rows) (trim reason)) ∷ []

submit-opened :
    (m : Match) (rows : List GameRow) (reason : String) (error : Option String)
    (sent : List Request)
    → (step submitted (opened m rows reason error sent)).sent
      ≡ applied m.public_id rows reason ++ sent
unfolding step submit
submit-opened m rows reason error sent = elim (Bool-cases (ltb (text_length (trim reason)) 10)) [
  | inl e ↦ rw e refl
  | inr e ↦ rw e refl
]

run-submitted :
    (es : List Event) (d : Dialog) → run (es ++ submitted ∷ []) d ≡ step submitted (run es d)
unfolding run
run-submitted [] d = refl
run-submitted (e ∷ es) d = run-submitted es (step e d)

-- A closed dialog that waits for nothing, as a render opens it.
step-opened :
    (m : Match) (d : Dialog)
    → d.is_open ≡ false
    → d.pending ≡ false
    → step (match_given true m) d ≡ opened m (build_initial_rows m) "" none d.sent
unfolding step rendered reset_to
step-opened m d h p = rw (h, p) refl

-- The dialog is mounted closed and, after whatever happened since, is closed and has no request under
-- way. Then a render opens it on a match, this one or another; the user edits rows and the reason,
-- and the match comes in again any number of times, changed as it may be but for its id. A submission
-- after that sends one more request, for that id, with the rows of the match as it was at the
-- opening, changed by the user's edits and by nothing else; or none, if the trimmed reason is shorter
-- than ten characters.
pub override_applies :
    (m0 m : Match) (before es : List Event)
    → (run before (mounted false m0)).is_open ≡ false
    → (run before (mounted false m0)).pending ≡ false
    → all (stays m.public_id) es ≡ true
    → (run (match_given true m ∷ (es ++ submitted ∷ [])) (run before (mounted false m0))).sent
      ≡ applied m.public_id (edited_rows es (build_initial_rows m)) (typed_reason es "")
        ++ (run before (mounted false m0)).sent
unfolding run
override_applies m0 m before es shut idle h =
    let d = run before (mounted false m0) in
    let rows = edited_rows es (build_initial_rows m) in
    let r = run-opened es m (build_initial_rows m) "" none d.sent h in
    ap Dialog.sent (
      ap (run (es ++ submitted ∷ [])) (step-opened m d shut idle)
      ∙ run-submitted es (opened m (build_initial_rows m) "" none d.sent)
      ∙ ap (step submitted) r.1.0)
    ∙ submit-opened r.0 rows (typed_reason es "") none d.sent
    ∙ ap (λ id. applied id rows (typed_reason es "") ++ d.sent) r.1.1
