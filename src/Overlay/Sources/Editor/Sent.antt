-- ===== src/Overlay/Sources/Editor/Sent.antt =====
-- What the editor of source profiles sends
-- (web/src/features/overlay/profiles/SourceProfileEditor.tsx).
use court_command.Prelude.{and_left, and_right}
use court_command.Prelude.{
  ◌≡◌, refl, inl, inr, true, false, not, ◌&&◌, false≢true, Option, none, some, List, [], ◌∷◌, arith,
  Bool-cases, if_both, All, All-append,
}
use court_command.Prelude.Text.{trim, is_empty}
use court_command.Prelude.Integers.{ℤ}
use court_command.Overlay.Sources.{
  SourceType, court_command_match, rest_api, webhook, is_rest, is_webhook,
}
use court_command.Overlay.Sources.Editor.{
  Form, payload, FormError, validate, Request, create_profile, update_profile, test_connection,
  Editor, opened, save_request, on_save, on_test, test_enabled, save_answered, test_answered, Event,
  edited, save_clicked, test_clicked, cancel_clicked, save_result, test_failed, test_done, step,
  run,
}
use court_command.Overlay.Sources.Editor.Shape.{
  HasUrl, IsWellTyped, trim-IsGiven, or_null-given, validate-IsWellTyped,
}

-- A profile that is saved has the fields of its type; one that is tested is polled at a URL.
abbrev pub IsSound : Request → Type 0
IsSound (create_profile i) = IsWellTyped i
IsSound (update_profile id i) = IsWellTyped i
IsSound (test_connection i) = (i.source_type ≡ rest_api) × (HasUrl i × (i.webhook_secret ≡ none))

-- The requests of one step.
save_request-IsSound :
    (f : Form) (id : Option ℤ) → validate f ≡ [] → IsSound (save_request id (payload f))
unfolding save_request
save_request-IsSound f none h = validate-IsWellTyped f h
save_request-IsSound f (some id) h = validate-IsWellTyped f h

on_save-IsSound :
    (errors : List FormError) (ed : Editor)
    → validate ed.form ≡ errors
    → All IsSound ed.sent
    → All IsSound (on_save errors ed).sent
unfolding on_save
on_save-IsSound [] ed h k =
    All-append IsSound ed.sent (save_request ed.profile_id (payload ed.form) ∷ []) k
      (save_request-IsSound ed.form ed.profile_id h, tt)
on_save-IsSound (e ∷ es) ed h k = k

rest_only : (t : SourceType) → is_rest t ≡ true → (t ≡ rest_api) × (is_webhook t ≡ false)
unfolding is_rest is_webhook
rest_only rest_api h = (refl, refl)
rest_only webhook h = absurd (false≢true h)
rest_only court_command_match h = absurd (false≢true h)

test-IsSound : (ed : Editor) → test_enabled ed ≡ true → IsSound (test_connection (payload ed.form))
unfolding test_enabled payload
test-IsSound ed h =
    let rest =
      and_left (is_rest ed.form.source_type)
        (not (is_empty (trim ed.form.api_url)) && not ed.testing) h in
    let given = and_left (not (is_empty (trim ed.form.api_url))) (not ed.testing) (
      and_right (is_rest ed.form.source_type)
        (not (is_empty (trim ed.form.api_url)) && not ed.testing) h) in
    let only = rest_only ed.form.source_type rest in
    let full : is_empty (trim ed.form.api_url) ≡ false = ground arith in
    (
      only.0,
      (
        (
          trim ed.form.api_url,
          (rw rest (or_null-given (trim ed.form.api_url) full), trim-IsGiven ed.form.api_url full),
        ),
        rw only.1 refl,
      ),
    )

step-IsSound : (e : Event) (ed : Editor) → All IsSound ed.sent → All IsSound (step e ed).sent
unfolding step on_test save_answered test_answered
step-IsSound (edited edit) ed k = k
step-IsSound save_clicked ed k =
    if_both {A = Editor} (λ s. All IsSound s.sent) ed.saving k
      (on_save-IsSound (validate ed.form) ed refl k)
step-IsSound test_clicked ed k = elim (Bool-cases (test_enabled ed)) [
  | inl e ↦ rw e (
      All-append IsSound ed.sent (test_connection (payload ed.form) ∷ []) k (test-IsSound ed e, tt))
  | inr e ↦ rw e k
]
step-IsSound cancel_clicked ed k = if_both {A = Editor} (λ s. All IsSound s.sent) ed.saving k k
step-IsSound (save_result true) ed k = k
step-IsSound (save_result false) ed k = k
step-IsSound (test_failed message) ed k = k
step-IsSound (test_done result) ed k = k

run-IsSound : (es : List Event) (ed : Editor) → All IsSound ed.sent → All IsSound (run es ed).sent
unfolding run
run-IsSound [] ed k = k
run-IsSound (e ∷ es) ed k =
    if_both {A = Editor} (λ s. All IsSound s.sent) ed.left k
      (run-IsSound es (step e ed) (step-IsSound e ed k))

-- Whatever is typed, chosen and clicked in the editor, and whatever is answered, a profile that it
-- saves has a trimmed name and the fields of its type: a REST profile a URL, an interval of at least
-- a second, no secret and the credentials of its authentication; a webhook at most a secret; a match
-- of Court Command nothing. A connection that it tests is one of a REST profile with a URL.
pub sent_well_typed :
    (profile_id : Option ℤ) (f : Form) (es : List Event)
    → All IsSound (run es (opened profile_id f)).sent
unfolding opened
sent_well_typed profile_id f es = run-IsSound es (opened profile_id f) tt
