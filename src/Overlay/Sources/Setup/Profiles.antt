-- ===== src/Overlay/Sources/Setup/Profiles.antt =====
-- The profiles that the setup wizard makes (web/src/features/overlay/setup/SetupWizard.tsx).
use Prim.Native.String.{String}
use court_command.Prelude.{and_left}
use court_command.Prelude.{
  ℕ, zero, suc, ◌-◌, ◌≡◌, refl, inl, inr, Bool, true, false, not, ◌&&◌, Option, none, some, List,
  [], ◌∷◌, arith, ◌==◌, Bool-cases, if_both, get_elem?, All, All-append,
}
use court_command.Prelude.Text.{trim, is_empty}
use court_command.Overlay.Sources.{is_rest, is_webhook}
use court_command.Overlay.Sources.Setup.{
  Request, create_court, create_profile, bind_profile, Waiting, for_court, for_profile, for_binding,
  Call, Setup, start, next_index, go_to, go_next, go_back, is_pending, ask, submit_court,
  submit_external, submit_chosen, submit_source, Answer, court_created, profile_created, bound,
  failed, show_error, continue_call, remove_at, answer_call, Event, court_edited, source_edited,
  submitted, back_clicked, answered, submit_step, back_step, step, run,
}
use court_command.Overlay.Sources.SetupForms.{
  Court, Choice, court_matches, external, SourceForm, court_input, can_continue, wants_token,
  profile_input,
}
use court_command.Overlay.Sources.Editor.Shape.{IsGiven, IsWellTyped}
use court_command.Overlay.Sources.Setup.Inputs.{
  FormFits, edit-FormFits, source_form_of-Fits, given, Guards, shape, HasSecret,
  profile_input-HasSecret,
}

-- A court has a name; a profile the fields of its type, and a webhook its secret.
abbrev pub IsMade : Request → Type 0
IsMade (create_court i) = IsGiven i.name
IsMade (create_profile i) = IsWellTyped i × HasSecret i.source_type i
IsMade (bind_profile court_id profile_id) = Unit

false_of_not : (b : Bool) → not b ≡ true → b ≡ false
false_of_not b h = ground arith

abbrev Makes : Setup → Type 0
Makes w = FormFits w.source_form × All IsMade w.sent

ask-Makes : (r : Request) (x : Waiting) (w : Setup) → IsMade r → Makes w → Makes (ask r x w)
unfolding ask
ask-Makes r x w h k = (k.0, All-append IsMade w.sent (r ∷ []) k.1 (h, tt))

go_to-Makes : (i : ℕ) (w : Setup) → Makes w → Makes (go_to i w)
unfolding go_to
go_to-Makes i w k =
    if_both {A = Setup} Makes (i == w.step_index) k (source_form_of-Fits w.court, k.1)

go_next-Makes : (w : Setup) → Makes w → Makes (go_next w)
unfolding go_next
go_next-Makes w k = go_to-Makes (next_index w.step_index) w k

submit_court-Makes : (w : Setup) → Makes w → Makes (submit_court w)
unfolding submit_court court_input
submit_court-Makes w k =
    let named = not (is_empty (trim w.court_form.name)) in
    elim (Bool-cases (named && not (is_pending w))) [
      | inl e ↦ rw e (
          ask-Makes (create_court (court_input w.court_form)) for_court
            (record w { court_form = record w.court_form { error = none } })
            (given w.court_form.name (
              false_of_not (is_empty (trim w.court_form.name))
                (and_left named (not (is_pending w)) e)))
            k)
      | inr e ↦ rw e k
    ]

guards :
    (f : SourceForm)
    → f.source ≡ external
    → can_continue f ≡ true
    → (not (is_empty (trim f.name))
        && (not (is_rest f.source_type && is_empty (trim f.api_url))
            && not (is_webhook f.source_type && is_empty (trim f.webhook_secret))))
      ≡ true
unfolding can_continue
guards f e h = rw e at h

profile-IsMade :
    (f : SourceForm)
    → FormFits f
    → Guards f.name f.source_type f.api_url f.webhook_secret f.auth_type f.auth_token
    → IsMade (create_profile (profile_input f))
unfolding profile_input
profile-IsMade f k g = (
  (
    given f.name (ground (arith, g.0)),
    shape f.name f.source_type f.api_url f.webhook_secret f.auth_type f.auth_token f.poll_interval k
        g,
  ),
  profile_input-HasSecret f.name f.source_type f.api_url f.webhook_secret f.auth_type f.auth_token
      f.poll_interval k g,
)

submit_external-Makes :
    (c : Court) (w : Setup)
    → w.source_form.source ≡ external
    → can_continue w.source_form ≡ true
    → Makes w
    → Makes (submit_external c w)
unfolding submit_external
submit_external-Makes c w e h k =
    let blank =
      wants_token w.source_form.source_type w.source_form.auth_type
      && is_empty (trim w.source_form.auth_token) in
    elim (Bool-cases blank) [
      | inl b ↦ rw b k
      | inr b ↦ rw b (
          ask-Makes (create_profile (profile_input w.source_form)) (for_profile c.id) w
            (profile-IsMade w.source_form k.0 (guards w.source_form e h, b)) k)
    ]

submit_chosen-Makes :
    (choice : Choice) (c : Court) (w : Setup)
    → w.source_form.source ≡ choice
    → can_continue w.source_form ≡ true
    → Makes w
    → Makes (submit_chosen choice c w)
unfolding submit_chosen
submit_chosen-Makes court_matches c w e h k = go_next-Makes (record w { source = court_matches }) k
submit_chosen-Makes external c w e h k = submit_external-Makes c w e h k

submit_source-Makes : (c : Court) (w : Setup) → Makes w → Makes (submit_source c w)
unfolding submit_source can_continue
submit_source-Makes c w k =
    let w' : Setup = record w { source_form = record w.source_form { error = none } } in
    elim (Bool-cases (can_continue w.source_form && not (is_pending w))) [
      | inl e ↦ rw e (
          submit_chosen-Makes w.source_form.source c w' refl
            (and_left (can_continue w.source_form) (not (is_pending w)) e) k)
      | inr e ↦ rw e k
    ]

submit-Makes : (n : ℕ) (court : Option Court) (w : Setup) → Makes w → Makes (submit_step n court w)
unfolding submit_step
submit-Makes zero court w k = submit_court-Makes w k
submit-Makes (suc zero) none w k = k
submit-Makes (suc zero) (some c) w k = submit_source-Makes c w k
submit-Makes (suc (suc n)) none w k = k
submit-Makes (suc (suc n)) (some c) w k = k

back-Makes : (n : ℕ) (court : Option Court) (w : Setup) → Makes w → Makes (back_step n court w)
unfolding back_step go_back
back-Makes zero court w k = k
back-Makes (suc n) none w k = k
back-Makes (suc n) (some c) w k = go_to-Makes (w.step_index - 1) w k

show_error-Makes :
    (m : ℕ) (x : Waiting) (message : String) (w : Setup)
    → Makes w
    → Makes (show_error m x message w)
unfolding show_error
show_error-Makes m for_court message w k = if_both {A = Setup} Makes (m == w.mount) k k
show_error-Makes m (for_profile id) message w k = if_both {A = Setup} Makes (m == w.mount) k k
show_error-Makes m for_binding message w k = if_both {A = Setup} Makes (m == w.mount) k k

continue-Makes :
    (m : ℕ) (x : Waiting) (a : Answer) (w : Setup) → Makes w → Makes (continue_call m x a w)
unfolding continue_call
continue-Makes m for_court (court_created c) w k = go_next-Makes (record w { court = some c }) k
continue-Makes m (for_profile court_id) (profile_created id) w k =
    (k.0, All-append IsMade w.sent (bind_profile court_id id ∷ []) k.1 (tt, tt))
continue-Makes m for_binding bound w k = go_next-Makes (record w { source = external }) k
continue-Makes m for_court (failed message) w k = show_error-Makes m for_court message w k
continue-Makes m (for_profile id) (failed message) w k =
    show_error-Makes m (for_profile id) message w k
continue-Makes m for_binding (failed message) w k = show_error-Makes m for_binding message w k
continue-Makes m for_court (profile_created id) w k = k
continue-Makes m for_court bound w k = k
continue-Makes m (for_profile court_id) (court_created c) w k = k
continue-Makes m (for_profile court_id) bound w k = k
continue-Makes m for_binding (court_created c) w k = k
continue-Makes m for_binding (profile_created id) w k = k

answer-Makes :
    (o : Option Call) (i : ℕ) (a : Answer) (w : Setup) → Makes w → Makes (answer_call o i a w)
unfolding answer_call
answer-Makes none i a w k = k
answer-Makes (some c) i a w k =
    continue-Makes c.mount c.waiting a (record w { calls = remove_at i w.calls }) k

step-Makes : (e : Event) (w : Setup) → Makes w → Makes (step e w)
unfolding step
step-Makes (court_edited edit) w k = k
step-Makes (source_edited edit) w k = (edit-FormFits edit w.source_form k.0, k.1)
step-Makes submitted w k = submit-Makes w.step_index w.court w k
step-Makes back_clicked w k = back-Makes w.step_index w.court w k
step-Makes (answered i a) w k = answer-Makes (get_elem? w.calls i) i a w k

run-Makes : (es : List Event) (w : Setup) → Makes w → Makes (run es w)
unfolding run
run-Makes [] w k = k
run-Makes (e ∷ es) w k = run-Makes es (step e w) (step-Makes e w k)

-- Whatever is typed and clicked in the setup wizard and whatever is answered, each court that it
-- asks for has a trimmed name that is not empty, and each source profile has one too and is of one of
-- two types: a REST profile has a URL, an interval of at least a second, no secret, and the token if
-- it has one to bear; a webhook has its secret, trimmed and not empty, and no URL to poll, no
-- interval and no authentication.
pub setup_requests : (es : List Event) → All IsMade (run es start).sent
unfolding start
setup_requests es = (run-Makes es start (source_form_of-Fits none, tt)).1
