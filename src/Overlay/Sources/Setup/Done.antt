-- ===== src/Overlay/Sources/Setup/Done.antt =====
-- A walk through the setup wizard (web/src/features/overlay/setup/SetupWizard.tsx).
use Prim.Native.String.{String}
use court_command.Prelude.{ℕ, ◌≡◌, refl, true, false, none, some, List, [], ◌∷◌, ◌++◌}
use court_command.Prelude.Text.{trim, is_empty}
use court_command.Prelude.Integers.{pos}
use court_command.Overlay.Sources.{rest_api, no_auth, is_rest, is_webhook}
use court_command.Overlay.Sources.Setup.{
  Request, create_court, create_profile, bind_profile, for_profile, Setup, start, next_index, go_to,
  go_next, go_back, is_pending, ask, submit_court, submit_external, submit_chosen, submit_source,
  court_created, profile_created, bound, failed, show_error, continue_call, remove_at, answer_call,
  Event, court_edited, source_edited, submitted, back_clicked, answered, submit_step, back_step,
  step, run,
}
use court_command.Overlay.Sources.SetupForms.{
  Court, court_matches, external, SourceForm, court_form_of, source_form_of, court_input,
  can_continue, wants_token, profile_input, court_named, edit_court, choice_made, profile_named,
  url_typed, edit_source,
}

-- A court is named and made, and a REST source without authentication is named and submitted.
abbrev pub until_profile : String → Court → String → String → List Event
until_profile court_name c profile_name url =
    court_edited (court_named court_name)
    ∷ submitted
    ∷ answered 0 (court_created c)
    ∷ source_edited (choice_made external)
    ∷ source_edited (profile_named profile_name)
    ∷ source_edited (url_typed url)
    ∷ submitted
    ∷ []

-- What it asks for.
abbrev pub court_request : String → Request
court_request name = create_court (record {
  name = trim name;
  is_show_court = true;
  is_active = true;
  is_temporary = false;
  notes = none;
})

abbrev pub profile_request : String → String → Request
profile_request name url = create_profile (record {
  name = trim name;
  source_type = rest_api;
  api_url = some (trim url);
  webhook_secret = none;
  auth_type = no_auth;
  auth_config = [];
  poll_interval_seconds = some (pos 5);
  field_mapping = [];
})

abbrev filled : String → String → SourceForm
filled profile_name url = record {
  source = external;
  name = profile_name;
  source_type = rest_api;
  api_url = url;
  webhook_secret = "";
  auth_type = no_auth;
  auth_token = "";
  poll_interval = pos 5;
  error = none;
}

-- The wizard at its second step with the profile asked for.
abbrev saving : String → Court → String → String → Setup
unfolding court_form_of
saving court_name c profile_name url = record {
  step_index = 1;
  court = some c;
  source = court_matches;
  court_form = court_form_of (some c);
  source_form = filled profile_name url;
  mount = 1;
  calls = record { mount = 1; waiting = for_profile c.id } ∷ [];
  sent = court_request court_name ∷ profile_request profile_name url ∷ [];
}

run-until_profile :
    (court_name : String) (c : Court) (profile_name url : String)
    → is_empty (trim court_name) ≡ false
    → is_empty (trim profile_name) ≡ false
    → is_empty (trim url) ≡ false
    → run (until_profile court_name c profile_name url) start ≡ saving court_name c profile_name url
unfolding run step start court_form_of source_form_of next_index go_to go_next is_pending ask
    court_input submit_court can_continue wants_token profile_input submit_external submit_chosen
    submit_source continue_call remove_at answer_call edit_court edit_source submit_step is_rest
    is_webhook
run-until_profile court_name c profile_name url h k l = rw (h, k, l) refl

run-append : (es fs : List Event) (w : Setup) → run (es ++ fs) w ≡ run fs (run es w)
unfolding run
run-append [] fs w = refl
run-append (e ∷ es) fs w = run-append es fs (step e w)

module _ (court_name : String) (c : Court) (profile_name url : String) where
  -- Who names a court, a profile and its URL, none of them blank, and gets each request answered,
  -- comes to the third step with the court; three requests were sent, the court's, the profile's and
  -- the binding of the one to the other, and no answer is waited for.
  pub setup_completes :
      (id : ℕ)
      → is_empty (trim court_name) ≡ false
      → is_empty (trim profile_name) ≡ false
      → is_empty (trim url) ≡ false
      → let w =
          run
            (until_profile court_name c profile_name url
              ++ answered 0 (profile_created id) ∷ answered 0 bound ∷ [])
            start in
        (w.step_index ≡ 2)
        × ((w.court ≡ some c)
            × ((w.source ≡ external)
                × ((w.calls ≡ [])
                    × (w.sent
                        ≡ court_request court_name
                          ∷ profile_request profile_name url
                          ∷ bind_profile c.id id
                          ∷ []))))
  unfolding run step start court_form_of source_form_of next_index go_to go_next continue_call
      remove_at answer_call
  setup_completes id h k l =
      rw
        (
          run-append (until_profile court_name c profile_name url)
              (answered 0 (profile_created id) ∷ answered 0 bound ∷ []) start,
          run-until_profile court_name c profile_name url h k l,
        )
        (refl, (refl, (refl, (refl, refl))))

  -- Who names a court, a REST profile without authentication and its URL, none of them blank, gets
  -- the court and the profile made, but the binding of the one to the other fails: the wizard stays
  -- at the second step and shows the message. A second click of Continue asks for the same profile
  -- once more; once that is made and bound, the wizard is at the third step, and the second profile
  -- was bound to the court: the first is left behind.
  pub retry_makes_again :
      (id next : ℕ) (message : String)
      → is_empty (trim court_name) ≡ false
      → is_empty (trim profile_name) ≡ false
      → is_empty (trim url) ≡ false
      → let w =
          run
            (until_profile court_name c profile_name url
              ++ answered 0 (profile_created id) ∷ answered 0 (failed message) ∷ [])
            start in
        let again = run (submitted ∷ []) w in
        let done = run (answered 0 (profile_created next) ∷ answered 0 bound ∷ []) again in
        let asked =
          court_request court_name
          ∷ profile_request profile_name url
          ∷ bind_profile c.id id
          ∷ profile_request profile_name url
          ∷ [] in
        (w.step_index ≡ 1)
        × ((w.source_form.error ≡ some message)
            × ((again.step_index ≡ 1)
                × ((again.sent ≡ asked)
                    × ((done.step_index ≡ 2)
                        × (done.sent ≡ asked ++ bind_profile c.id next ∷ [])))))
  unfolding run step start court_form_of source_form_of next_index go_to go_next is_pending ask
      can_continue wants_token profile_input submit_external submit_chosen submit_source show_error
      continue_call remove_at answer_call submit_step is_rest is_webhook
  retry_makes_again id next message h k l =
      rw
        (
          run-append (until_profile court_name c profile_name url)
              (answered 0 (profile_created id) ∷ answered 0 (failed message) ∷ []) start,
          run-until_profile court_name c profile_name url h k l,
        )
        (rw (k, l) (refl, (refl, (refl, (refl, (refl, refl))))))

  -- Back is clicked while the profile is asked for: once the answers have come, the wizard has left
  -- the first step again by itself.
  pub back_undone :
      (id : ℕ)
      → is_empty (trim court_name) ≡ false
      → is_empty (trim profile_name) ≡ false
      → is_empty (trim url) ≡ false
      → let w = run (until_profile court_name c profile_name url ++ back_clicked ∷ []) start in
        (w.step_index ≡ 0)
        × ((run (answered 0 (profile_created id) ∷ answered 0 bound ∷ []) w).step_index ≡ 1)
  unfolding run step start court_form_of source_form_of next_index go_to go_next go_back back_step
      continue_call remove_at answer_call
  back_undone id h k l =
      rw
        (
          run-append (until_profile court_name c profile_name url) (back_clicked ∷ []) start,
          run-until_profile court_name c profile_name url h k l,
        )
        (refl, refl)
