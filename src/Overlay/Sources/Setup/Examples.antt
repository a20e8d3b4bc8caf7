-- ===== src/Overlay/Sources/Setup/Examples.antt =====
-- Walks through the setup wizard at concrete inputs.
use court_command.Prelude.{◌≡◌, refl, true, none, some, List, [], ◌∷◌, ◌++◌, All}
use court_command.Prelude.Text.{is_space}
use court_command.Overlay.Sources.Setup.{
  bind_profile, Event, submitted, back_clicked, answered, profile_created, bound, failed, start,
  run,
}
use court_command.Overlay.Sources.SetupForms.{Court}
use court_command.Overlay.Sources.Setup.Steps.{IsDrawn, run-IsDrawn}
use court_command.Overlay.Sources.Setup.Profiles.{IsMade, setup_requests}
use court_command.Overlay.Sources.Setup.Done.{
  until_profile, court_request, profile_request, retry_makes_again,
}

abbrev court : Court
court = record { id = 4; name = "Court 1"; slug = "court-1"; is_show_court = true; notes = none }

abbrev walk : List Event
walk =
    until_profile "Court 1" court "Feed" "https://a.example"
    ++ back_clicked ∷ answered 0 (profile_created 9) ∷ submitted ∷ answered 0 bound ∷ []

run-IsDrawn_example : IsDrawn (run walk start)
run-IsDrawn_example = run-IsDrawn walk

setup_requests_example : All IsMade (run walk start).sent
setup_requests_example = setup_requests walk

retry_makes_again_example :
    let w =
      run
        (until_profile "Court 1" court "Feed" "https://a.example"
          ++ answered 0 (profile_created 9) ∷ answered 0 (failed "no") ∷ [])
        start in
    let again = run (submitted ∷ []) w in
    let done = run (answered 0 (profile_created 10) ∷ answered 0 bound ∷ []) again in
    let asked =
      court_request "Court 1"
      ∷ profile_request "Feed" "https://a.example"
      ∷ bind_profile 4 9
      ∷ profile_request "Feed" "https://a.example"
      ∷ [] in
    (w.step_index ≡ 1)
    × ((w.source_form.error ≡ some "no")
        × ((again.step_index ≡ 1)
            × ((again.sent ≡ asked)
                × ((done.step_index ≡ 2) × (done.sent ≡ asked ++ bind_profile 4 10 ∷ [])))))
unfolding is_space
retry_makes_again_example =
    retry_makes_again "Court 1" court "Feed" "https://a.example" 9 10 "no" refl refl refl
