-- ===== src/Overlay/Sources/Setup/Steps.antt =====
-- The steps of the setup wizard (web/src/features/overlay/setup/SetupWizard.tsx).
use Prim.Native.String.{String}
use court_command.Prelude.{
  ℕ, zero, suc, ◌+◌, ◌-◌, ◌≤◌, min, ◌≡◌, refl, subst, ◌⊎◌, inl, inr, not, ◌&&◌, Option, none, some,
  List, [], ◌∷◌, arith, ◌==◌, if_both, get_elem?, All, All-append,
}
use court_command.Prelude.Text.{trim, is_empty}
use court_command.Overlay.Sources.Setup.{
  Request, create_court, create_profile, Waiting, for_court, for_profile, for_binding, Call, Setup,
  start, next_index, go_to, go_next, go_back, is_pending, ask, submit_court, submit_external,
  submit_chosen, submit_source, Answer, court_created, profile_created, bound, failed, show_error,
  continue_call, remove_at, answer_call, Event, court_edited, source_edited, submitted,
  back_clicked, answered, submit_step, back_step, step, run,
}
use court_command.Overlay.Sources.SetupForms.{
  Court, Choice, court_matches, external, court_input, can_continue, wants_token, profile_input,
}

abbrev pub HasCourt : Option Court → Type 0
HasCourt court = (c : Court) × (court ≡ some c)

-- A call of the second step has been made with a court.
abbrev CallFits : Option Court → Call → Type 0
CallFits court c = elim (c.waiting) [
  | for_court ↦ Unit
  | for_profile court_id ↦ HasCourt court
  | for_binding ↦ HasCourt court
]

-- There are three steps, and the later ones have a court.
abbrev pub IsDrawn : Setup → Type 0
IsDrawn w = (w.step_index ≤ 2) × ((w.step_index ≡ 0) ⊎ HasCourt w.court)

abbrev Fits : Setup → Type 0
Fits w = IsDrawn w × All (CallFits w.court) w.calls

go_to-Fits : (i : ℕ) (w : Setup) → i ≤ 2 → HasCourt w.court → Fits w → Fits (go_to i w)
unfolding go_to
go_to-Fits i w h c k = if_both {A = Setup} Fits (i == w.step_index) k ((h, inr c), k.1)

go_next-Fits : (w : Setup) → HasCourt w.court → Fits w → Fits (go_next w)
unfolding go_next next_index
go_next-Fits w c k = go_to-Fits (min (w.step_index + 1) 2) w (omega arith) c k

go_back-Fits : (w : Setup) → HasCourt w.court → Fits w → Fits (go_back w)
unfolding go_back
go_back-Fits w c k = go_to-Fits (w.step_index - 1) w (omega (arith, k.0.0)) c k

ask-Fits :
    (r : Request) (x : Waiting) (w : Setup)
    → CallFits w.court (record { mount = w.mount; waiting = x })
    → Fits w
    → Fits (ask r x w)
unfolding ask
ask-Fits r x w c k = (
  k.0,
  All-append (CallFits w.court) w.calls (record { mount = w.mount; waiting = x } ∷ []) k.1 (c, tt),
)

submit_court-Fits : (w : Setup) → Fits w → Fits (submit_court w)
unfolding submit_court
submit_court-Fits w k =
    let w' : Setup = record w { court_form = record w.court_form { error = none } } in
    if_both {A = Setup} Fits (not (is_empty (trim w.court_form.name)) && not (is_pending w))
      (ask-Fits (create_court (court_input w.court_form)) for_court w' tt k) k

submit_external-Fits :
    (c : Court) (w : Setup) → HasCourt w.court → Fits w → Fits (submit_external c w)
unfolding submit_external
submit_external-Fits c w h k =
    if_both {A = Setup} Fits
      (wants_token w.source_form.source_type w.source_form.auth_type
        && is_empty (trim w.source_form.auth_token))
      k (ask-Fits (create_profile (profile_input w.source_form)) (for_profile c.id) w h k)

submit_chosen-Fits :
    (choice : Choice) (c : Court) (w : Setup)
    → HasCourt w.court
    → Fits w
    → Fits (submit_chosen choice c w)
unfolding submit_chosen
submit_chosen-Fits court_matches c w h k = go_next-Fits (record w { source = court_matches }) h k
submit_chosen-Fits external c w h k = submit_external-Fits c w h k

submit_source-Fits : (c : Court) (w : Setup) → HasCourt w.court → Fits w → Fits (submit_source c w)
unfolding submit_source
submit_source-Fits c w h k =
    if_both {A = Setup} Fits (can_continue w.source_form && not (is_pending w))
      (submit_chosen-Fits w.source_form.source c
        (record w { source_form = record w.source_form { error = none } }) h k)
      k

submit-Fits :
    (n : ℕ) (court : Option Court) (w : Setup)
    → w.court ≡ court
    → Fits w
    → Fits (submit_step n court w)
unfolding submit_step
submit-Fits zero court w h k = submit_court-Fits w k
submit-Fits (suc zero) none w h k = k
submit-Fits (suc zero) (some c) w h k = submit_source-Fits c w (c, h) k
submit-Fits (suc (suc n)) none w h k = k
submit-Fits (suc (suc n)) (some c) w h k = k

back-Fits :
    (n : ℕ) (court : Option Court) (w : Setup)
    → w.court ≡ court
    → Fits w
    → Fits (back_step n court w)
unfolding back_step
back-Fits zero court w h k = k
back-Fits (suc n) none w h k = k
back-Fits (suc n) (some c) w h k = go_back-Fits w (c, h) k

-- A call fits a court that is put in the place of another.
All-replaced :
    (court : Option Court) (c : Court) (calls : List Call)
    → All (CallFits court) calls
    → All (CallFits (some c)) calls
All-replaced court c [] k = tt
All-replaced court c (x ∷ xs) k = (replaced x.waiting, All-replaced court c xs k.1)
  where
    replaced : (y : Waiting) → CallFits (some c) (record { mount = x.mount; waiting = y })
    replaced for_court = tt
    replaced (for_profile id) = (c, refl)
    replaced for_binding = (c, refl)

show_error-Fits :
    (m : ℕ) (x : Waiting) (message : String) (w : Setup) → Fits w → Fits (show_error m x message w)
unfolding show_error
show_error-Fits m for_court message w k = if_both {A = Setup} Fits (m == w.mount) k k
show_error-Fits m (for_profile id) message w k = if_both {A = Setup} Fits (m == w.mount) k k
show_error-Fits m for_binding message w k = if_both {A = Setup} Fits (m == w.mount) k k

continue-Fits :
    (m : ℕ) (x : Waiting) (a : Answer) (w : Setup)
    → CallFits w.court (record { mount = m; waiting = x })
    → Fits w
    → Fits (continue_call m x a w)
unfolding continue_call
continue-Fits m for_court (court_created c) w h k =
    go_next-Fits (record w { court = some c }) (c, refl)
      ((k.0.0, inr (c, refl)), All-replaced w.court c w.calls k.1)
continue-Fits m (for_profile court_id) (profile_created id) w h k = (
  k.0,
  All-append (CallFits w.court) w.calls (record { mount = m; waiting = for_binding } ∷ []) k.1
      (h, tt),
)
continue-Fits m for_binding bound w h k = go_next-Fits (record w { source = external }) h k
continue-Fits m for_court (failed message) w h k = show_error-Fits m for_court message w k
continue-Fits m (for_profile court_id) (failed message) w h k =
    show_error-Fits m (for_profile court_id) message w k
continue-Fits m for_binding (failed message) w h k = show_error-Fits m for_binding message w k
continue-Fits m for_court (profile_created id) w h k = k
continue-Fits m for_court bound w h k = k
continue-Fits m (for_profile court_id) (court_created c) w h k = k
continue-Fits m (for_profile court_id) bound w h k = k
continue-Fits m for_binding (court_created c) w h k = k
continue-Fits m for_binding (profile_created id) w h k = k

All-remove_at : (P : Call → Type 0) (i : ℕ) (cs : List Call) → All P cs → All P (remove_at i cs)
unfolding remove_at
All-remove_at P i [] k = k
All-remove_at P zero (c ∷ cs) k = k.1
All-remove_at P (suc i) (c ∷ cs) k = (k.0, All-remove_at P i cs k.1)

All-get :
    (P : Call → Type 0) (cs : List Call) (i : ℕ) (c : Call)
    → get_elem? cs i ≡ some c
    → All P cs
    → P c
All-get P [] i c e k = ground arith
All-get P (x ∷ xs) zero c e k = subst P (ground arith) k.0
All-get P (x ∷ xs) (suc i) c e k = All-get P xs i c e k.1

answer-Fits :
    (o : Option Call) (i : ℕ) (a : Answer) (w : Setup)
    → get_elem? w.calls i ≡ o
    → Fits w
    → Fits (answer_call o i a w)
unfolding answer_call
answer-Fits none i a w h k = k
answer-Fits (some c) i a w h k =
    continue-Fits c.mount c.waiting a (record w { calls = remove_at i w.calls })
      (All-get (CallFits w.court) w.calls i c h k.1)
      (k.0, All-remove_at (CallFits w.court) i w.calls k.1)

step-Fits : (e : Event) (w : Setup) → Fits w → Fits (step e w)
unfolding step
step-Fits (court_edited edit) w k = k
step-Fits (source_edited edit) w k = k
step-Fits submitted w k = submit-Fits w.step_index w.court w refl k
step-Fits back_clicked w k = back-Fits w.step_index w.court w refl k
step-Fits (answered i a) w k = answer-Fits (get_elem? w.calls i) i a w refl k

run-Fits : (es : List Event) (w : Setup) → Fits w → Fits (run es w)
unfolding run
run-Fits [] w k = k
run-Fits (e ∷ es) w k = run-Fits es (step e w) (step-Fits e w k)

-- Whatever is typed and clicked in the wizard, and in whatever order the requests are answered,
-- those of steps that are gone included, it stands at one of its three steps, and at the second and
-- the third there is a court, so that the step is drawn.
pub run-IsDrawn : (es : List Event) → IsDrawn (run es start)
unfolding start
run-IsDrawn es = (run-Fits es start ((omega arith, inl refl), tt)).0
