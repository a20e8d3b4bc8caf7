-- ===== src/Overlay/Sources/Setup.antt =====
-- The setup wizard of an overlay (web/src/features/overlay/setup/SetupWizard.tsx): its three steps,
-- the forms of the first two, and the requests, which are answered even when their step is gone.
pub mod Steps
pub mod Inputs
pub mod Profiles
pub mod Done
mod Examples
use Prim.Native.String.{String, ◌++◌ as str_append}
use court_command.Prelude.{
  ℕ, zero, suc, ◌+◌, ◌-◌, ◌*◌, ◌/◌, ◌%◌, ◌^◌, ◌≤◌, ◌<◌, min, max, ◌≡◌, refl, sym, ap, ◌∙◌, subst,
  ◌≢◌, ◌↔◌, ◌⊎◌, inl, inr, Bool, true, false, not, ◌&&◌, ◌||◌, false≢true, Option, none, some, List,
  [], ◌∷◌, ◌++◌, map, arith, ltb, leb, ◌==◌, if◌then◌else◌, ltb→lt, lt→ltb, leb→le, ==_iff, ==_refl,
  Bool-cases, Option-cases, or_else, if_both, length, get_elem?, filter, any, all, length-append,
  length-filter-le, filter-filter, any-filter, filter-eq_of_length, filter-all, filter-true,
  filter-false, filter-append, All, In, Ordered, All-filter, Ordered-filter, In-filter,
  In-of_filter, In-map, All-map, All-In, All-append, Ordered-map,
}
use court_command.Prelude.Text.{trim, is_empty, or_null, or_empty}
use court_command.Prelude.Integers.{ℤ, pos, negsuc}
use court_command.Overlay.Sources.{
  SourceType, rest_api, webhook, AuthType, no_auth, bearer, SourceProfileInput, is_rest, is_webhook,
}
use court_command.Overlay.Sources.SetupForms.{
  Court, Choice, CourtForm, SourceForm, CourtInput, court_form_of, source_form_of, court_input,
  can_continue, wants_token, profile_input, interval_typed, CourtEdit, edit_court, SourceEdit,
  edit_source, court_matches, external, court_named, notes_typed, show_chosen, choice_made,
  profile_named, url_typed, secret_typed, token_typed, webhook_chosen, bearer_chosen,
  interval_edited,
}

pub data Request : Type 0 where
  create_court : CourtInput → Request
  create_profile : SourceProfileInput → Request
  bind_profile : (court_id profile_id : ℕ) → Request

-- What waits for an answer, with the mount of the step that asked.
pub data Waiting : Type 0 where
  for_court : Waiting
  for_profile : (court_id : ℕ) → Waiting
  for_binding : Waiting

pub record Call : Type 0 where
  pub mount : ℕ
  pub waiting : Waiting

pub record Setup : Type 0 where
  pub step_index : ℕ
  pub court : Option Court
  pub source : Choice
  pub court_form : CourtForm
  pub source_form : SourceForm
  pub mount : ℕ
  pub calls : List Call
  pub sent : List Request

unfoldable pub start : Setup
unfolding court_form_of source_form_of
start = record {
  step_index = 0;
  court = none;
  source = court_matches;
  court_form = court_form_of none;
  source_form = source_form_of none;
  mount = 0;
  calls = [];
  sent = [];
}

-- `Math.min(i + 1, STEPS.length - 1)` and `Math.max(i - 1, 0)`: a step that is drawn anew begins with
-- a new form.
unfoldable pub next_index : ℕ → ℕ
next_index i = min (i + 1) 2

unfoldable pub go_to : ℕ → Setup → Setup
unfolding court_form_of source_form_of
go_to i w = if i == w.step_index then w else record w {
  step_index = i;
  court_form = court_form_of w.court;
  source_form = source_form_of w.court;
  mount = w.mount + 1;
}

unfoldable pub go_next : Setup → Setup
unfolding go_to next_index
go_next w = go_to (next_index w.step_index) w

unfoldable pub go_back : Setup → Setup
unfolding go_to
go_back w = go_to (w.step_index - 1) w

-- `isPending` of the step that is mounted.
unfoldable pub is_pending : Setup → Bool
is_pending w = any (λ c. c.mount == w.mount) w.calls

unfoldable pub ask : Request → Waiting → Setup → Setup
ask request waiting w = record w {
  calls = w.calls ++ (record { mount = w.mount; waiting = waiting }) ∷ [];
  sent = w.sent ++ request ∷ [];
}

-- submit of the first step.
unfoldable pub submit_court : Setup → Setup
unfolding court_input ask is_pending
submit_court w =
    if not (is_empty (trim w.court_form.name)) && not (is_pending w)
    then ask (create_court (court_input w.court_form)) for_court
        (record w { court_form = record w.court_form { error = none } })
    else w

-- submit of the second step, once the court is known, with the error cleared.
unfoldable pub submit_external : Court → Setup → Setup
unfolding wants_token profile_input ask
submit_external c w =
    if wants_token w.source_form.source_type w.source_form.auth_type
      && is_empty (trim w.source_form.auth_token)
    then record w { source_form = record w.source_form { error = some "Bearer token is required" } }
    else ask (create_profile (profile_input w.source_form)) (for_profile c.id) w

unfoldable pub submit_chosen : Choice → Court → Setup → Setup
unfolding go_next submit_external
submit_chosen court_matches c w = go_next (record w { source = court_matches })
submit_chosen external c w = submit_external c w

unfoldable pub submit_source : Court → Setup → Setup
unfolding can_continue is_pending submit_chosen
submit_source c w =
    if can_continue w.source_form && not (is_pending w)
    then submit_chosen w.source_form.source c
        (record w { source_form = record w.source_form { error = none } })
    else w

-- What the continuation of a call does with the answer to it.
pub data Answer : Type 0 where
  court_created : Court → Answer
  profile_created : (id : ℕ) → Answer
  bound : Answer
  failed : (message : String) → Answer

-- setError, of a step that may be gone.
unfoldable pub show_error : ℕ → Waiting → String → Setup → Setup
show_error mount for_court message w =
    if mount == w.mount
    then record w { court_form = record w.court_form { error = some message } }
    else w
show_error mount _ message w =
    if mount == w.mount
    then record w { source_form = record w.source_form { error = some message } }
    else w

unfoldable pub continue_call : ℕ → Waiting → Answer → Setup → Setup
unfolding go_next show_error
continue_call mount for_court (court_created c) w = go_next (record w { court = some c })
continue_call mount (for_profile court_id) (profile_created id) w = record w {
  calls = w.calls ++ (record { mount = mount; waiting = for_binding }) ∷ [];
  sent = w.sent ++ bind_profile court_id id ∷ [];
}
continue_call mount for_binding bound w = go_next (record w { source = external })
continue_call mount waiting (failed message) w = show_error mount waiting message w
continue_call mount waiting _ w = w

-- The calls without the one at the index.
unfoldable pub remove_at : ℕ → List Call → List Call
remove_at i [] = []
remove_at zero (c ∷ cs) = cs
remove_at (suc i) (c ∷ cs) = c ∷ remove_at i cs

unfoldable pub answer_call : Option Call → ℕ → Answer → Setup → Setup
unfolding continue_call remove_at
answer_call none i answer w = w
answer_call (some c) i answer w =
    continue_call c.mount c.waiting answer (record w { calls = remove_at i w.calls })

pub data Event : Type 0 where
  court_edited : CourtEdit → Event
  source_edited : SourceEdit → Event
  submitted back_clicked : Event
  answered : (call : ℕ) → Answer → Event

-- The step that is drawn takes the clicks; the later ones only with a court.
unfoldable pub submit_step : ℕ → Option Court → Setup → Setup
unfolding submit_court submit_source
submit_step zero court w = submit_court w
submit_step (suc zero) (some c) w = submit_source c w
submit_step _ _ w = w

unfoldable pub back_step : ℕ → Option Court → Setup → Setup
unfolding go_back
back_step zero court w = w
back_step (suc i) (some c) w = go_back w
back_step (suc i) none w = w

unfoldable pub step : Event → Setup → Setup
unfolding edit_court edit_source submit_step back_step answer_call
step (court_edited edit) w = record w { court_form = edit_court edit w.court_form }
step (source_edited edit) w = record w { source_form = edit_source edit w.source_form }
step submitted w = submit_step w.step_index w.court w
step back_clicked w = back_step w.step_index w.court w
step (answered i answer) w = answer_call (get_elem? w.calls i) i answer w

unfoldable pub run : List Event → Setup → Setup
unfolding step
run [] w = w
run (e ∷ es) w = run es (step e w)
