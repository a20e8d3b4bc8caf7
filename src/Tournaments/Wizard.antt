-- ===== src/Tournaments/Wizard.antt =====
-- The wizard that creates a tournament (web/src/features/tournaments/TournamentCreate.tsx): its state,
-- its handlers, and which of them the rendered page offers. The divisions' templates are what the
-- query last gave; a Set is the list of its elements in the order of their insertion.
pub mod Page
pub mod Valid
pub mod Divisions
pub mod Import
mod Examples
pub use court_command.Tournaments.WizardState.{
  Errors, no_errors, Status, draft, published, TournamentPayload, Toast, imported_divisions,
  saved_as_draft, created_and_published, failed, Wizard, initial,
}
use Prim.Native.String.{String}
use court_command.Prelude.{
  ℕ, zero, suc, ◌+◌, ◌-◌, ◌*◌, ◌/◌, ◌%◌, ◌^◌, ◌≤◌, ◌<◌, min, max, ◌≡◌, refl, sym, ap, ◌∙◌, subst,
  ◌≢◌, ◌↔◌, ◌⊎◌, inl, inr, Bool, true, false, not, ◌&&◌, ◌||◌, false≢true, Option, none, some, List,
  [], ◌∷◌, ◌++◌, map, arith, ltb, leb, ◌==◌, if◌then◌else◌, ltb→lt, lt→ltb, leb→le, ==_iff, ==_refl,
  Bool-cases, Option-cases, or_else, if_both, length, get_elem?, filter, any, all, length-append,
  length-filter-le, filter-filter, any-filter, filter-eq_of_length, filter-all, filter-true,
  filter-false, filter-append, All, In, Ordered, All-filter, Ordered-filter, In-filter,
  In-of_filter, In-map, All-map, All-In, All-append, Ordered-map,
}
use court_command.Prelude.Text.{is_empty, is_blank, codes, codes_lt}
use court_command.Tournaments.Draft.{
  DivisionDraft, empty_division, DivisionTemplate, template_to_draft, DraftEdit, update,
  SponsorEntry, TournamentFormData, initial_form, FormEdit, edit_form, text_or_null,
  DivisionPayload, division_payload, truthy_id,
}
use court_command.Tournaments.Draft

-- `delete next[key]`.
abbrev pub without_error : FormEdit → Errors → Errors
without_error (FormEdit.set_name v) e = record e { name = none }
without_error (FormEdit.set_start_date v) e = record e { start_date = none }
without_error (FormEdit.set_end_date v) e = record e { end_date = none }
without_error _ e = e

pub update_field : FormEdit → Wizard → Wizard
unfolding edit_form
update_field edit w = record w {
  form = edit_form edit w.form;
  errors = without_error edit w.errors;
}

-- The pickers' `onChange`: a league that is not truthy takes the season with it.
abbrev pub set_league : Option ℕ → TournamentFormData → TournamentFormData
set_league none f = record f { league_id = none; season_id = none }
set_league (some zero) f = record f { league_id = some 0; season_id = none }
set_league (some (suc id)) f = record f { league_id = some (suc id) }

-- The errors of `validateStep1`, of the name and the dates.
abbrev pub name_error : String → Option String
name_error name = if is_blank name then some "Tournament name is required" else none

abbrev pub start_error : String → Option String
start_error start = if is_empty start then some "Start date is required" else none

abbrev pub end_error : String → String → Option String
end_error start end =
    if not (is_empty start) && (not (is_empty end) && codes_lt (codes end) (codes start))
    then some "End date must be on or after start date"
    else if is_empty end
    then some "End date is required"
    else none

abbrev pub is_none : Option String → Bool
is_none none = true
is_none (some text) = false

-- `validateStep1`: the errors, and whether there are none.
pub step_errors : TournamentFormData → Errors
unfolding is_blank codes_lt
step_errors f = record {
  name = name_error f.name;
  start_date = start_error f.start_date;
  end_date = end_error f.start_date f.end_date;
}

abbrev pub has_none : Errors → Bool
has_none e = is_none e.name && (is_none e.start_date && is_none e.end_date)

-- The step's part of the page is mounted anew, so a picker that is shown there has nothing selected.
abbrev pub go_to : ℕ → Wizard → Wizard
go_to step w = record w { step = step; selected = [] }

pub handle_next : Wizard → Wizard
unfolding step_errors
handle_next w =
    if w.step == 0
    then if has_none (step_errors w.form)
      then record (go_to (min (w.step + 1) 2) w) { errors = no_errors }
      else record w { errors = step_errors w.form }
    else go_to (min (w.step + 1) 2) w

pub handle_back : Wizard → Wizard
handle_back w = go_to (w.step - 1) w

pub handle_add_division : Wizard → Wizard
handle_add_division w = record w {
  division_draft = empty_division;
  editing_division_index = none;
  show_division_form = true;
}

-- The index is that of a card that is shown, so there is a division at it.
pub handle_edit_division : ℕ → Wizard → Wizard
handle_edit_division index w = record w {
  division_draft = or_else (get_elem? w.divisions index) w.division_draft;
  editing_division_index = some index;
  show_division_form = true;
}

-- `xs.map((x, i) => (i === index ? y : x))` and `xs.filter((_, i) => i !== index)`.
abbrev pub replace_at : {A : Type 0} → ℕ → A → List A → List A
replace_at index y [] = []
replace_at zero y (x ∷ xs) = y ∷ xs
replace_at (suc index) y (x ∷ xs) = x ∷ replace_at index y xs

abbrev pub remove_at : {A : Type 0} → ℕ → List A → List A
remove_at index [] = []
remove_at zero (x ∷ xs) = xs
remove_at (suc index) (x ∷ xs) = x ∷ remove_at index xs

abbrev pub saved : Option ℕ → DivisionDraft → List DivisionDraft → List DivisionDraft
saved (some index) d divisions = replace_at index d divisions
saved none d divisions = divisions ++ d ∷ []

pub handle_save_division : Wizard → Wizard
handle_save_division w = record w {
  divisions = saved w.editing_division_index w.division_draft w.divisions;
  show_division_form = false;
  editing_division_index = none;
}

pub handle_remove_division : ℕ → Wizard → Wizard
handle_remove_division index w = record w { divisions = remove_at index w.divisions }

pub handle_cancel_division : Wizard → Wizard
handle_cancel_division w = record w { show_division_form = false; editing_division_index = none }

-- `selected.has(id)`.
abbrev pub has : ℕ → List ℕ → Bool
has id selected = any (λ other. id == other) selected

-- `toggle` of the template picker.
pub toggle : ℕ → List ℕ → List ℕ
toggle id selected =
    if has id selected then filter (λ other. not (id == other)) selected else selected ++ id ∷ []

-- `new Set(templates.map((t) => t.id))`.
pub select_all : List DivisionTemplate → List ℕ
select_all [] = []
select_all (t ∷ ts) = let rest = select_all ts in t.id ∷ filter (λ other. not (t.id == other)) rest

abbrev pub chosen : List ℕ → List DivisionTemplate → List DivisionTemplate
chosen selected templates = filter (λ t. has t.id selected) templates

pub handle_import_templates : List DivisionTemplate → Wizard → Wizard
unfolding template_to_draft
handle_import_templates templates w = record w {
  divisions = w.divisions ++ map template_to_draft templates;
  show_template_picker = false;
  selected = [];
  toasts = imported_divisions (length templates) ∷ w.toasts;
}

-- `sponsors.length > 0 ? sponsors : null`.
abbrev pub sponsors_or_null : List SponsorEntry → Option (List SponsorEntry)
sponsors_or_null [] = none
sponsors_or_null (s ∷ rest) = some (s ∷ rest)

-- The payload of `handleSubmit`.
pub payload : Status → TournamentFormData → List DivisionDraft → TournamentPayload
unfolding division_payload
payload status f divisions = record {
  status = status;
  name = f.name;
  start_date = f.start_date;
  end_date = f.end_date;
  venue_id = f.venue_id;
  league_id = f.league_id;
  season_id = f.season_id;
  description = text_or_null f.description;
  contact_email = text_or_null f.contact_email;
  contact_phone = text_or_null f.contact_phone;
  website_url = text_or_null f.website_url;
  rules_document_url = text_or_null f.rules_document_url;
  logo_url = f.logo_url;
  banner_url = f.banner_url;
  sponsor_info = sponsors_or_null f.sponsors;
  divisions = map division_payload divisions;
}

pub handle_submit : Status → Wizard → Wizard
unfolding payload
handle_submit status w = record w {
  pending = some status;
  sent = payload status w.form w.divisions ∷ w.sent;
}

abbrev pub success : Status → Toast
success draft = saved_as_draft
success published = created_and_published

-- What follows the `await`.
pub handle_created : Status → ℕ → Wizard → Wizard
handle_created status id w = record w {
  pending = none;
  tournament = some id;
  toasts = success status ∷ w.toasts;
}

pub handle_failed : String → Wizard → Wizard
handle_failed message w =
    let text = if is_empty message then "Failed to create tournament" else message in
    record w { pending = none; toasts = failed text ∷ w.toasts }
