-- ===== src/Tournaments/WizardState.antt =====
-- The state of the wizard that creates a tournament, and what it sends
-- (web/src/features/tournaments/TournamentCreate.tsx).
use Prim.Native.String.{String}
use court_command.Prelude.{ℕ, Bool, false, Option, none, List, []}
use court_command.Tournaments.Draft.{
  DivisionDraft, empty_division, DivisionTemplate, SponsorEntry, TournamentFormData, initial_form,
  DivisionPayload,
}

pub record Errors : Type 0 where
  pub name : Option String
  pub start_date : Option String
  pub end_date : Option String

abbrev pub no_errors : Errors
no_errors = record { name = none; start_date = none; end_date = none }

pub data Status : Type 0 where
  draft published : Status

pub record TournamentPayload : Type 0 where
  pub status : Status
  pub name : String
  pub start_date : String
  pub end_date : String
  pub venue_id : Option ℕ
  pub league_id : Option ℕ
  pub season_id : Option ℕ
  pub description : Option String
  pub contact_email : Option String
  pub contact_phone : Option String
  pub website_url : Option String
  pub rules_document_url : Option String
  pub logo_url : Option String
  pub banner_url : Option String
  pub sponsor_info : Option (List SponsorEntry)
  pub divisions : List DivisionPayload

pub data Toast : Type 0 where
  imported_divisions : ℕ → Toast
  saved_as_draft created_and_published : Toast
  failed : String → Toast

-- `pending` is the status of the request under way, `sent` the requests made (the latest first), and
-- `tournament` the one navigated to.
pub record Wizard : Type 0 where
  pub step : ℕ
  pub form : TournamentFormData
  pub divisions : List DivisionDraft
  pub errors : Errors
  pub editing_division_index : Option ℕ
  pub division_draft : DivisionDraft
  pub show_division_form : Bool
  pub templates : Option (List DivisionTemplate)
  pub show_template_picker : Bool
  pub selected : List ℕ
  pub pending : Option Status
  pub sent : List TournamentPayload
  pub toasts : List Toast
  pub tournament : Option ℕ

abbrev pub initial : Wizard
initial = record {
  step = 0;
  form = initial_form;
  divisions = [];
  errors = no_errors;
  editing_division_index = none;
  division_draft = empty_division;
  show_division_form = false;
  templates = none;
  show_template_picker = false;
  selected = [];
  pending = none;
  sent = [];
  toasts = [];
  tournament = none;
}
