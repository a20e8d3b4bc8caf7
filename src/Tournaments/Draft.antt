-- ===== src/Tournaments/Draft.antt =====
-- The drafts of divisions and of a tournament (web/src/features/tournaments/TournamentCreate.tsx).
-- A number typed into a number input is none or natural; an amount of money stays the text typed.
use Prim.Native.String.{String}
use court_command.Prelude.{
  ℕ, zero, suc, Bool, false, Option, none, some, List, [], if◌then◌else◌, or_else,
}
use court_command.Prelude.Text.{is_empty}

-- The source keeps `max_teams` and `max_roster_size` as the texts that are typed and converts them with
-- Number where it sends them; here they are the numbers that the texts stand for, none for the empty
-- text.
pub record DivisionDraft : Type 0 where
  pub name : String
  pub format : String
  pub gender_restriction : String
  pub bracket_format : String
  pub scoring_preset_id : Option ℕ
  pub max_teams : Option ℕ
  pub max_roster_size : Option ℕ
  pub entry_fee_amount : String
  pub entry_fee_currency : String
  pub auto_approve : Bool
  pub registration_mode : String
  pub seed_method : String

abbrev pub empty_division : DivisionDraft
empty_division = record {
  name = "";
  format = "doubles";
  gender_restriction = "open";
  bracket_format = "double_elimination";
  scoring_preset_id = none;
  max_teams = none;
  max_roster_size = none;
  entry_fee_amount = "";
  entry_fee_currency = "USD";
  auto_approve = false;
  registration_mode = "open";
  seed_method = "manual";
}

-- The fields of a template that the wizard reads.
pub record DivisionTemplate : Type 0 where
  pub id : ℕ
  pub name : String
  pub format : String
  pub gender_restriction : String
  pub bracket_format : String
  pub scoring_preset_id : Option ℕ
  pub max_teams : Option ℕ
  pub max_roster_size : Option ℕ
  pub entry_fee_amount : Option String
  pub entry_fee_currency : String
  pub auto_approve : Bool
  pub registration_mode : String
  pub seed_method : String

-- `text || fallback`.
abbrev pub or_text : String → String → String
or_text text fallback = if is_empty text then fallback else text

unfoldable pub template_to_draft : DivisionTemplate → DivisionDraft
template_to_draft t = record {
  name = t.name;
  format = t.format;
  gender_restriction = t.gender_restriction;
  bracket_format = t.bracket_format;
  scoring_preset_id = t.scoring_preset_id;
  max_teams = t.max_teams;
  max_roster_size = t.max_roster_size;
  entry_fee_amount = or_else t.entry_fee_amount "";
  entry_fee_currency = or_text t.entry_fee_currency "USD";
  auto_approve = t.auto_approve;
  registration_mode = or_text t.registration_mode "open";
  seed_method = or_text t.seed_method "manual";
}

-- The inputs of the division form.
pub data DraftEdit : Type 0 where
  set_name set_format set_gender_restriction set_bracket_format : String → DraftEdit
  set_scoring_preset_id set_max_teams set_max_roster_size : Option ℕ → DraftEdit
  set_entry_fee_amount set_entry_fee_currency set_registration_mode : String → DraftEdit
  set_seed_method : String → DraftEdit
  set_auto_approve : Bool → DraftEdit

-- `{ ...draft, [key]: value }`.
unfoldable pub update : DraftEdit → DivisionDraft → DivisionDraft
update (set_name v) d = record d { name = v }
update (set_format v) d = record d { format = v }
update (set_gender_restriction v) d = record d { gender_restriction = v }
update (set_bracket_format v) d = record d { bracket_format = v }
update (set_scoring_preset_id v) d = record d { scoring_preset_id = v }
update (set_max_teams v) d = record d { max_teams = v }
update (set_max_roster_size v) d = record d { max_roster_size = v }
update (set_entry_fee_amount v) d = record d { entry_fee_amount = v }
update (set_entry_fee_currency v) d = record d { entry_fee_currency = v }
update (set_registration_mode v) d = record d { registration_mode = v }
update (set_seed_method v) d = record d { seed_method = v }
update (set_auto_approve v) d = record d { auto_approve = v }

pub record SponsorEntry : Type 0 where
  pub name : String
  pub logo_url : String
  pub link_url : String
  pub tier : String
  pub is_header_sponsor : Bool

pub record TournamentFormData : Type 0 where
  pub name : String
  pub start_date : String
  pub end_date : String
  pub venue_id : Option ℕ
  pub league_id : Option ℕ
  pub season_id : Option ℕ
  pub description : String
  pub contact_email : String
  pub contact_phone : String
  pub website_url : String
  pub rules_document_url : String
  pub logo_url : Option String
  pub banner_url : Option String
  pub sponsors : List SponsorEntry

abbrev pub initial_form : TournamentFormData
initial_form = record {
  name = "";
  start_date = "";
  end_date = "";
  venue_id = none;
  league_id = none;
  season_id = none;
  description = "";
  contact_email = "";
  contact_phone = "";
  website_url = "";
  rules_document_url = "";
  logo_url = none;
  banner_url = none;
  sponsors = [];
}

-- The inputs of the first step that set one field; the league and the season have their own pickers.
pub data FormEdit : Type 0 where
  set_name set_start_date set_end_date : String → FormEdit
  set_venue_id : Option ℕ → FormEdit
  set_description set_contact_email set_contact_phone : String → FormEdit
  set_website_url set_rules_document_url : String → FormEdit
  set_logo_url set_banner_url : Option String → FormEdit
  set_sponsors : List SponsorEntry → FormEdit

unfoldable pub edit_form : FormEdit → TournamentFormData → TournamentFormData
edit_form (FormEdit.set_name v) f = record f { name = v }
edit_form (set_start_date v) f = record f { start_date = v }
edit_form (set_end_date v) f = record f { end_date = v }
edit_form (set_venue_id v) f = record f { venue_id = v }
edit_form (set_description v) f = record f { description = v }
edit_form (set_contact_email v) f = record f { contact_email = v }
edit_form (set_contact_phone v) f = record f { contact_phone = v }
edit_form (set_website_url v) f = record f { website_url = v }
edit_form (set_rules_document_url v) f = record f { rules_document_url = v }
edit_form (set_logo_url v) f = record f { logo_url = v }
edit_form (set_banner_url v) f = record f { banner_url = v }
edit_form (set_sponsors v) f = record f { sponsors = v }

-- `text || null`.
abbrev pub text_or_null : String → Option String
text_or_null text = if is_empty text then none else some text

-- A division as it is sent. `scoring_format` is the text of the preset's id, a fee the number of its
-- text: both stand here by what they are made from.
pub record DivisionPayload : Type 0 where
  pub name : String
  pub format : String
  pub gender_restriction : String
  pub bracket_format : String
  pub scoring_format : Option ℕ
  pub max_teams : Option ℕ
  pub max_roster_size : Option ℕ
  pub entry_fee_amount : Option String
  pub entry_fee_currency : String
  pub auto_approve : Bool
  pub registration_mode : String
  pub seed_method : String

-- `id ? … : null`: zero is falsy.
abbrev pub truthy_id : Option ℕ → Option ℕ
truthy_id none = none
truthy_id (some zero) = none
truthy_id (some (suc n)) = some (suc n)

unfoldable pub division_payload : DivisionDraft → DivisionPayload
division_payload d = record {
  name = d.name;
  format = d.format;
  gender_restriction = d.gender_restriction;
  bracket_format = d.bracket_format;
  scoring_format = truthy_id d.scoring_preset_id;
  max_teams = d.max_teams;
  max_roster_size = d.max_roster_size;
  entry_fee_amount = text_or_null d.entry_fee_amount;
  entry_fee_currency = d.entry_fee_currency;
  auto_approve = d.auto_approve;
  registration_mode = d.registration_mode;
  seed_method = d.seed_method;
}
