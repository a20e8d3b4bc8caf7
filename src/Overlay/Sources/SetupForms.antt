-- ===== src/Overlay/Sources/SetupForms.antt =====
-- The forms of the setup wizard (web/src/features/overlay/setup/SetupWizard.tsx) and what they send.
-- The interval typed is a whole number, or none where Number gives NaN.
use Prim.Native.String.{String, ◌++◌ as str_append}
use court_command.Prelude.{
  ℕ, zero, suc, Bool, true, false, not, ◌&&◌, Option, none, some, [], ◌∷◌, if◌then◌else◌,
}
use court_command.Prelude.Text.{trim, is_empty, or_null, or_empty}
use court_command.Prelude.Integers.{ℤ, pos, negsuc}
use court_command.Overlay.Sources.{
  SourceType, rest_api, webhook, AuthType, no_auth, bearer, SourceProfileInput, is_rest, is_webhook,
}

pub record Court : Type 0 where
  pub id : ℕ
  pub name : String
  pub slug : String
  pub is_show_court : Bool
  pub notes : Option String

pub data Choice : Type 0 where
  court_matches external : Choice

pub record CourtForm : Type 0 where
  pub name : String
  pub is_show_court : Bool
  pub notes : String
  pub error : Option String

pub record SourceForm : Type 0 where
  pub source : Choice
  pub name : String
  pub source_type : SourceType
  pub api_url : String
  pub webhook_secret : String
  pub auth_type : AuthType
  pub auth_token : String
  pub poll_interval : ℤ
  pub error : Option String

pub record CourtInput : Type 0 where
  pub name : String
  pub is_show_court : Bool
  pub is_active : Bool
  pub is_temporary : Bool
  pub notes : Option String

unfoldable pub court_form_of : Option Court → CourtForm
court_form_of none = record { name = ""; is_show_court = true; notes = ""; error = none }
court_form_of (some c) = record {
  name = c.name;
  is_show_court = c.is_show_court;
  notes = or_empty c.notes;
  error = none;
}

unfoldable pub source_form_of : Option Court → SourceForm
source_form_of court = record {
  source = court_matches;
  name = elim court [ none ↦ "" | some c ↦ str_append c.name " feed" ];
  source_type = rest_api;
  api_url = "";
  webhook_secret = "";
  auth_type = no_auth;
  auth_token = "";
  poll_interval = pos 5;
  error = none;
}

unfoldable pub court_input : CourtForm → CourtInput
court_input f = record {
  name = trim f.name;
  is_show_court = f.is_show_court;
  is_active = true;
  is_temporary = false;
  notes = or_null (trim f.notes);
}

unfoldable pub can_continue : SourceForm → Bool
unfolding is_rest is_webhook
can_continue f = elim (f.source) [
  | court_matches ↦ true
  | external ↦
      not (is_empty (trim f.name))
      && (not (is_rest f.source_type && is_empty (trim f.api_url))
          && not (is_webhook f.source_type && is_empty (trim f.webhook_secret)))
]

unfoldable pub wants_token : SourceType → AuthType → Bool
wants_token rest_api bearer = true
wants_token _ _ = false

unfoldable pub profile_input : SourceForm → SourceProfileInput
unfolding is_rest is_webhook wants_token
profile_input f = record {
  name = trim f.name;
  source_type = f.source_type;
  api_url = if is_rest f.source_type then some (trim f.api_url) else none;
  webhook_secret = if is_webhook f.source_type then some (trim f.webhook_secret) else none;
  auth_type = if is_rest f.source_type then f.auth_type else no_auth;
  auth_config =
      if wants_token f.source_type f.auth_type then ("token", trim f.auth_token) ∷ [] else [];
  poll_interval_seconds = if is_rest f.source_type then some f.poll_interval else none;
  field_mapping = [];
}

-- `Math.max(1, Number(text) || 5)`.
unfoldable pub interval_typed : Option ℤ → ℤ
interval_typed none = pos 5
interval_typed (some (pos zero)) = pos 5
interval_typed (some (pos (suc n))) = pos (suc n)
interval_typed (some (negsuc n)) = pos 1

-- The inputs of the first step, and those of the second.
pub data CourtEdit : Type 0 where
  court_named notes_typed : String → CourtEdit
  show_chosen : Bool → CourtEdit

unfoldable pub edit_court : CourtEdit → CourtForm → CourtForm
edit_court (court_named text) f = record f { name = text }
edit_court (notes_typed text) f = record f { notes = text }
edit_court (show_chosen b) f = record f { is_show_court = b }

pub data SourceEdit : Type 0 where
  choice_made : Choice → SourceEdit
  profile_named url_typed secret_typed token_typed : String → SourceEdit
  webhook_chosen : Bool → SourceEdit
  bearer_chosen : Bool → SourceEdit
  interval_edited : Option ℤ → SourceEdit

unfoldable pub edit_source : SourceEdit → SourceForm → SourceForm
unfolding interval_typed
edit_source (choice_made choice) f = record f { source = choice }
edit_source (profile_named text) f = record f { name = text }
edit_source (url_typed text) f = record f { api_url = text }
edit_source (secret_typed text) f = record f { webhook_secret = text }
edit_source (token_typed text) f = record f { auth_token = text }
edit_source (webhook_chosen b) f = record f { source_type = if b then webhook else rest_api }
edit_source (bearer_chosen b) f = record f { auth_type = if b then bearer else no_auth }
edit_source (interval_edited number) f = record f { poll_interval = interval_typed number }
