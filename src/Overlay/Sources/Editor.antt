-- ===== src/Overlay/Sources/Editor.antt =====
-- The editor of source profiles (web/src/features/overlay/profiles/SourceProfileEditor.tsx): its
-- form, the payload, the validation, the two requests and the mapping of fields.
pub mod Shape
pub mod Sent
pub mod Reload
use Prim.Native.String.{String}
use court_command.Prelude.{
  ℕ, zero, suc, ◌+◌, ◌-◌, ◌*◌, ◌/◌, ◌%◌, ◌^◌, ◌≤◌, ◌<◌, min, max, ◌≡◌, refl, sym, ap, ◌∙◌, subst,
  ◌≢◌, ◌↔◌, ◌⊎◌, inl, inr, Bool, true, false, not, ◌&&◌, ◌||◌, false≢true, Option, none, some, List,
  [], ◌∷◌, ◌++◌, map, arith, ltb, leb, ◌==◌, if◌then◌else◌, ltb→lt, lt→ltb, leb→le, ==_iff, ==_refl,
  Bool-cases, Option-cases, or_else, if_both, length, get_elem?, filter, any, all, length-append,
  length-filter-le, filter-filter, any-filter, filter-eq_of_length, filter-all, filter-true,
  filter-false, filter-append, All, In, Ordered, All-filter, Ordered-filter, In-filter,
  In-of_filter, In-map, All-map, All-In, All-append, Ordered-map,
}
use court_command.Prelude.Text.{trim, is_empty, or_null, or_empty, same_text}
use court_command.Prelude.Maps.{TextMap, set_key, delete_key, get_key}
use court_command.Prelude.Integers.{ℤ, pos, negsuc, below_one, parse_int}
use court_command.Overlay.Sources.{
  SourceType, court_command_match, rest_api, webhook, AuthType, no_auth, api_key, bearer, basic,
  WireNumber, normalize_poll_interval, SourceProfile, SourceProfileInput, is_rest, is_webhook,
}

pub record Form : Type 0 where
  pub name : String
  pub source_type : SourceType
  pub api_url : String
  pub webhook_secret : String
  pub auth_type : AuthType
  pub auth_config : TextMap String
  pub poll_interval : ℤ
  pub field_mapping : TextMap String

-- The first state, of a new profile and of one that was loaded.
unfoldable pub empty_form : Form
empty_form = record {
  name = "";
  source_type = rest_api;
  api_url = "";
  webhook_secret = "";
  auth_type = no_auth;
  auth_config = [];
  poll_interval = pos 5;
  field_mapping = [];
}

-- `[k, String(v ?? '')]`.
abbrev pub entry_text : String × Option String → String × String
entry_text (k, v) = (k, or_empty v)

unfoldable pub form_of : SourceProfile → Form
form_of p = record {
  name = p.name;
  source_type = p.source_type;
  api_url = or_empty p.api_url;
  webhook_secret = or_empty p.webhook_secret;
  auth_type = p.auth_type;
  auth_config = map entry_text p.auth_config;
  poll_interval = or_else (normalize_poll_interval p.poll_interval_seconds) (pos 5);
  field_mapping = p.field_mapping;
}

-- `isRest && authType !== 'none' ? authConfig : {}`.
unfoldable pub sent_config : AuthType → TextMap String → TextMap String
sent_config no_auth config = []
sent_config _ config = config

unfoldable pub payload : Form → SourceProfileInput
unfolding is_rest is_webhook sent_config
payload f = record {
  name = trim f.name;
  source_type = f.source_type;
  api_url = if is_rest f.source_type then or_null (trim f.api_url) else none;
  webhook_secret = if is_webhook f.source_type then or_null (trim f.webhook_secret) else none;
  auth_type = if is_rest f.source_type then f.auth_type else no_auth;
  auth_config = if is_rest f.source_type then sent_config f.auth_type f.auth_config else [];
  poll_interval_seconds = if is_rest f.source_type then some f.poll_interval else none;
  field_mapping = if is_rest f.source_type || is_webhook f.source_type then f.field_mapping else [];
}

-- The fields that `validate` gives a message for.
pub data FormError : Type 0 where
  name_missing url_missing poll_interval_low auth_token_missing auth_key_missing : FormError
  auth_username_missing auth_password_missing : FormError

-- `!authConfig.key?.trim()`.
unfoldable pub lacks : String → TextMap String → Bool
unfolding get_key
lacks key config = is_empty (trim (or_empty (get_key key config)))

unfoldable pub auth_errors : AuthType → TextMap String → List FormError
unfolding lacks
auth_errors no_auth config = []
auth_errors bearer config = if lacks "token" config then auth_token_missing ∷ [] else []
auth_errors api_key config = if lacks "key" config then auth_key_missing ∷ [] else []
auth_errors basic config =
    (if lacks "username" config then auth_username_missing ∷ [] else [])
    ++ (if lacks "password" config then auth_password_missing ∷ [] else [])

unfoldable pub rest_errors : Form → List FormError
unfolding auth_errors
rest_errors f =
    (if is_empty (trim f.api_url) then url_missing ∷ [] else [])
    ++ ((if below_one f.poll_interval then poll_interval_low ∷ [] else [])
        ++ auth_errors f.auth_type f.auth_config)

unfoldable pub validate : Form → List FormError
unfolding rest_errors is_rest
validate f =
    (if is_empty (trim f.name) then name_missing ∷ [] else [])
    ++ (if is_rest f.source_type then rest_errors f else [])

-- `parseInt(text, 10) || 5`.
unfoldable pub poll_typed : Option ℤ → ℤ
poll_typed none = pos 5
poll_typed (some (pos zero)) = pos 5
poll_typed (some z) = z

-- The inputs of the form. The mapping comes from the FieldMapper.
pub data FormEdit : Type 0 where
  name_edited url_edited secret_edited poll_edited : String → FormEdit
  type_chosen : SourceType → FormEdit
  auth_chosen : AuthType → FormEdit
  credential_edited : (key text : String) → FormEdit
  mapping_changed : TextMap String → FormEdit

unfoldable pub edit_form : FormEdit → Form → Form
unfolding set_key poll_typed
edit_form (name_edited text) f = record f { name = text }
edit_form (url_edited text) f = record f { api_url = text }
edit_form (secret_edited text) f = record f { webhook_secret = text }
edit_form (poll_edited text) f = record f { poll_interval = poll_typed (parse_int text) }
edit_form (type_chosen type) f = record f { source_type = type }
edit_form (auth_chosen type) f = record f { auth_type = type }
edit_form (credential_edited key text) f = record f { auth_config = set_key key text f.auth_config }
edit_form (mapping_changed mapping) f = record f { field_mapping = mapping }

pub record TestResult : Type 0 where
  pub success : Bool
  pub discovered_paths : List String
  pub error : Option String

pub data Request : Type 0 where
  create_profile : SourceProfileInput → Request
  update_profile : (id : ℤ) → SourceProfileInput → Request
  test_connection : SourceProfileInput → Request

-- `profile_id` is the profile edited, if there is one. `left` is true once the page was left.
pub record Editor : Type 0 where
  pub profile_id : Option ℤ
  pub form : Form
  pub errors : List FormError
  pub saving : Bool
  pub testing : Bool
  pub test_result : Option TestResult
  pub sent : List Request
  pub left : Bool

unfoldable pub opened : Option ℤ → Form → Editor
opened profile_id form = record {
  profile_id = profile_id;
  form = form;
  errors = [];
  saving = false;
  testing = false;
  test_result = none;
  sent = [];
  left = false;
}

unfoldable pub save_request : Option ℤ → SourceProfileInput → Request
save_request none input = create_profile input
save_request (some id) input = update_profile id input

-- onSave up to its request, by the errors found.
unfoldable pub on_save : List FormError → Editor → Editor
unfolding payload save_request
on_save [] ed = record ed {
  errors = [];
  saving = true;
  sent = ed.sent ++ save_request ed.profile_id (payload ed.form) ∷ [];
}
on_save (e ∷ es) ed = record ed { errors = e ∷ es }

unfoldable pub on_test : Editor → Editor
unfolding payload
on_test ed = record ed {
  test_result = none;
  testing = true;
  sent = ed.sent ++ test_connection (payload ed.form) ∷ [];
}

-- The button that tests is drawn for a REST profile, and disabled without a URL or while it waits.
unfoldable pub test_enabled : Editor → Bool
unfolding is_rest
test_enabled ed =
    is_rest ed.form.source_type && (not (is_empty (trim ed.form.api_url)) && not ed.testing)

-- What follows the answer to a request; none is a failure.
unfoldable pub save_answered : Bool → Editor → Editor
save_answered true ed = record ed { saving = false; left = true }
save_answered false ed = record ed { saving = false }

unfoldable pub test_answered : Option TestResult → String → Editor → Editor
test_answered (some result) message ed = record ed { testing = false; test_result = some result }
test_answered none message ed = record ed {
  testing = false;
  test_result = some (record { success = false; discovered_paths = []; error = some message });
}

pub data Event : Type 0 where
  edited : FormEdit → Event
  save_clicked test_clicked cancel_clicked : Event
  save_result : (succeeded : Bool) → Event
  test_failed : (message : String) → Event
  test_done : TestResult → Event

unfoldable pub step : Event → Editor → Editor
unfolding edit_form validate on_save on_test test_enabled save_answered test_answered
step (edited edit) ed = record ed { form = edit_form edit ed.form }
step save_clicked ed = if ed.saving then ed else on_save (validate ed.form) ed
step test_clicked ed = if test_enabled ed then on_test ed else ed
step cancel_clicked ed = if ed.saving then ed else record ed { left = true }
step (save_result succeeded) ed = save_answered succeeded ed
step (test_failed message) ed = test_answered none message ed
step (test_done result) ed = test_answered (some result) "" ed

-- Once the page was left, answers come in, but nothing of the editor is there to click.
unfoldable pub run : List Event → Editor → Editor
unfolding step
run [] ed = ed
run (e ∷ es) ed = if ed.left then ed else run es (step e ed)
