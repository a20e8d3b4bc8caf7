-- ===== src/Overlay/Sources/Examples.antt =====
-- Source profiles at concrete inputs.
use court_command.Prelude.{◌≡◌, refl, sym, subst, true, false, none, some, List, [], ◌∷◌, All}
use court_command.Prelude.Text.{is_space}
use court_command.Prelude.Maps.{get_key}
use court_command.Prelude.Integers.{pos}
use court_command.Overlay.Sources.{
  normalize_poll_interval, rest_api, webhook, bearer, wrapped, SourceProfile, SourceProfileInput,
}
use court_command.Overlay.Sources.Editor.{
  Form, empty_form, form_of, payload, validate, name_edited, url_edited, poll_edited, auth_chosen,
  credential_edited, type_chosen, opened, Event, edited, save_clicked, test_clicked, save_result,
  run,
}
use court_command.Overlay.Sources.Editor.Sent.{IsSound, sent_well_typed}
use court_command.Overlay.Sources.Editor.Shape.{IsWellTyped}
use court_command.Overlay.Sources.Editor.Reload.{IsStored, payload_reload, stored_valid}
use court_command.Overlay.Sources.Mapper.{
  MapperEdit, picked, custom_picked, typed, map_edits, field_edits, edits_by_field,
}

-- A REST profile is filled in, tested, saved, and turned into a webhook after a failure.
abbrev session : List Event
session =
    edited (name_edited " Feed ")
    ∷ save_clicked
    ∷ edited (url_edited "https://a.example ")
    ∷ edited (auth_chosen bearer)
    ∷ test_clicked
    ∷ edited (credential_edited "token" "t")
    ∷ edited (poll_edited "30")
    ∷ save_clicked
    ∷ save_result false
    ∷ edited (type_chosen webhook)
    ∷ save_clicked
    ∷ []

sent_well_typed_example : All IsSound (run session (opened (some (pos 7)) empty_form)).sent
sent_well_typed_example = sent_well_typed (some (pos 7)) empty_form session

abbrev filled : Form
filled = record {
  name = " Feed ";
  source_type = rest_api;
  api_url = "https://a.example ";
  webhook_secret = "old";
  auth_type = bearer;
  auth_config = ("token", "t") ∷ [];
  poll_interval = pos 30;
  field_mapping = ("court_name", "court.name") ∷ [];
}

-- The profile as the service returns it.
abbrev stored : SourceProfile
stored = record {
  id = pos 7;
  name = "Feed";
  source_type = rest_api;
  api_url = some "https://a.example";
  webhook_secret = none;
  auth_type = bearer;
  auth_config = ("token", some "t") ∷ [];
  poll_interval_seconds = wrapped (pos 30) true;
  field_mapping = ("court_name", "court.name") ∷ [];
  is_active = true;
}

abbrev input : SourceProfileInput
input = record {
  name = "Feed";
  source_type = rest_api;
  api_url = some "https://a.example";
  webhook_secret = none;
  auth_type = bearer;
  auth_config = ("token", "t") ∷ [];
  poll_interval_seconds = some (pos 30);
  field_mapping = ("court_name", "court.name") ∷ [];
}

input-IsStored : IsStored input stored
unfolding normalize_poll_interval
input-IsStored = record {
  same_name = refl;
  same_type = refl;
  same_url = refl;
  same_secret = refl;
  same_auth = refl;
  same_config = refl;
  same_interval = refl;
  same_mapping = refl;
}

payload-filled : payload filled ≡ input
unfolding payload is_space
payload-filled = refl

payload_reload_example : payload (form_of stored) ≡ payload filled
payload_reload_example =
    payload_reload filled stored
      (subst (λ i. IsStored i stored) (sym payload-filled) input-IsStored)

input-IsWellTyped : IsWellTyped input
unfolding get_key is_space
input-IsWellTyped = (
  (refl, refl),
  (("https://a.example", (refl, (refl, refl))), (refl, ((29, refl), ("t", (refl, refl))))),
)

stored_valid_example : validate (form_of stored) ≡ []
stored_valid_example = stored_valid input stored input-IsStored input-IsWellTyped

abbrev mapping_edits : List MapperEdit
mapping_edits =
    picked "court_name" "court.name" ∷ custom_picked "division_name" ∷ typed "court_name" "" ∷ []

edits_by_field_example :
    get_key "division_name" (map_edits mapping_edits (("round_label", "round") ∷ []))
    ≡ field_edits "division_name" mapping_edits
        (get_key "division_name" (("round_label", "round") ∷ []))
edits_by_field_example =
    edits_by_field mapping_edits "division_name" (("round_label", "round") ∷ [])

abbrev profiles : List SourceProfile
profiles = (record stored { id = pos 1; is_active = false }) ∷ stored ∷ []
