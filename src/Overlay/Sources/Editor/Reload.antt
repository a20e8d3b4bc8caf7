-- ===== src/Overlay/Sources/Editor/Reload.antt =====
-- That a profile survives its editing (web/src/features/overlay/profiles/SourceProfileEditor.tsx).
use Prim.Native.String.{String}
use court_command.Prelude.{
  ◌≡◌, refl, ap, ◌∙◌, inl, inr, false, Option, some, [], ◌∷◌, map, Bool-cases, or_else,
}
use court_command.Prelude.Text.{trim, trim-idempotent, is_empty, or_null, or_empty}
use court_command.Prelude.Maps.{TextMap}
use court_command.Prelude.Integers.{ℤ, pos}
use court_command.Overlay.Sources.{
  SourceType, court_command_match, rest_api, webhook, AuthType, no_auth, api_key, bearer, basic,
  SourceProfile, SourceProfileInput, is_rest, is_webhook, normalize_poll_interval,
}
use court_command.Prelude.Integers.{below_one}
use court_command.Overlay.Sources.Editor.Shape.{
  IsGiven, HasKey, HasCredentials, HasShape, IsWellTyped,
}
use court_command.Overlay.Sources.Editor.{
  lacks, auth_errors, rest_errors, validate, entry_text, Form, form_of, payload, sent_config,
}

abbrev pub stored_entry : String × String → String × Option String
stored_entry (k, v) = (k, some v)

-- The profile that the service returns after it was given the input: the fields are the input's,
-- and the interval is sent in one of the shapes that stand for it.
pub record IsStored (i : SourceProfileInput) (p : SourceProfile) : Type 0 where
  pub same_name : p.name ≡ i.name
  pub same_type : p.source_type ≡ i.source_type
  pub same_url : p.api_url ≡ i.api_url
  pub same_secret : p.webhook_secret ≡ i.webhook_secret
  pub same_auth : p.auth_type ≡ i.auth_type
  pub same_config : p.auth_config ≡ map stored_entry i.auth_config
  pub same_interval : normalize_poll_interval p.poll_interval_seconds ≡ i.poll_interval_seconds
  pub same_mapping : p.field_mapping ≡ i.field_mapping

-- `value.trim() || null`, and what the form makes of it.
or_null-again :
    (text : String) → or_null (trim (or_empty (or_null (trim text)))) ≡ or_null (trim text)
or_null-again text = elim (Bool-cases (is_empty (trim text))) [
  | inl e ↦ rw e refl
  | inr e ↦ rw e (ap or_null (trim-idempotent text) ∙ rw e refl)
]

config-again : (m : TextMap String) → map entry_text (map stored_entry m) ≡ m
config-again [] = refl
config-again ((k, v) ∷ m) = ap (λ r. (k, v) ∷ r) (config-again m)

-- The form of the payload's fields.
abbrev again : SourceProfileInput → Form
again i = record {
  name = i.name;
  source_type = i.source_type;
  api_url = or_empty i.api_url;
  webhook_secret = or_empty i.webhook_secret;
  auth_type = i.auth_type;
  auth_config = i.auth_config;
  poll_interval = or_else i.poll_interval_seconds (pos 5);
  field_mapping = i.field_mapping;
}

form_of-again : (i : SourceProfileInput) (p : SourceProfile) → IsStored i p → form_of p ≡ again i
unfolding form_of
form_of-again i p h =
    rw
      (
        h.same_name,
        h.same_type,
        h.same_url,
        h.same_secret,
        h.same_auth,
        h.same_config,
        h.same_interval,
        h.same_mapping,
        config-again i.auth_config,
      )
      refl

sent_config-again :
    (auth : AuthType) (config : TextMap String)
    → sent_config auth (sent_config auth config) ≡ sent_config auth config
unfolding sent_config
sent_config-again no_auth config = refl
sent_config-again bearer config = refl
sent_config-again api_key config = refl
sent_config-again basic config = refl

payload-again :
    (name : String) (type : SourceType) (url secret : String) (auth : AuthType)
    (config : TextMap String) (poll : ℤ) (mapping : TextMap String)
    → let f : Form = record {
      name = name;
      source_type = type;
      api_url = url;
      webhook_secret = secret;
      auth_type = auth;
      auth_config = config;
      poll_interval = poll;
      field_mapping = mapping;
    } in
      payload (again (payload f)) ≡ payload f
unfolding payload is_rest is_webhook
payload-again name rest_api url secret auth config poll mapping =
    rw (trim-idempotent name, or_null-again url, sent_config-again auth config) refl
payload-again name webhook url secret auth config poll mapping =
    rw (trim-idempotent name, or_null-again secret) refl
payload-again name court_command_match url secret auth config poll mapping =
    rw (trim-idempotent name) refl

-- A form is saved, the service stores what it was sent, and the profile is opened in the editor
-- again: what the editor would send now is what it sent.
pub payload_reload :
    (f : Form) (p : SourceProfile) → IsStored (payload f) p → payload (form_of p) ≡ payload f
payload_reload f p h =
    ap payload (form_of-again (payload f) p h)
    ∙ payload-again f.name f.source_type f.api_url f.webhook_secret f.auth_type f.auth_config
        f.poll_interval f.field_mapping

-- A credential that is there is not missed.
HasKey-lacks :
    (key : String) (config : TextMap String) → HasKey key config → lacks key config ≡ false
unfolding lacks
HasKey-lacks key config (text, (e, h)) = rw e h

auth_errors-none :
    (a : AuthType) (config : TextMap String) → HasCredentials a config → auth_errors a config ≡ []
unfolding auth_errors
auth_errors-none no_auth config k = refl
auth_errors-none bearer config k = rw (HasKey-lacks "token" config k) refl
auth_errors-none api_key config k = rw (HasKey-lacks "key" config k) refl
auth_errors-none basic config k =
    rw (HasKey-lacks "username" config k.0, HasKey-lacks "password" config k.1) refl

stored_fits :
    (t : SourceType) (i : SourceProfileInput)
    → HasShape t i
    → i.source_type ≡ t
    → IsGiven i.name
    → validate (again i) ≡ []
unfolding validate rest_errors auth_errors is_rest below_one
stored_fits rest_api i ((url, (u, (ut, ug))), (s, ((n, p), c))) e (nt, ng) =
    rw (e, nt, ng, u, p) (rw (ut, ug) (auth_errors-none i.auth_type i.auth_config c))
stored_fits webhook i k e (nt, ng) = rw (e, nt, ng) refl
stored_fits court_command_match i k e (nt, ng) = rw (e, nt, ng) refl

-- A profile that holds what a well-typed input gave it, by the editor or by the setup wizard, opens
-- in the editor without an error to correct.
pub stored_valid :
    (i : SourceProfileInput) (p : SourceProfile)
    → IsStored i p
    → IsWellTyped i
    → validate (form_of p) ≡ []
stored_valid i p h k = ap validate (form_of-again i p h) ∙ stored_fits i.source_type i k.1 refl k.0
