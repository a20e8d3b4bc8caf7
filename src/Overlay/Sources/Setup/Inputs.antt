-- ===== src/Overlay/Sources/Setup/Inputs.antt =====
-- That the guards of the setup wizard let only well-typed profiles through
-- (web/src/features/overlay/setup/SetupWizard.tsx).
use Prim.Native.String.{String}
use court_command.Prelude.{
  ℕ, zero, suc, ◌≡◌, refl, ap, inr, true, false, not, ◌&&◌, Option, none, some, arith,
}
use court_command.Prelude.Text.{trim, trim-idempotent, is_empty}
use court_command.Prelude.Maps.{get_key}
use court_command.Prelude.Integers.{ℤ, pos, negsuc}
use court_command.Overlay.Sources.{
  SourceProfileInput, SourceType, court_command_match, rest_api, webhook, AuthType, no_auth,
  api_key, bearer, basic, is_rest, is_webhook,
}
use court_command.Overlay.Sources.SetupForms.{
  Court, external, SourceForm, source_form_of, wants_token, profile_input, interval_typed,
  SourceEdit, choice_made, profile_named, url_typed, secret_typed, token_typed, webhook_chosen,
  bearer_chosen, interval_edited, edit_source,
}
use court_command.Overlay.Sources.Editor.Shape.{IsGiven, HasShape}

-- What the inputs of the second step let one choose.
abbrev pub TypeFits : SourceType → Type 0
TypeFits court_command_match = ⊥
TypeFits _ = Unit

abbrev pub AuthFits : AuthType → Type 0
AuthFits no_auth = Unit
AuthFits bearer = Unit
AuthFits _ = ⊥

abbrev pub FormFits : SourceForm → Type 0
FormFits f =
    TypeFits f.source_type × (AuthFits f.auth_type × ((n : ℕ) × (f.poll_interval ≡ pos (suc n))))

interval_typed-positive : (o : Option ℤ) → (n : ℕ) × (interval_typed o ≡ pos (suc n))
unfolding interval_typed
interval_typed-positive none = (4, refl)
interval_typed-positive (some (pos zero)) = (4, refl)
interval_typed-positive (some (pos (suc n))) = (n, refl)
interval_typed-positive (some (negsuc n)) = (0, refl)

pub edit-FormFits : (e : SourceEdit) (f : SourceForm) → FormFits f → FormFits (edit_source e f)
unfolding edit_source
edit-FormFits (choice_made choice) f k = k
edit-FormFits (profile_named text) f k = k
edit-FormFits (url_typed text) f k = k
edit-FormFits (secret_typed text) f k = k
edit-FormFits (token_typed text) f k = k
edit-FormFits (webhook_chosen true) f k = (tt, k.1)
edit-FormFits (webhook_chosen false) f k = (tt, k.1)
edit-FormFits (bearer_chosen true) f k = (k.0, (tt, k.1.1))
edit-FormFits (bearer_chosen false) f k = (k.0, (tt, k.1.1))
edit-FormFits (interval_edited number) f k = (k.0, (k.1.0, interval_typed-positive number))

pub source_form_of-Fits : (court : Option Court) → FormFits (source_form_of court)
unfolding source_form_of
source_form_of-Fits court = (tt, (tt, (4, refl)))

pub given : (text : String) → is_empty (trim text) ≡ false → IsGiven (trim text)
given text h = (trim-idempotent text, h)

-- The guards of submit, for the fields of the form.
abbrev pub Guards : String → SourceType → String → String → AuthType → String → Type 0
Guards name type url secret auth token =
    ((not (is_empty (trim name))
        && (not (is_rest type && is_empty (trim url))
            && not (is_webhook type && is_empty (trim secret))))
      ≡ true)
    × ((wants_token type auth && is_empty (trim token)) ≡ false)

-- A webhook has a secret; a profile of a match of this server is not made at all.
abbrev pub HasSecret : SourceType → SourceProfileInput → Type 0
HasSecret webhook i = (s : String) × ((i.webhook_secret ≡ some s) × IsGiven s)
HasSecret rest_api i = Unit
HasSecret court_command_match i = ⊥

abbrev form : String → SourceType → String → String → AuthType → String → ℤ → SourceForm
form name type url secret auth token poll = record {
  source = external;
  name = name;
  source_type = type;
  api_url = url;
  webhook_secret = secret;
  auth_type = auth;
  auth_token = token;
  poll_interval = poll;
  error = none;
}

pub shape :
    (name : String) (type : SourceType) (url secret : String) (auth : AuthType) (token : String)
    (poll : ℤ)
    → FormFits (form name type url secret auth token poll)
    → Guards name type url secret auth token
    → HasShape type (profile_input (form name type url secret auth token poll))
unfolding profile_input is_rest is_webhook wants_token get_key
shape name court_command_match url secret auth token poll k g = absurd k.0
shape name webhook url secret auth token poll k g =
    let full : is_empty (trim secret) ≡ false = ground (arith, g.0) in
    ((refl, (refl, (refl, refl))), inr (trim secret, (refl, given secret full)))
shape name rest_api url secret no_auth token poll (k, (a, (n, e))) g =
    let full : is_empty (trim url) ≡ false = ground (arith, g.0) in
    ((trim url, (refl, given url full)), (refl, ((n, ap some e), refl)))
shape name rest_api url secret bearer token poll (k, (a, (n, e))) g =
    let full : is_empty (trim url) ≡ false = ground (arith, g.0) in
    (
      (trim url, (refl, given url full)),
      (refl, ((n, ap some e), (trim token, (refl, rw (trim-idempotent token) g.1)))),
    )
shape name rest_api url secret api_key token poll (k, (a, e)) g = absurd a
shape name rest_api url secret basic token poll (k, (a, e)) g = absurd a

pub profile_input-HasSecret :
    (name : String) (type : SourceType) (url text : String) (auth : AuthType) (token : String)
    (poll : ℤ)
    → FormFits (form name type url text auth token poll)
    → Guards name type url text auth token
    → HasSecret type (profile_input (form name type url text auth token poll))
unfolding profile_input is_rest is_webhook
profile_input-HasSecret name court_command_match url text auth token poll k g = k.0
profile_input-HasSecret name webhook url text auth token poll k g =
    (trim text, (refl, given text (ground (arith, g.0))))
profile_input-HasSecret name rest_api url text auth token poll k g = tt
