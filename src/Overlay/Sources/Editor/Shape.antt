-- ===== src/Overlay/Sources/Editor/Shape.antt =====
-- What belongs to a source profile of each type, and that the validation of the editor asks for it
-- (web/src/features/overlay/profiles/SourceProfileEditor.tsx).
use Prim.Native.String.{String}
use court_command.Prelude.{
  ℕ, zero, suc, ◌≡◌, refl, sym, ap, ◌⊎◌, inl, inr, Bool, true, false, false≢true, none, some, List,
  [], ◌∷◌, ◌++◌, arith, if◌then◌else◌, Bool-cases, Option-cases,
}
use court_command.Prelude.Text.{trim, trim-idempotent, is_empty, or_null}
use court_command.Prelude.Maps.{TextMap, get_key}
use court_command.Prelude.Integers.{ℤ, pos, negsuc, below_one}
use court_command.Overlay.Sources.{
  SourceType, court_command_match, rest_api, webhook, AuthType, no_auth, api_key, bearer, basic,
  SourceProfileInput, is_rest, is_webhook,
}
use court_command.Overlay.Sources.Editor.{
  Form, payload, sent_config, FormError, name_missing, url_missing, poll_interval_low,
  auth_token_missing, auth_key_missing, auth_username_missing, auth_password_missing, lacks,
  auth_errors, rest_errors, validate,
}

-- A text that is trimmed and not empty.
abbrev pub IsGiven : String → Type 0
IsGiven text = (trim text ≡ text) × (is_empty text ≡ false)

abbrev pub HasKey : String → TextMap String → Type 0
HasKey key config =
    (text : String) × ((get_key key config ≡ some text) × (is_empty (trim text) ≡ false))

-- The credentials that a way of authentication needs.
abbrev pub HasCredentials : AuthType → TextMap String → Type 0
HasCredentials no_auth config = config ≡ []
HasCredentials bearer config = HasKey "token" config
HasCredentials api_key config = HasKey "key" config
HasCredentials basic config = HasKey "username" config × HasKey "password" config

abbrev pub HasUrl : SourceProfileInput → Type 0
HasUrl i = (url : String) × ((i.api_url ≡ some url) × IsGiven url)

-- No URL to poll, no interval and no authentication.
abbrev pub IsPassive : SourceProfileInput → Type 0
IsPassive i =
    (i.api_url ≡ none)
    × ((i.poll_interval_seconds ≡ none) × ((i.auth_type ≡ no_auth) × (i.auth_config ≡ [])))

-- The fields that go with a type of source.
abbrev pub HasShape : SourceType → SourceProfileInput → Type 0
HasShape rest_api i =
    HasUrl i
    × ((i.webhook_secret ≡ none)
        × (((n : ℕ) × (i.poll_interval_seconds ≡ some (pos (suc n))))
            × HasCredentials i.auth_type i.auth_config))
HasShape webhook i =
    IsPassive i
    × ((i.webhook_secret ≡ none) ⊎ ((s : String) × ((i.webhook_secret ≡ some s) × IsGiven s)))
HasShape court_command_match i = IsPassive i × ((i.webhook_secret ≡ none) × (i.field_mapping ≡ []))

abbrev pub IsWellTyped : SourceProfileInput → Type 0
IsWellTyped i = IsGiven i.name × HasShape i.source_type i

left_nil : {A : Type 0} (xs ys : List A) → xs ++ ys ≡ [] → xs ≡ []
left_nil [] ys h = refl
left_nil (x ∷ xs) ys h = ground arith

right_nil : {A : Type 0} (xs ys : List A) → xs ++ ys ≡ [] → ys ≡ []
right_nil [] ys h = h
right_nil (x ∷ xs) ys h = ground arith

unlisted : {A : Type 0} (b : Bool) (a : A) → (if b then a ∷ [] else []) ≡ [] → b ≡ false
unlisted true a h = ground arith
unlisted false a h = refl

pub trim-IsGiven : (text : String) → is_empty (trim text) ≡ false → IsGiven (trim text)
trim-IsGiven text h = (trim-idempotent text, h)

pub or_null-given : (text : String) → is_empty text ≡ false → or_null text ≡ some text
or_null-given text h = rw h refl

lacks-HasKey :
    (key : String) (config : TextMap String) → lacks key config ≡ false → HasKey key config
unfolding lacks
lacks-HasKey key config h = elim (Option-cases (get_key key config)) [
  | inl e ↦ absurd (false≢true (sym (rw e at h)))
  | inr (text, e) ↦ (text, (e, rw e at h))
]

auth_errors-HasCredentials :
    (auth : AuthType) (config : TextMap String)
    → auth_errors auth config ≡ []
    → HasCredentials auth (sent_config auth config)
unfolding auth_errors sent_config
auth_errors-HasCredentials no_auth config h = refl
auth_errors-HasCredentials bearer config h =
    lacks-HasKey "token" config (unlisted (lacks "token" config) auth_token_missing h)
auth_errors-HasCredentials api_key config h =
    lacks-HasKey "key" config (unlisted (lacks "key" config) auth_key_missing h)
auth_errors-HasCredentials basic config h =
    let user : List FormError =
      if lacks "username" config then auth_username_missing ∷ [] else [] in
    let pass : List FormError =
      if lacks "password" config then auth_password_missing ∷ [] else [] in
    (
      lacks-HasKey "username" config
          (unlisted (lacks "username" config) auth_username_missing (left_nil user pass h)),
      lacks-HasKey "password" config
          (unlisted (lacks "password" config) auth_password_missing (right_nil user pass h)),
    )

positive : (z : ℤ) → below_one z ≡ false → (n : ℕ) × (z ≡ pos (suc n))
unfolding below_one
positive (pos zero) h = absurd (false≢true (sym h))
positive (pos (suc n)) h = (n, refl)
positive (negsuc n) h = absurd (false≢true (sym h))

abbrev form :
    String → SourceType → String → String → AuthType → TextMap String → ℤ → TextMap String → Form
form name type url secret auth config poll mapping = record {
  name = name;
  source_type = type;
  api_url = url;
  webhook_secret = secret;
  auth_type = auth;
  auth_config = config;
  poll_interval = poll;
  field_mapping = mapping;
}

payload-HasShape :
    (name : String) (type : SourceType) (url secret : String) (auth : AuthType)
    (config : TextMap String) (poll : ℤ) (mapping : TextMap String)
    → (if is_rest type
        then rest_errors (form name type url secret auth config poll mapping)
        else [])
      ≡ []
    → HasShape type (payload (form name type url secret auth config poll mapping))
unfolding payload is_rest is_webhook rest_errors
payload-HasShape name rest_api url secret auth config poll mapping h =
    let no_url : List FormError = if is_empty (trim url) then url_missing ∷ [] else [] in
    let low : List FormError = if below_one poll then poll_interval_low ∷ [] else [] in
    let given =
      unlisted (is_empty (trim url)) url_missing
        (left_nil no_url (low ++ auth_errors auth config) h) in
    let h' = right_nil no_url (low ++ auth_errors auth config) h in
    let (n, e) =
      positive poll
        (unlisted (below_one poll) poll_interval_low (left_nil low (auth_errors auth config) h')) in
    (
      (trim url, (or_null-given (trim url) given, trim-IsGiven url given)),
      (
        refl,
        (
          (n, ap some e),
          auth_errors-HasCredentials auth config (right_nil low (auth_errors auth config) h'),
        ),
      ),
    )
payload-HasShape name webhook url secret auth config poll mapping h = (
  (refl, (refl, (refl, refl))),
  elim (Bool-cases (is_empty (trim secret))) [
    | inl e ↦ inl (rw e refl)
    | inr e ↦ inr (trim secret, (or_null-given (trim secret) e, trim-IsGiven secret e))
  ],
)
payload-HasShape name court_command_match url secret auth config poll mapping h =
    ((refl, (refl, (refl, refl))), (refl, refl))

pub validate-IsWellTyped : (f : Form) → validate f ≡ [] → IsWellTyped (payload f)
unfolding validate payload
validate-IsWellTyped f h =
    let unnamed : List FormError = if is_empty (trim f.name) then name_missing ∷ [] else [] in
    let others : List FormError = if is_rest f.source_type then rest_errors f else [] in
    (
      trim-IsGiven f.name
          (unlisted (is_empty (trim f.name)) name_missing (left_nil unnamed others h)),
      payload-HasShape f.name f.source_type f.api_url f.webhook_secret f.auth_type f.auth_config
          f.poll_interval f.field_mapping (right_nil unnamed others h),
    )
