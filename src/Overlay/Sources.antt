-- ===== src/Overlay/Sources.antt =====
-- Where an overlay's data comes from: the source profiles
-- (web/src/features/overlay/types.ts, contract.ts).
-- A field that is left undefined is none, like one that is null.
pub mod Editor
pub mod Mapper
pub mod SetupForms
pub mod Setup
pub mod Tab
mod Examples
use Prim.Native.String.{String}
use court_command.Prelude.{
  ℕ, zero, suc, ◌+◌, ◌-◌, ◌*◌, ◌/◌, ◌%◌, ◌^◌, ◌≤◌, ◌<◌, min, max, ◌≡◌, refl, sym, ap, ◌∙◌, subst,
  ◌≢◌, ◌↔◌, ◌⊎◌, inl, inr, Bool, true, false, not, ◌&&◌, ◌||◌, false≢true, Option, none, some, List,
  [], ◌∷◌, ◌++◌, map, arith, ltb, leb, ◌==◌, if◌then◌else◌, ltb→lt, lt→ltb, leb→le, ==_iff, ==_refl,
  Bool-cases, Option-cases, or_else, if_both, length, get_elem?, filter, any, all, length-append,
  length-filter-le, filter-filter, any-filter, filter-eq_of_length, filter-all, filter-true,
  filter-false, filter-append, All, In, Ordered, All-filter, Ordered-filter, In-filter,
  In-of_filter, In-map, All-map, All-In, All-append, Ordered-map,
}
use court_command.Prelude.Maps.{TextMap}
use court_command.Prelude.Integers.{ℤ}

pub data SourceType : Type 0 where
  court_command_match rest_api webhook : SourceType

pub data AuthType : Type 0 where
  no_auth api_key bearer basic : AuthType

-- A number that the service sends as itself, as { Int64, Valid } or { Int32, Valid }, or not at all.
pub data WireNumber : Type 0 where
  absent : WireNumber
  plain : ℤ → WireNumber
  wrapped : (value : ℤ) (valid : Bool) → WireNumber

unfoldable pub normalize_source_profile_id : WireNumber → Option ℤ
normalize_source_profile_id absent = none
normalize_source_profile_id (plain v) = some v
normalize_source_profile_id (wrapped value valid) = if valid then some value else none

unfoldable pub normalize_poll_interval : WireNumber → Option ℤ
normalize_poll_interval absent = none
normalize_poll_interval (plain v) = some v
normalize_poll_interval (wrapped value valid) = if valid then some value else none

-- Of `auth_config`, a value is the text that String gives of it, or none if it is null.
pub record SourceProfile : Type 0 where
  pub id : ℤ
  pub name : String
  pub source_type : SourceType
  pub api_url : Option String
  pub webhook_secret : Option String
  pub auth_type : AuthType
  pub auth_config : TextMap (Option String)
  pub poll_interval_seconds : WireNumber
  pub field_mapping : TextMap String
  pub is_active : Bool

pub record SourceProfileInput : Type 0 where
  pub name : String
  pub source_type : SourceType
  pub api_url : Option String
  pub webhook_secret : Option String
  pub auth_type : AuthType
  pub auth_config : TextMap String
  pub poll_interval_seconds : Option ℤ
  pub field_mapping : TextMap String

-- `sourceType === 'rest_api'` and `sourceType === 'webhook'`.
unfoldable pub is_rest : SourceType → Bool
is_rest rest_api = true
is_rest _ = false

unfoldable pub is_webhook : SourceType → Bool
is_webhook webhook = true
is_webhook _ = false
