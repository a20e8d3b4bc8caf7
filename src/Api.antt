-- ===== src/Api.antt =====
-- The client of the service (web/src/lib/api.ts): what a request comes to. What `fetch` gives is a
-- parameter: a response, or none where it rejects. An amount in a JSON body is natural, an object has
-- each key once, and `undefined` is none.
pub mod Values
pub mod Errors
pub mod Data
mod Examples
use Prim.Native.String.{String}
use court_command.Prelude.{
  ℕ, zero, suc, ◌+◌, ◌-◌, ◌*◌, ◌/◌, ◌%◌, ◌^◌, ◌≤◌, ◌<◌, min, max, ◌≡◌, refl, sym, ap, ◌∙◌, subst,
  ◌≢◌, ◌↔◌, ◌⊎◌, inl, inr, Bool, true, false, not, ◌&&◌, ◌||◌, false≢true, Option, none, some, List,
  [], ◌∷◌, ◌++◌, map, arith, ltb, leb, ◌==◌, if◌then◌else◌, ltb→lt, lt→ltb, leb→le, ==_iff, ==_refl,
  Bool-cases, Option-cases, or_else, if_both, length, get_elem?, filter, any, all, length-append,
  length-filter-le, filter-filter, any-filter, filter-eq_of_length, filter-all, filter-true,
  filter-false, filter-append, All, In, Ordered, All-filter, Ordered-filter, In-filter,
  In-of_filter, In-map, All-map, All-In, All-append, Ordered-map,
}
use court_command.Api.Values.{nil, Json, JsonObject, Value, field, is_truthy}

-- `body` is none where the text is not JSON.
pub record Response : Type 0 where
  pub status : ℕ
  pub body : Option Json

-- `response.ok`, as fetch defines it.
abbrev pub is_ok : ℕ → Bool
is_ok status = leb 200 status && leb status 299

-- The message of an error: the default one for the status, or what the body gives.
pub data ErrorMessage : Type 0 where
  request_failed : ℕ → ErrorMessage
  given : Json → ErrorMessage

pub data ErrorCode : Type 0 where
  unknown_error : ErrorCode
  given : Json → ErrorCode

-- What is thrown: an ApiRequestError, or what reading a body or the network throws.
pub data Failure : Type 0 where
  api_request_error : ℕ → ErrorCode → ErrorMessage → Failure
  syntax_error type_error network_error : Failure

pub data Result (A : Type 0) : Type 0 where
  returned : A → Result A
  thrown : Failure → Result A

-- `value || fallback`, for the fields of the error.
abbrev pub code_or : Value → ErrorCode → ErrorCode
code_or none fallback = fallback
code_or (some v) fallback = if is_truthy (some v) then ErrorCode.given v else fallback

abbrev pub message_or : Value → ErrorMessage → ErrorMessage
message_or none fallback = fallback
message_or (some v) fallback = if is_truthy (some v) then ErrorMessage.given v else fallback

-- The fields of `body.error`, where it is truthy; a value that has no fields gives undefined.
abbrev pub or_undefined : Option Value → Value
or_undefined none = none
or_undefined (some v) = v

abbrev pub error_of : ℕ → Value → Failure
error_of status error =
    if is_truthy error
    then api_request_error status (code_or (or_undefined (field "code" error)) unknown_error)
        (message_or (or_undefined (field "message" error)) (request_failed status))
    else api_request_error status unknown_error (request_failed status)

abbrev pub error_of_field : ℕ → Option Value → Failure
error_of_field status none = api_request_error status unknown_error (request_failed status)
error_of_field status (some error) = error_of status error

-- What `throwApiError` throws; what the `try` throws is caught.
abbrev pub error_of_body : ℕ → Option Json → Failure
error_of_body status none = api_request_error status unknown_error (request_failed status)
error_of_body status (some body) = error_of_field status (field "error" (some body))

pub throw_api_error : {A : Type 0} → Response → Result A
throw_api_error r = thrown (error_of_body r.status r.body)

-- `body.data !== undefined ? body.data : body`; a body that is null has no fields to read.
abbrev pub unwrapped : Json → Option Value → Result Value
unwrapped body none = thrown type_error
unwrapped body (some none) = returned (some body)
unwrapped body (some (some d)) = returned (some d)

abbrev pub parsed : {A : Type 0} → Option Json → (Json → Result A) → Result A
parsed none k = thrown syntax_error
parsed (some body) k = k body

pub handle_response : Response → Result Value
unfolding throw_api_error field
handle_response r =
    if is_ok r.status
    then if r.status == 204
      then returned none
      else parsed r.body (λ body. unwrapped body (field "data" (some body)))
    else throw_api_error r

-- `apiGet`, `apiPost`, `apiPatch`, `apiPut` and `apiDelete`, once the request is made.
pub api_call : Option Response → Result Value
unfolding handle_response
api_call none = thrown network_error
api_call (some r) = handle_response r

pub record PaginatedData : Type 0 where
  pub items : Value
  pub total : Value
  pub limit : Value
  pub offset : Value

-- `value || fallback`.
abbrev pub or_value : Value → Json → Value
or_value v fallback = if is_truthy v then v else some fallback

-- `pagination?.key`.
abbrev pub optional_field : String → Value → Value
optional_field key none = none
optional_field key (some v) = or_undefined (field key (some v))

abbrev pub page_of : Value → Value → PaginatedData
page_of data_field pagination = record {
  items = or_value data_field (Json.array nil);
  total = or_value (optional_field "total" pagination) (Json.number 0);
  limit = or_value (optional_field "limit" pagination) (Json.number 20);
  offset = or_value (optional_field "offset" pagination) (Json.number 0);
}

abbrev pub page : Option Value → Value → Result PaginatedData
page none pagination = thrown type_error
page (some data_field) pagination = returned (page_of data_field pagination)

pub api_get_paginated : Option Response → Result PaginatedData
unfolding throw_api_error field
api_get_paginated none = thrown network_error
api_get_paginated (some r) =
    if is_ok r.status
    then parsed r.body
        (λ body. page (field "data" (some body)) (or_undefined (field "pagination" (some body))))
    else throw_api_error r
