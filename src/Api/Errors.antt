-- ===== src/Api/Errors.antt =====
-- Which requests of the client (web/src/lib/api.ts) fail, and with what.
use court_command.Prelude.{
  ℕ, ◌≡◌, refl, inl, inr, Option, none, some, ◌==◌, if◌then◌else◌, Bool-cases, if_both,
}
use court_command.Api.Values.{Json, Value, field, is_truthy}
use court_command.Api.{
  Response, is_ok, Failure, Result, returned, thrown, api_request_error, error_of, error_of_field,
  error_of_body, throw_api_error, unwrapped, parsed, handle_response, api_call, api_get_paginated,
  page, or_undefined,
}

-- The status that a request error carries.
abbrev pub failure_status : Failure → Option ℕ
failure_status (api_request_error status code message) = some status
failure_status _ = none

abbrev pub refused_with : {A : Type 0} → Result A → Option ℕ
refused_with (returned a) = none
refused_with (thrown f) = failure_status f

abbrev pub refused_status : Option Response → Option ℕ
refused_status none = none
refused_status (some r) = if is_ok r.status then none else some r.status

error_of-refused : (status : ℕ) (e : Value) → failure_status (error_of status e) ≡ some status
error_of-refused status e = elim (Bool-cases (is_truthy e)) [
  | inl t ↦ rw t refl
  | inr t ↦ rw t refl
]

error_of_field-refused :
    (status : ℕ) (e : Option Value) → failure_status (error_of_field status e) ≡ some status
error_of_field-refused status none = refl
error_of_field-refused status (some e) = error_of-refused status e

error_of_body-refused :
    (status : ℕ) (body : Option Json) → failure_status (error_of_body status body) ≡ some status
error_of_body-refused status none = refl
error_of_body-refused status (some body) = error_of_field-refused status (field "error" (some body))

unwrapped-refused : (body : Json) (v : Option Value) → refused_with (unwrapped body v) ≡ none
unwrapped-refused body none = refl
unwrapped-refused body (some none) = refl
unwrapped-refused body (some (some d)) = refl

parsed-refused :
    {A : Type 0} (body : Option Json) (k : Json → Result A)
    → ((j : Json) → refused_with (k j) ≡ none)
    → refused_with (parsed body k) ≡ none
parsed-refused none k h = refl
parsed-refused (some j) k h = h j

page-refused : (d : Option Value) (p : Value) → refused_with (page d p) ≡ none
page-refused none p = refl
page-refused (some d) p = refl

handle_response-refused :
    (r : Response) → refused_with (handle_response r) ≡ refused_status (some r)
unfolding handle_response throw_api_error
handle_response-refused r = elim (Bool-cases (is_ok r.status)) [
  | inl e ↦ rw e (
      if_both {A = Result Value} (λ x. refused_with x ≡ none) (r.status == 204) refl
        (parsed-refused r.body (λ body. unwrapped body (field "data" (some body)))
          (λ body. unwrapped-refused body (field "data" (some body)))))
  | inr e ↦ rw e (error_of_body-refused r.status r.body)
]

api_call-refused :
    (response : Option Response) → refused_with (api_call response) ≡ refused_status response
unfolding api_call
api_call-refused none = refl
api_call-refused (some r) = handle_response-refused r

api_get_paginated-refused :
    (response : Option Response)
    → refused_with (api_get_paginated response) ≡ refused_status response
unfolding api_get_paginated throw_api_error
api_get_paginated-refused none = refl
api_get_paginated-refused (some r) = elim (Bool-cases (is_ok r.status)) [
  | inl e ↦ rw e (
      parsed-refused r.body
        (λ body. page (field "data" (some body)) (or_undefined (field "pagination" (some body))))
        (λ body.
          page-refused (field "data" (some body)) (or_undefined (field "pagination" (some body)))))
  | inr e ↦ rw e (error_of_body-refused r.status r.body)
]

-- Whatever the body is, text that is not JSON included, a request and a paginated one throw an
-- ApiRequestError exactly when there is a response whose status is not one of 200 to 299, and the
-- error then carries that status.
pub refused_iff :
    (response : Option Response)
    → (refused_with (api_call response) ≡ refused_status response)
      × (refused_with (api_get_paginated response) ≡ refused_status response)
refused_iff response = (api_call-refused response, api_get_paginated-refused response)
