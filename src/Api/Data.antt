-- ===== src/Api/Data.antt =====
-- What the client (web/src/lib/api.ts) reads from the bodies that the service sends.
use Prim.Native.String.{String}
use court_command.Prelude.{
  ℕ, ◌≡◌, refl, sym, inl, inr, Bool, true, false, false≢true, none, some, ◌==◌, Bool-cases,
}
use court_command.Prelude.Text.{is_empty}
use court_command.Api.Values.{
  Json, JsonObject, Value, field, is_truthy, lookup, null, boolean, number, object, text, array,
  nil, entry, end,
}
use court_command.Api.{
  is_ok, ErrorMessage, ErrorCode, returned, thrown, api_request_error, throw_api_error,
  handle_response, api_call, api_get_paginated, PaginatedData, page_of, or_value, optional_field,
  or_undefined,
}

-- The bodies of the service: data, and an error with its code and message.
abbrev pub data_body : Json → JsonObject → Json
data_body d rest = object (entry "data" d rest)

abbrev pub error_body : String → String → Json
error_body code message =
    object
      (entry "error" (object (entry "code" (text code) (entry "message" (text message) end))) end)

-- A request returns the data that a response of success other than 204 carries, null included; with
-- any other status, 204 apart, it throws the code and the message that the error of the body
-- carries, if neither is empty.
pub envelope_read :
    (status : ℕ) (d : Json) (rest : JsonObject) (code message : String)
    → (status == 204) ≡ false
    → is_empty code ≡ false
    → is_empty message ≡ false
    → (is_ok status ≡ true
        → api_call (some record { status = status; body = some (data_body d rest) })
          ≡ returned (some d))
      × (is_ok status ≡ false
          → api_call (some record { status = status; body = some (error_body code message) })
            ≡ thrown (
                api_request_error status
                  (ErrorCode.given (text code))
                  (ErrorMessage.given (text message))))
unfolding api_call handle_response throw_api_error field lookup
envelope_read status d rest code message n c m = (λ o. rw (o, n) refl, λ o. rw (o, c, m) refl)

or_value-truthy :
    (v : Value) (j : Json) → is_truthy (some j) ≡ true → is_truthy (or_value v j) ≡ true
or_value-truthy v j h = elim (Bool-cases (is_truthy v)) [ inl e ↦ rw e e | inr e ↦ rw e h ]

abbrev pub is_null : Json → Bool
is_null null = true
is_null _ = false

data_field : (j : Json) → is_null j ≡ false → (v : Value) × (field "data" (some j) ≡ some v)
unfolding field
data_field null h = absurd (false≢true (sym h))
data_field (boolean b) h = (none, refl)
data_field (number n) h = (none, refl)
data_field (text s) h = (none, refl)
data_field (array xs) h = (none, refl)
data_field (object fields) h = (lookup "data" fields, refl)

-- On a response of success whose body is JSON and not null, whatever it holds, the paginated request
-- returns a page: its items and its limit are truthy, so that the limit is never zero.
pub page_returned :
    (status : ℕ) (body : Json)
    → is_ok status ≡ true
    → is_null body ≡ false
    → (p : PaginatedData) × ((api_get_paginated (some record { status = status; body = some body })
          ≡ returned p)
        × ((is_truthy p.items ≡ true) × (is_truthy p.limit ≡ true)))
unfolding api_get_paginated
page_returned status body o h =
    let found = data_field body h in
    let pagination = or_undefined (field "pagination" (some body)) in
    (
      page_of found.0 pagination,
      (
        rw (o, found.1) refl,
        (
          or_value-truthy found.0 (array nil) refl,
          or_value-truthy (optional_field "limit" pagination) (number 20) refl,
        ),
      ),
    )
