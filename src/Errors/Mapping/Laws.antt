-- ===== src/Errors/Mapping/Laws.antt =====
-- `map_api_error` on every kind of response body.
use helix_sdk_py.Base.{
  Option-cases, [], arith, if◌then◌else◌, inl, inr, none, refl, some, true, ℤ, ◌≡◌, ◌≢◌,
}
use helix_sdk_py.Errors.{HelixError, ok}
use helix_sdk_py.Errors.Mapping.{
  code_to_error, constructor_for, error_for, find_constructor, get_or_default, map_api_error,
  map_error_body,
}
use helix_sdk_py.Errors.Mapping.Status.{HasStatus, status_of-HasStatus}
use helix_sdk_py.Errors.Mapping.Table.{
  canonical_code, find_constructor-Describes, is_error_status, keeps_message,
}
use helix_sdk_py.Json.{Json, Members, get, obj, str, truthy}
use helix_sdk_py.Text.{Text, nonempty, text}

-- The body that helix-api sends with an error.
abbrev pub IsErrorBody : Members → Text → Json → Members → Type 0
IsErrorBody body code message error_body =
    (get (text "error") body ≡ some (obj error_body))
    × (get (text "code") error_body ≡ some (str code))
    × (get_or_default (text "message") (str []) error_body ≡ message)

-- A body with a code of the table gives the error of that code: it carries the code, in its
-- canonical form, and a status from 400 to 599, and the server's message unless the class of the
-- code builds one.
pub map_api_error-known :
    (show : Json → Text) (body error_body : Members) (code : Text) (message : Json)
    → nonempty code ≡ true
    → IsErrorBody body code message error_body
    → find_constructor code (code_to_error show) ≢ none
    → (e : HelixError) × (map_api_error show (obj body) ≡ ok e)
      × (e.code ≡ str (canonical_code code))
      × (is_error_status e.http_status ≡ true)
      × ((if keeps_message code then e.message else message) ≡ message)
unfolding map_api_error map_error_body constructor_for error_for truthy
map_api_error-known show body error_body code message full (is_error, is_code, is_message) known =
    elim (Option-cases (find_constructor code (code_to_error show))) [
      | inl missing ↦ absurd (known missing)
      | inr (ctor, found) ↦
          let d = find_constructor-Describes show code ctor found in
          (ctor message, ground arith, d.code message, d.status message, d.message message)
    ]

-- A body with another code gives a plain error with the code and the message as they came. Its
-- status is the number under "statusCode", or where that key is absent under "status", as an integer
-- or as its decimal text; it is 500 where both keys are absent, and for null, a list, a dict or an
-- empty text.
pub map_api_error-unknown :
    (show : Json → Text) (body error_body : Members) (code : Text) (message : Json) (status : ℤ)
    → nonempty code ≡ true
    → IsErrorBody body code message error_body
    → find_constructor code (code_to_error show) ≡ none
    → HasStatus body status
    → (e : HelixError) × (map_api_error show (obj body) ≡ ok e)
      × (e.code ≡ str code)
      × (e.message ≡ message)
      × (e.http_status ≡ status)
unfolding map_api_error map_error_body constructor_for error_for truthy
map_api_error-unknown show body error_body code message n full (is_error, is_code, is_message) e h =
    (error_for (str code) message body none, ground arith, refl, refl, status_of-HasStatus body n h)
