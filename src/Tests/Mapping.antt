-- ===== src/Tests/Mapping.antt =====
-- `map_api_error` and `_request` on concrete responses.
use helix_sdk_py.Base.{if◌then◌else◌, pos, refl, true, ◌≡◌}
use helix_sdk_py.Errors.{HelixError, ok}
use helix_sdk_py.Errors.Mapping.{code_to_error, find_constructor, map_api_error}
use helix_sdk_py.Errors.Mapping.Laws.{map_api_error-known, map_api_error-unknown}
use helix_sdk_py.Errors.Mapping.Status.{by_status_code, numeral}
use helix_sdk_py.Errors.Mapping.Table.{canonical_code, is_error_status, keeps_message}
use helix_sdk_py.Json.{Json, Members, end, get, int, member, obj, str}
use helix_sdk_py.Text.{Text, text, text_eq}
use helix_sdk_py.Text.Decimal.{decimal, digits_on, int_text}

abbrev show_value : Json → Text
show_value v = text "value"

abbrev error_body_of : Text → Members
error_body_of code =
    member (text "code") (str code) (member (text "message") (str (text "gone")) end)

abbrev body_of : Text → Members
body_of code = member (text "error") (obj (error_body_of code)) end

map_api_error-known_example :
    (e : HelixError) × (map_api_error show_value (obj (body_of (text "VC_EXPIRED"))) ≡ ok e)
    × (e.code ≡ str (canonical_code (text "VC_EXPIRED")))
    × (is_error_status e.http_status ≡ true)
    × ((if keeps_message (text "VC_EXPIRED") then e.message else str (text "gone"))
        ≡ str (text "gone"))
unfolding get text_eq find_constructor code_to_error
map_api_error-known_example =
    map_api_error-known show_value (body_of (text "VC_EXPIRED")) (error_body_of (text "VC_EXPIRED"))
      (text "VC_EXPIRED") (str (text "gone")) refl (refl, refl, refl) (λ e. cc e)

-- The status is a text under "statusCode", which comes before "status".
abbrev unknown_body : Members
unknown_body =
    member (text "statusCode") (str (text "422"))
      (member (text "status") (int (pos 400)) (body_of (text "NEW")))

map_api_error-unknown_example :
    (e : HelixError) × (map_api_error show_value (obj unknown_body) ≡ ok e)
    × (e.code ≡ str (text "NEW"))
    × (e.message ≡ str (text "gone"))
    × (e.http_status ≡ pos 422)
unfolding get text_eq find_constructor code_to_error int_text decimal digits_on
map_api_error-unknown_example =
    map_api_error-unknown show_value unknown_body (error_body_of (text "NEW")) (text "NEW")
      (str (text "gone")) (pos 422) refl (refl, refl, refl) refl
      (by_status_code (str (text "422")) refl (numeral (pos 422)))
