-- ===== src/VpTransport.antt =====
-- src/helix_sdk/vp_transport.py: where a signed VP travels with a request. `loads` is `json.loads`
-- of octets, with `none` for its ValueError.
pub mod Carries
pub mod Reads
use helix_sdk_py.Base.{List, Option, [], if◌then◌else◌, none, some, ◌∷◌}
use helix_sdk_py.Base58.Digits.{value}
use helix_sdk_py.Base64.{b64url_decode, b64url_encode}
use helix_sdk_py.Errors.{Result, builtin, helix, ok, raised}
use helix_sdk_py.Errors.Mapping.{get_or_default}
use helix_sdk_py.Errors.Presentation.{vp_invalid_structure_error}
use helix_sdk_py.Http.Url.{utf8_encode}
use helix_sdk_py.Json.{Json, Members, arr, cons, end, member, nil, null, obj, str, truthy}
use helix_sdk_py.Json.Dumps.{Format, dumps, escape_ascii}
use helix_sdk_py.Keys.{lower, strip}
use helix_sdk_py.Text.{Bytes, Text, text, text_eq}

abbrev pub helix_vp_header : Text
helix_vp_header = text "X-Helix-VP"

abbrev pub helix_vp_meta_key : Text
helix_vp_meta_key = text "x-helix-vp"

-- `json.dumps(v)` with its defaults.
abbrev pub default_format : Format
default_format = record { escape = escape_ascii; comma = text ", "; colon = text ": " }

unfoldable pub encode_helix_vp : Json → Text
encode_helix_vp vp = b64url_encode (utf8_encode (dumps default_format vp))

abbrev pub invalid_structure {ℓ} : {A : Type ℓ} → Text → Result A
invalid_structure message = raised (helix (vp_invalid_structure_error (some (str message))))

abbrev pub Loads : Type 0
Loads = Bytes → Option Json

-- `json.loads(base64.urlsafe_b64decode(raw + padding))`
unfoldable pub decode_json : Loads → Text → Option Json
decode_json loads raw = elim (b64url_decode raw) [ none ↦ none | some octets ↦ loads octets ]

unfoldable pub decode_helix_vp : Loads → Text → Result Members
decode_helix_vp loads value = elim (decode_json loads (strip value)) [
  | none ↦ invalid_structure (text "X-Helix-VP is not base64url-encoded JSON")
  | some (obj vp) ↦ ok vp
  | some _ ↦ invalid_structure (text "X-Helix-VP is not a JSON object")
]

unfoldable pub helix_vp_headers : Json → List (Text × Text)
helix_vp_headers vp = (helix_vp_header, encode_helix_vp vp) ∷ []

abbrev pub as_some : Result Members → Result (Option Members)
as_some (ok vp) = ok (some vp)
as_some (raised e) = raised e

-- `decode_helix_vp(raw) if raw else None`; a value that is no text has no `strip`.
unfoldable pub decode_if_given : Loads → Json → Result (Option Members)
decode_if_given loads (str (c ∷ s)) = as_some (decode_helix_vp loads (c ∷ s))
decode_if_given loads v =
    if truthy v then raised (builtin (text "AttributeError") (text "strip")) else ok none

-- `raw[0] if raw else None` of a list, and any other value as it is.
abbrev pub first_of_list : Json → Json
first_of_list (arr nil) = null
first_of_list (arr (cons v _)) = v
first_of_list v = v

-- The value of the first header whose name is the VP's, in any case; None where there is none.
unfoldable pub header_value : Members → Json
header_value end = null
header_value (member k v ms) = if text_eq (lower k) helix_vp_meta_key then v else header_value ms

-- `read_helix_vp_header(headers)`, for None or a dict.
unfoldable pub read_helix_vp_header : Loads → Json → Result (Option Members)
read_helix_vp_header loads (obj headers) =
    decode_if_given loads (first_of_list (header_value headers))
read_helix_vp_header loads headers =
    if truthy headers then raised (builtin (text "AttributeError") (text "items")) else ok none

-- `read_helix_vp_meta` on the value under the VP's key, None if there is none.
unfoldable pub decode_meta : Loads → Json → Result (Option Members)
decode_meta loads null = ok none
decode_meta loads (str []) = ok none
decode_meta loads (str (c ∷ s)) = as_some (decode_helix_vp loads (c ∷ s))
decode_meta loads v =
    invalid_structure (text "_meta[\"x-helix-vp\"] must be a base64url-encoded string")

unfoldable pub read_helix_vp_meta : Loads → Json → Result (Option Members)
read_helix_vp_meta loads (obj meta) = decode_meta loads (get_or_default helix_vp_meta_key null meta)
read_helix_vp_meta loads meta =
    if truthy meta then raised (builtin (text "AttributeError") (text "get")) else ok none
