-- ===== src/Jwt.antt =====
-- src/helix_sdk/jwt.py. Ed25519 is a `Crypto`; the clock and the reader of JSON are arguments.
pub mod Reads
pub mod Genuine
pub mod Issued
use helix_sdk_py.Errors.{◌>>=◌}
use helix_sdk_py.Base.{Bool, Option, [], false, if◌then◌else◌, none, some, true, ℕ, ◌&&◌, ◌++◌, ◌∷◌}
use helix_sdk_py.Base64.{b64url_decode, b64url_encode}
use helix_sdk_py.Client.{dict}
use helix_sdk_py.Errors.{Result, builtin, helix, ok, raised}
use helix_sdk_py.Errors.Mapping.{get_or_default}
use helix_sdk_py.Errors.Presentation.{invalid_jwt_error, jwt_expired_error}
use helix_sdk_py.Http.Laws.{header}
use helix_sdk_py.Http.Url.{utf8_encode}
use helix_sdk_py.Json.{Json, Members, bool, get, int, null, obj, str}
use helix_sdk_py.KeyPairs.{of_text, sign_data, verify_message}
use helix_sdk_py.Proof.{Crypto, value_error}
use helix_sdk_py.Session.{is_text, json_part, three_parts, with_dot}
use helix_sdk_py.Session.Claims.{is_past}
use helix_sdk_py.Session.Split.{split_dots}
use helix_sdk_py.Text.{Bytes, Text, text}
use helix_sdk_py.Text.Hex.{from_hex, to_hex}
use helix_sdk_py.VpTransport.{Loads, decode_json}

abbrev pub invalid_jwt {ℓ} : {A : Type ℓ} → Text → Result A
invalid_jwt message = raised (helix (invalid_jwt_error (some (str message))))

abbrev pub eddsa_header : Json
eddsa_header = obj (
    dict (
      (text "alg", str (text "EdDSA"))
      ∷ (text "typ", str (text "JWT"))
      ∷ (text "crv", str (text "Ed25519"))
      ∷ []))

-- `_split_token`, which splits as the sessions do, with its own error.
unfoldable pub split_token : Text → Result (Text × Text × Text)
split_token token = elim (three_parts (split_dots token)) [
  | ok parts ↦ ok parts
  | raised e ↦ invalid_jwt (text "JWT must contain header, payload, and signature")
]

-- `_parse_json_part`; `loads` decodes UTF-8 too.
unfoldable pub parse_json_part : Loads → Text → Text → Result Json
parse_json_part loads part label = elim (decode_json loads part) [
  | none ↦ invalid_jwt (text "JWT " ++ label ++ text " is invalid JSON")
  | some v ↦ ok v
]

unfoldable pub check_eddsa_header : Json → Result (Unit {0})
check_eddsa_header (obj header) =
    if is_text (text "EdDSA") (get_or_default (text "alg") null header)
      && (is_text (text "JWT") (get_or_default (text "typ") null header)
          && is_text (text "Ed25519") (get_or_default (text "crv") null header))
    then ok tt
    else invalid_jwt (text "JWT header is not supported")
check_eddsa_header v = raised (builtin (text "AttributeError") (text "get"))

unfoldable pub signature_octets : Text → Result Bytes
signature_octets part = elim (b64url_decode part) [
  | none ↦ invalid_jwt (text "JWT contains invalid base64url encoding")
  | some octets ↦ ok octets
]

-- `payload.get("exp", 0) <= now`; only a number can be compared.
unfoldable pub is_expired : ℕ → Option Json → Result Bool
is_expired now none = ok true
is_expired now (some (int n)) = ok (is_past now (some (int n)))
is_expired now (some (bool b)) = ok (is_past now (some (bool b)))
is_expired now (some v) = raised (builtin (text "TypeError") (text "<="))

unfoldable pub check_fresh : ℕ → Json → Result Members
check_fresh now (obj payload) = elim (is_expired now (get (text "exp") payload)) [
  | ok true ↦ raised (helix (jwt_expired_error none))
  | ok false ↦ ok payload
  | raised e ↦ raised e
]
check_fresh now v = raised (builtin (text "AttributeError") (text "get"))

unfoldable pub decode_jwt_unsafe : Loads → Text → Result Json
decode_jwt_unsafe loads token = split_token token >>= λ (_, payload_part, _).
    parse_json_part loads payload_part (text "payload")

module _ (crypto : Crypto) where
  -- The signature's hex, back to octets, in base64url.
  unfoldable pub signed_token : Text → Text → Result Text
  signed_token signing_input signature_hex = elim (from_hex signature_hex) [
    | none ↦ value_error
    | some signature ↦ ok (with_dot signing_input (b64url_encode signature))
  ]

  unfoldable pub issue_jwt : Members → Text → Result Text
  issue_jwt payload private_key_hex =
      let signing_input : Text = with_dot (json_part eddsa_header) (json_part (obj payload)) in
      sign_data crypto (of_text signing_input) private_key_hex >>= signed_token signing_input

  unfoldable pub check_jwt_signature : Text → Bytes → Text → Result (Unit {0})
  check_jwt_signature signing_input signature public_key_hex =
      if verify_message crypto (utf8_encode signing_input) (to_hex signature) public_key_hex
      then ok tt
      else invalid_jwt (text "JWT signature is invalid")

  unfoldable pub verify_jwt_parts : Loads → ℕ → Text → Text → Text × Text × Text → Result Members
  verify_jwt_parts loads now token public_key_hex (header_part, payload_part, signature_part) = do
    header ← parse_json_part loads header_part (text "header")
    _ ← check_eddsa_header header
    signature ← signature_octets signature_part
    _ ← check_jwt_signature (with_dot header_part payload_part) signature public_key_hex
    payload ← decode_jwt_unsafe loads token
    check_fresh now payload

  unfoldable pub verify_jwt : Loads → ℕ → Text → Text → Result Members
  verify_jwt loads now token public_key_hex =
      split_token token >>= verify_jwt_parts loads now token public_key_hex

  -- The method of `HelixClient`.
  unfoldable pub verify_session_token : Loads → ℕ → Text → Text → Result Members
  verify_session_token = verify_jwt
