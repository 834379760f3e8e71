-- ===== src/Session.antt =====
-- src/helix_sdk/session_manager.py. HMAC-SHA256, the UUID, the clock and the reader of JSON are
-- arguments.
pub mod Reads
pub mod Split
pub mod Claims
pub mod Genuine
pub mod Expiry
use helix_sdk_py.Errors.{◌>>=◌}
use helix_sdk_py.Base.{
  Bool, List, [], all, false, if◌then◌else◌, length, ltb, none, pos, some, ℕ, ◌&&◌, ◌++◌, ◌+◌, ◌==◌,
  ◌∷◌,
}
use helix_sdk_py.Base64.{b64url_encode}
use helix_sdk_py.Client.{dict}
use helix_sdk_py.Errors.{Result, builtin, ok, raised}
use helix_sdk_py.Errors.Mapping.{get_or_default}
use helix_sdk_py.Http.Laws.{header}
use helix_sdk_py.Http.Url.{utf8_encode}
use helix_sdk_py.Json.{Items, Json, Members, arr, int, null, obj, str, texts}
use helix_sdk_py.Json.Dumps.{Format, dumps, escape_ascii}
use helix_sdk_py.Session.Claims.{assert_claims, check_expiry}
use helix_sdk_py.Session.Split.{split_dots}
use helix_sdk_py.Text.{Bytes, Text, nonempty, text, text_eq}
use helix_sdk_py.VpTransport.{Loads, decode_json}

-- A ValueError with its message.
abbrev pub invalid {ℓ} : {A : Type ℓ} → Text → Result A
invalid message = raised (builtin (text "ValueError") message)

-- `hmac.new(secret, message, sha256).digest()`
abbrev pub Hmac : Type 0
Hmac = Bytes → Bytes → Bytes

pub record SessionManager : Type 0 where
  pub secret : Text
  pub ttl : ℕ

-- `SessionManager(secret, ttl)`, for a `ttl` that is no negative number.
unfoldable pub session_manager : Text → ℕ → Result SessionManager
session_manager secret ttl =
    if ltb (length secret) 16
    then invalid (text "SessionManager secret must be at least 16 characters")
    else if ttl == 0
    then invalid (text "SessionManager ttl must be a positive integer (seconds)")
    else ok (record { secret = secret; ttl = ttl })

-- `json.dumps(v, separators=(",", ":"))`
abbrev pub compact_format : Format
compact_format = record { escape = escape_ascii; comma = text ","; colon = text ":" }

unfoldable pub json_part : Json → Text
json_part v = b64url_encode (utf8_encode (dumps compact_format v))

abbrev pub jwt_header : Json
jwt_header = obj (dict ((text "alg", str (text "HS256")) ∷ (text "typ", str (text "JWT")) ∷ []))

unfoldable pub sign_signing_input : Hmac → Text → Text → Text
sign_signing_input hmac signing_input secret =
    b64url_encode (hmac (utf8_encode secret) (utf8_encode signing_input))

-- `[…] or []` of a list of links.
unfoldable pub issued_claims : SessionManager → ℕ → Text → Text → List Text → Items → Members
issued_claims m now uuid agent_did scopes delegation_chain = dict (
    (text "agentDid", str agent_did)
    ∷ (text "scopes", arr (texts scopes))
    ∷ (text "delegationChain", arr delegation_chain)
    ∷ (text "iat", int (pos now))
    ∷ (text "exp", int (pos (now + m.ttl)))
    ∷ (text "jti", str uuid)
    ∷ [])

abbrev pub with_dot : Text → Text → Text
with_dot s t = s ++ b'.' ∷ t

unfoldable pub token_of : Hmac → Text → Json → Text
token_of hmac secret claims =
    let signing_input : Text = with_dot (json_part jwt_header) (json_part claims) in
    with_dot signing_input (sign_signing_input hmac signing_input secret)

-- `issue`
unfoldable pub issue : Hmac → SessionManager → ℕ → Text → Text → List Text → Items → Result Text
issue hmac m now uuid agent_did scopes delegation_chain =
    if nonempty agent_did
    then ok
        (token_of hmac m.secret (obj (issued_claims m now uuid agent_did scopes delegation_chain)))
    else invalid (text "issue() requires agentDid")

-- `parts[0], parts[1], parts[2]` of three that are not empty.
unfoldable pub three_parts : List Text → Result (Text × Text × Text)
three_parts (h ∷ p ∷ s ∷ []) =
    if nonempty h && (nonempty p && nonempty s)
    then ok (h, p, s)
    else invalid (text "JWT must contain header, payload, and signature")
three_parts _ = invalid (text "JWT must contain header, payload, and signature")

-- `json.loads(_b64url_decode_str(part))`, with every failure as a ValueError. `loads` decodes UTF-8
-- too.
unfoldable pub parse_part : Loads → Text → Text → Result Json
parse_part loads message part = elim (decode_json loads part) [
  | none ↦ invalid message
  | some v ↦ ok v
]

-- `v == s` for a value and a text.
abbrev pub is_text : Text → Json → Bool
is_text s (str t) = text_eq t s
is_text s _ = false

-- Only a dict has `get`.
unfoldable pub check_header : Json → Result (Unit {0})
check_header (obj header) =
    if is_text (text "HS256") (get_or_default (text "alg") null header)
      && is_text (text "JWT") (get_or_default (text "typ") null header)
    then ok tt
    else invalid (text "JWT header is not supported")
check_header v = raised (builtin (text "AttributeError") (text "get"))

-- `hmac.compare_digest` of texts takes ASCII only; what it is compared to is ASCII.
unfoldable pub check_signature : Text → Text → Result (Unit {0})
check_signature signature_part expected_signature =
    if all (λ c. ltb c 128) signature_part
    then if text_eq signature_part expected_signature
      then ok tt
      else invalid (text "JWT signature is invalid")
    else raised (builtin (text "TypeError") (text "comparing strings with non-ASCII characters"))

-- `verify`
module _ (hmac : Hmac) (loads : Loads) (m : SessionManager) (now : ℕ) where
  unfoldable pub verify_parts : Text × Text × Text → Result Members
  verify_parts (header_part, payload_part, signature_part) = do
    header ← parse_part loads (text "JWT header is invalid") header_part
    _ ← check_header header
    _ ←
        check_signature signature_part
          (sign_signing_input hmac (with_dot header_part payload_part) m.secret)
    payload ← parse_part loads (text "JWT payload is invalid") payload_part
    claims ← assert_claims payload
    check_expiry now claims

  unfoldable pub verify_token : Text → Result Members
  verify_token token = three_parts (split_dots token) >>= verify_parts
