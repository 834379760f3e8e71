-- ===== src/Tests/Jwts.antt =====
-- JWTs by the toy scheme.
use helix_sdk_py.Base.{[], if◌then◌else◌, pos, refl, some, ◌∷◌, ◌≡◌}
use helix_sdk_py.Base64.{a2b, b64url_decode, padding, sextet, urlsafe_b64decode}
use helix_sdk_py.Errors.{ok}
use helix_sdk_py.Http.Url.{utf8_encode}
use helix_sdk_py.Json.{Members, end, get, int, member, obj, str}
use helix_sdk_py.Json.Loads.{json_loads_octets}
use helix_sdk_py.Jwt.{
  check_eddsa_header, check_fresh, check_jwt_signature, decode_jwt_unsafe, eddsa_header, is_expired,
  issue_jwt, parse_json_part, signature_octets, split_token, verify_jwt, verify_jwt_parts,
}
use helix_sdk_py.Jwt.Genuine.{IsGenuineJwt, verify_jwt-IsGenuineJwt}
use helix_sdk_py.Jwt.Reads.{verify_jwt-issue_json}
use helix_sdk_py.KeyPairs.{verify_message}
use helix_sdk_py.Proof.{Crypto}
use helix_sdk_py.Session.{three_parts}
use helix_sdk_py.Session.Claims.{is_past}
use helix_sdk_py.Session.Split.{split_dots}
use helix_sdk_py.Tests.{private_key, private_key_lem, seed_octets, toy_crypto, toy_crypto-IsSound}
use helix_sdk_py.Text.{Text, text, text_eq}
use helix_sdk_py.Text.Hex.{from_hex, to_hex}
use helix_sdk_py.VpTransport.{Loads, decode_json}

abbrev session : Members
session = member (text "sub") (str (text "did:a")) (member (text "exp") (int (pos 1000)) end)

verify_jwt-issue_json_example :
    (token : Text) × (issue_jwt toy_crypto session private_key ≡ ok token)
    × (verify_jwt toy_crypto json_loads_octets 999 token
          (to_hex (toy_crypto.public_key seed_octets))
        ≡ ok session)
unfolding get text_eq
verify_jwt-issue_json_example =
    verify_jwt-issue_json toy_crypto toy_crypto-IsSound private_key seed_octets session 1000 999
      private_key_lem refl (refl, refl, refl, (refl, refl, tt, tt))

-- Reads one letter as the header and any other text as the claims.
abbrev loads_letter : Loads
loads_letter octets = if text_eq octets (text "h") then some eddsa_header else some (obj session)

abbrev easy_crypto : Crypto
easy_crypto = record {
  sha256 = λ message. message;
  sign = λ seed message. 1 ∷ [];
  public_key = λ seed. seed;
  verify = λ key message signature. text_eq signature (1 ∷ []);
}

verify_jwt-IsGenuineJwt_example :
    IsGenuineJwt easy_crypto loads_letter 999 (text "aA.cA.AQ") (text "07") session
unfolding verify_jwt verify_jwt_parts split_token split_dots three_parts parse_json_part decode_json
    b64url_decode urlsafe_b64decode padding a2b sextet check_eddsa_header get text_eq
    signature_octets check_jwt_signature verify_message from_hex to_hex utf8_encode
    decode_jwt_unsafe check_fresh is_expired is_past
verify_jwt-IsGenuineJwt_example =
    verify_jwt-IsGenuineJwt easy_crypto loads_letter 999 (text "aA.cA.AQ") (text "07") session refl
