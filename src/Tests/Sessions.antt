-- ===== src/Tests/Sessions.antt =====
-- Documents of keys, and session tokens.
use helix_sdk_py.Base.{[], arith, if◌then◌else◌, none, refl, some, ◌∷◌, ◌≡◌}
use helix_sdk_py.Base64.{
  a2b, b64url_decode, b64url_encode, letter, padding, rstrip_pads, sextet, urlsafe_b64decode,
  urlsafe_b64encode,
}
use helix_sdk_py.Did.{
  build_did_document, extract_public_key-build, extract_public_key_from_did_document,
}
use helix_sdk_py.Errors.{ok}
use helix_sdk_py.Json.{Members, get, nil, obj, texts}
use helix_sdk_py.Json.Loads.{json_loads_octets}
use helix_sdk_py.Session.{
  Hmac, SessionManager, check_header, check_signature, issue, issued_claims, jwt_header, parse_part,
  sign_signing_input, three_parts, verify_parts, verify_token,
}
use helix_sdk_py.Session.Claims.{
  all_links, all_str, assert_claims, check_expiry, is_chain, is_past, is_str_list,
}
use helix_sdk_py.Session.Expiry.{IsDigest}
use helix_sdk_py.Session.Genuine.{IsGenuine, verify_token-IsGenuine}
use helix_sdk_py.Session.Reads.{verify_token-issue_json}
use helix_sdk_py.Session.Split.{split_dots}
use helix_sdk_py.Text.{Text, text, text_eq}
use helix_sdk_py.Text.Hex.{to_hex}
use helix_sdk_py.VpTransport.{Loads, decode_json}

extract_public_key-build_example :
    (document : Members) × (build_did_document (text "did:web:a") (to_hex (7 ∷ 255 ∷ [])) none
      ≡ ok document)
    × (extract_public_key_from_did_document document ≡ ok (to_hex (7 ∷ 255 ∷ [])))
extract_public_key-build_example =
    extract_public_key-build (text "did:web:a") (7 ∷ 255 ∷ []) none (omega arith, (omega arith, tt))

abbrev toy_hmac : Hmac
toy_hmac key message = 1 ∷ []

toy_hmac-IsDigest : IsDigest toy_hmac
toy_hmac-IsDigest = record {
  octets = λ key message. (omega arith, tt);
  filled = λ key message e. cc e;
}

abbrev manager : SessionManager
manager = record { secret = text "sixteen letters!"; ttl = 60 }

abbrev claims_of_agent : Members
claims_of_agent = issued_claims manager 1000 (text "id") (text "did:a") (text "read" ∷ []) nil

verify_token-issue_json_example :
    (token : Text) × (issue toy_hmac manager 1000 (text "id") (text "did:a") (text "read" ∷ []) nil
      ≡ ok token)
    × (verify_token toy_hmac json_loads_octets manager 1059 token ≡ ok claims_of_agent)
unfolding all_links
verify_token-issue_json_example =
    verify_token-issue_json toy_hmac toy_hmac-IsDigest manager 1000 1059 (text "id") (text "did:a")
      (text "read" ∷ []) nil refl refl refl refl refl refl tt

-- Reads one letter as the header and any other text as the claims.
abbrev loads_letter : Loads
loads_letter octets =
    if text_eq octets (text "h") then some jwt_header else some (obj claims_of_agent)

verify_token-IsGenuine_example :
    IsGenuine toy_hmac loads_letter manager 1059 (text "aA.cA.AQ") claims_of_agent
unfolding verify_token verify_parts split_dots three_parts parse_part decode_json b64url_decode
    urlsafe_b64decode padding a2b sextet check_header get text_eq check_signature sign_signing_input
    b64url_encode urlsafe_b64encode rstrip_pads letter assert_claims is_str_list all_str is_chain
    all_links check_expiry is_past issued_claims texts
verify_token-IsGenuine_example =
    verify_token-IsGenuine toy_hmac loads_letter manager 1059 (text "aA.cA.AQ") claims_of_agent refl
