-- ===== src/Jwt/Issued.antt =====
-- A JWT that was issued verifies until it expires.
use helix_sdk_py.Base.{
  Bool-cases, [], ap, if◌then◌else◌, inl, inr, leb, none, not, pos, some, sym, ℕ, ◌==◌, ◌∙◌, ◌≡◌,
  ◌≢◌,
}
use helix_sdk_py.Base58.RoundTrip.{has_nonzero}
use helix_sdk_py.Base64.{b64url_encode}
use helix_sdk_py.Base64.Nonempty.{b64url_encode-nonempty}
use helix_sdk_py.Base64.RoundTrip.{b64url_decode-encode, b64url_encode-all}
use helix_sdk_py.Errors.{helix, ok, raised}
use helix_sdk_py.Errors.Presentation.{jwt_expired_error}
use helix_sdk_py.Http.Url.{utf8_encode}
use helix_sdk_py.Json.{Json, Members, get, int, obj}
use helix_sdk_py.Jwt.{
  check_eddsa_header, check_fresh, check_jwt_signature, decode_jwt_unsafe, eddsa_header, is_expired,
  issue_jwt, parse_json_part, signature_octets, signed_token, split_token, verify_jwt,
  verify_jwt_parts,
}
use helix_sdk_py.KeyPairs.{sign_data, verify_message}
use helix_sdk_py.Keys.{private_key_bytes}
use helix_sdk_py.Proof.{Crypto}
use helix_sdk_py.Proof.Verifies.{IsSound}
use helix_sdk_py.Session.{json_part, with_dot}
use helix_sdk_py.Session.Claims.{is_past}
use helix_sdk_py.Session.Expiry.{
  json_octets, json_octets-IsByte, json_part-no_dot, json_part-nonempty, letter-no_dot, three_split,
}
use helix_sdk_py.Text.{Bytes, Text, text, text_eq}
use helix_sdk_py.Text.Hex.{from_hex-to_hex, to_hex}
use helix_sdk_py.VpTransport.{Loads, decode_json}

module _ (crypto : Crypto) (sound : IsSound crypto) (loads : Loads) where
  abbrev signature_of : Bytes → Text → Bytes
  signature_of seed input = crypto.sign seed (utf8_encode input)

  signature-ne : (seed : Bytes) (input : Text) → signature_of seed input ≢ []
  signature-ne seed input e = cc (sym (sound.nonzero seed (utf8_encode input)) ∙ ap has_nonzero e)

  signature_verifies :
      (seed : Bytes) (input : Text)
      → check_jwt_signature crypto input (signature_of seed input) (to_hex (crypto.public_key seed))
        ≡ ok tt
  unfolding check_jwt_signature verify_message
  signature_verifies seed input = rw (
    check_jwt_signature,
    verify_message,
    from_hex-to_hex (crypto.public_key seed) (sound.key_octets seed),
    from_hex-to_hex (signature_of seed input) (sound.octets seed _),
    sound.correct seed (utf8_encode input),
  )

  parse_lem :
      (v : Json) (label : Text)
      → loads (json_octets v) ≡ some v
      → parse_json_part loads (json_part v) label ≡ ok v
  unfolding parse_json_part json_part decode_json
  parse_lem v label h =
      rw (
        parse_json_part,
        decode_json,
        b64url_decode-encode (json_octets v) (json_octets-IsByte v),
        h,
      )

  abbrev input_of : Members → Text
  input_of payload = with_dot (json_part eddsa_header) (json_part (obj payload))

  abbrev jwt_of : Bytes → Members → Text
  jwt_of seed payload =
      with_dot (input_of payload) (b64url_encode (signature_of seed (input_of payload)))

  jwt_parts :
      (seed : Bytes) (payload : Members)
      → split_token (jwt_of seed payload)
        ≡ ok (
          json_part eddsa_header,
          json_part (obj payload),
          b64url_encode (signature_of seed (input_of payload)),
        )
  unfolding split_token
  jwt_parts seed payload = rw (
    split_token,
    three_split (json_part eddsa_header) (json_part (obj payload))
        (b64url_encode (signature_of seed (input_of payload))) (json_part-no_dot eddsa_header)
        (json_part-no_dot (obj payload))
        (b64url_encode-all (λ c. not (c == b'.')) (signature_of seed (input_of payload))
          letter-no_dot (sound.octets seed _))
        (json_part-nonempty _) (json_part-nonempty payload)
        (b64url_encode-nonempty (signature_of seed (input_of payload)) (sound.octets seed _)
          (signature-ne seed (input_of payload))),
  )

  issue_lem :
      (key : Text) (seed : Bytes) (payload : Members)
      → private_key_bytes key ≡ some seed
      → issue_jwt crypto payload key ≡ ok (jwt_of seed payload)
  unfolding issue_jwt sign_data signed_token
  issue_lem key seed payload h = rw (
    issue_jwt,
    sign_data,
    h,
    signed_token,
    from_hex-to_hex (signature_of seed (input_of payload)) (sound.octets seed _),
  )

  signature_part_lem :
      (seed : Bytes) (payload : Members)
      → signature_octets (b64url_encode (signature_of seed (input_of payload)))
        ≡ ok (signature_of seed (input_of payload))
  unfolding signature_octets
  signature_part_lem seed payload = rw (
    signature_octets,
    b64url_decode-encode (signature_of seed (input_of payload)) (sound.octets seed _),
  )

  decode_lem :
      (seed : Bytes) (payload : Members)
      → loads (json_octets (obj payload)) ≡ some (obj payload)
      → decode_jwt_unsafe loads (jwt_of seed payload) ≡ ok (obj payload)
  unfolding decode_jwt_unsafe
  decode_lem seed payload h =
      rw (decode_jwt_unsafe, jwt_parts seed payload) (parse_lem (obj payload) (text "payload") h)

  fresh_lem :
      (payload : Members) (expiry later : ℕ)
      → get (text "exp") payload ≡ some (int (pos expiry))
      → check_fresh later (obj payload)
        ≡ (if leb expiry later then raised (helix (jwt_expired_error none)) else ok payload)
  unfolding check_fresh is_expired is_past
  fresh_lem payload expiry later h = elim (Bool-cases (leb expiry later)) [
    | inl past ↦ rw (check_fresh, h, past)
    | inr before ↦ rw (check_fresh, h, before)
  ]

  -- With a supported key a JWT is issued; with the public key of that key it verifies and gives its
  -- payload back before the payload's `exp`, and is refused as expired from then on, if the reader
  -- of JSON reads the header and the payload that were written.
  pub verify_jwt-issue :
      (key : Text) (seed : Bytes) (payload : Members) (expiry later : ℕ)
      → private_key_bytes key ≡ some seed
      → get (text "exp") payload ≡ some (int (pos expiry))
      → loads (json_octets eddsa_header) ≡ some eddsa_header
      → loads (json_octets (obj payload)) ≡ some (obj payload)
      → (token : Text) × (issue_jwt crypto payload key ≡ ok token)
        × (verify_jwt crypto loads later token (to_hex (crypto.public_key seed))
            ≡ (if leb expiry later then raised (helix (jwt_expired_error none)) else ok payload))
  unfolding verify_jwt verify_jwt_parts check_eddsa_header get text_eq
  verify_jwt-issue key seed payload expiry later supported expires reads_header reads_payload = (
    jwt_of seed payload,
    issue_lem key seed payload supported,
    rw
        (
          verify_jwt,
          jwt_parts seed payload,
          verify_jwt_parts,
          parse_lem eddsa_header (text "header") reads_header,
          signature_part_lem seed payload,
          signature_verifies seed (input_of payload),
          decode_lem seed payload reads_payload,
        )
        (fresh_lem payload expiry later expires),
  )
