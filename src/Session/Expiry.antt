-- ===== src/Session/Expiry.antt =====
-- A token that was issued verifies until it expires.
use helix_sdk_py.Base.{
  All, Bool, List, [], all, append_assoc, arith, if◌then◌else◌, leb, ltb, not, refl, some, true, ℕ,
  ◌++◌, ◌+◌, ◌<◌, ◌==◌, ◌∷◌, ◌≡◌, ◌≢◌,
}
use helix_sdk_py.Base64.{letter}
use helix_sdk_py.Base64.Nonempty.{b64url_encode-nonempty}
use helix_sdk_py.Base64.RoundTrip.{b64url_decode-encode, b64url_encode-all}
use helix_sdk_py.Errors.{ok}
use helix_sdk_py.Http.Url.{utf8_encode}
use helix_sdk_py.Http.Url.Segment.{utf8_encode-IsByte, utf8_encode-ne}
use helix_sdk_py.Json.{Items, Json, Members, get, obj, texts}
use helix_sdk_py.Json.Dumps.{dumps}
use helix_sdk_py.Json.Dumps.Ascii.{dumps-ascii, escape_ascii-ascii}
use helix_sdk_py.Session.{
  Hmac, SessionManager, check_header, check_signature, compact_format, invalid, issue,
  issued_claims, json_part, jwt_header, parse_part, sign_signing_input, three_parts, token_of,
  verify_parts, verify_token, with_dot,
}
use helix_sdk_py.Session.Claims.{
  AreClaims, all_links, all_str, assert_claims_lem, check_expiry, is_chain, is_past, is_str_list,
}
use helix_sdk_py.Session.Split.{has_no_dot, split-dot, split-no_dot, split_dots}
use helix_sdk_py.Text.{Bytes, Text, nonempty, text, text_eq, text_eq_refl}
use helix_sdk_py.Text.Hex.{IsByte}
use helix_sdk_py.VpTransport.{Loads, decode_json}
use helix_sdk_py.VpTransport.Carries.{ascii-IsByte}

pub letter-no_dot : (v : ℕ) → v < 64 → not (letter v == b'.') ≡ true
unfolding letter
letter-no_dot v h = ground arith

letter-ascii : (v : ℕ) → v < 64 → ltb (letter v) 128 ≡ true
unfolding letter
letter-ascii v h = ground arith

abbrev pub json_octets : Json → Bytes
json_octets v = utf8_encode (dumps compact_format v)

pub json_octets-IsByte : (v : Json) → All IsByte (json_octets v)
json_octets-IsByte v = utf8_encode-IsByte (dumps compact_format v) (
    ascii-IsByte (dumps compact_format v)
      (dumps-ascii compact_format escape_ascii-ascii (omega arith) (omega arith) v))

json_octets-ne : (ms : Members) → json_octets (obj ms) ≢ []
unfolding dumps
json_octets-ne ms = utf8_encode-ne b'{' _

pub json_part-no_dot : (v : Json) → has_no_dot (json_part v) ≡ true
unfolding json_part
json_part-no_dot v =
    b64url_encode-all (λ c. not (c == b'.')) (json_octets v) letter-no_dot (json_octets-IsByte v)

pub json_part-nonempty : (ms : Members) → nonempty (json_part (obj ms)) ≡ true
unfolding json_part
json_part-nonempty ms =
    b64url_encode-nonempty (json_octets (obj ms)) (json_octets-IsByte (obj ms)) (json_octets-ne ms)

parse_json_part :
    (loads : Loads) (message : Text) (v : Json)
    → loads (json_octets v) ≡ some v
    → parse_part loads message (json_part v) ≡ ok v
unfolding parse_part json_part decode_json
parse_json_part loads message v h =
    rw (parse_part, decode_json, b64url_decode-encode (json_octets v) (json_octets-IsByte v), h)

texts-all_str : (xs : List Text) → all_str (texts xs) ≡ true
unfolding all_str texts
texts-all_str [] = refl
texts-all_str (x ∷ xs) = texts-all_str xs

pub three_split :
    (h p s : Text)
    → has_no_dot h ≡ true
    → has_no_dot p ≡ true
    → has_no_dot s ≡ true
    → nonempty h ≡ true
    → nonempty p ≡ true
    → nonempty s ≡ true
    → three_parts (split_dots (with_dot (with_dot h p) s)) ≡ ok (h, p, s)
unfolding three_parts
three_split h p s dh dp ds nh np ns = rw (
  append_assoc h (b'.' ∷ p) (b'.' ∷ s),
  split-dot h (p ++ b'.' ∷ s) dh,
  split-dot p s dp,
  split-no_dot s ds,
  three_parts,
  nh,
  np,
  ns,
)

issued-AreClaims :
    (m : SessionManager) (now : ℕ) (uuid agent_did : Text) (scopes : List Text) (chain : Items)
    → nonempty agent_did ≡ true
    → nonempty uuid ≡ true
    → all_links chain ≡ true
    → AreClaims (issued_claims m now uuid agent_did scopes chain)
unfolding issued_claims get text_eq is_str_list is_chain
issued-AreClaims m now uuid agent_did scopes chain a u l = record {
  agent = a;
  scopes = texts-all_str scopes;
  chain = l;
  jti = u;
  times = refl;
}

issued-expiry :
    (m : SessionManager) (now later : ℕ) (uuid agent_did : Text) (scopes : List Text)
    (chain : Items)
    → check_expiry later (issued_claims m now uuid agent_did scopes chain) ≡ (
        if leb (now + m.ttl) later
        then invalid (text "JWT has expired")
        else ok (issued_claims m now uuid agent_did scopes chain))
unfolding check_expiry issued_claims get text_eq is_past
issued-expiry m now later uuid agent_did scopes chain = refl

-- What is relied on of HMAC-SHA256: a digest is octets, and there are some.
pub record IsDigest (hmac : Hmac) : Type 0 where
  pub octets : (key message : Bytes) → All IsByte (hmac key message)
  pub filled : (key message : Bytes) → hmac key message ≢ []

module _ (hmac : Hmac) (digest : IsDigest hmac) (loads : Loads) where
  signature_all :
      (p : ℕ → Bool) (input secret : Text)
      → ((v : ℕ) → v < 64 → p (letter v) ≡ true)
      → all p (sign_signing_input hmac input secret) ≡ true
  unfolding sign_signing_input
  signature_all p input secret good =
      b64url_encode-all p (hmac (utf8_encode secret) (utf8_encode input)) good (digest.octets _ _)

  signature-nonempty :
      (input secret : Text) → nonempty (sign_signing_input hmac input secret) ≡ true
  unfolding sign_signing_input
  signature-nonempty input secret =
      b64url_encode-nonempty (hmac (utf8_encode secret) (utf8_encode input)) (digest.octets _ _)
        (digest.filled _ _)

  check_own_signature :
      (input secret : Text)
      → check_signature
          (sign_signing_input hmac input secret)
          (sign_signing_input hmac input secret)
        ≡ ok tt
  unfolding check_signature
  check_own_signature input secret = rw (
    check_signature,
    signature_all (λ c. ltb c 128) input secret letter-ascii,
    text_eq_refl (sign_signing_input hmac input secret),
  )

  token_parts :
      (secret : Text) (claims : Members)
      → three_parts (split_dots (token_of hmac secret (obj claims)))
        ≡ ok (
          json_part jwt_header,
          json_part (obj claims),
          sign_signing_input hmac (with_dot (json_part jwt_header) (json_part (obj claims))) secret,
        )
  unfolding token_of
  token_parts secret claims =
      let input : Text = with_dot (json_part jwt_header) (json_part (obj claims)) in
      three_split (json_part jwt_header) (json_part (obj claims))
        (sign_signing_input hmac input secret) (json_part-no_dot jwt_header)
        (json_part-no_dot (obj claims))
        (signature_all (λ c. not (c == b'.')) input secret letter-no_dot) (json_part-nonempty _)
        (json_part-nonempty claims) (signature-nonempty input secret)

  -- A token that was issued, with an agent, an id and a well-formed chain, verifies with the same
  -- manager, and gives the claims back, at any time before its issue plus the time to live, and is
  -- refused as expired from then on, if the reader of JSON reads the header and the claims that
  -- were written.
  pub verify_token-issue :
      (m : SessionManager) (now later : ℕ) (uuid agent_did : Text) (scopes : List Text)
      (chain : Items)
      → nonempty agent_did ≡ true
      → nonempty uuid ≡ true
      → all_links chain ≡ true
      → loads (json_octets jwt_header) ≡ some jwt_header
      → loads (json_octets (obj (issued_claims m now uuid agent_did scopes chain)))
        ≡ some (obj (issued_claims m now uuid agent_did scopes chain))
      → (token : Text) × (issue hmac m now uuid agent_did scopes chain ≡ ok token)
        × (verify_token hmac loads m later token ≡ (
            if leb (now + m.ttl) later
            then invalid (text "JWT has expired")
            else ok (issued_claims m now uuid agent_did scopes chain)))
  unfolding issue verify_token verify_parts check_header text_eq get
  verify_token-issue m now later uuid agent_did scopes chain a u l reads_header reads_claims =
      let claims : Members = issued_claims m now uuid agent_did scopes chain in
      (
        token_of hmac m.secret (obj claims),
        rw (issue, a),
        rw
            (
              verify_token,
              token_parts m.secret claims,
              verify_parts,
              parse_json_part loads (text "JWT header is invalid") jwt_header reads_header,
              check_own_signature (with_dot (json_part jwt_header) (json_part (obj claims)))
                  m.secret,
              parse_json_part loads (text "JWT payload is invalid") (obj claims) reads_claims,
              assert_claims_lem claims (issued-AreClaims m now uuid agent_did scopes chain a u l),
            )
            (issued-expiry m now later uuid agent_did scopes chain),
      )
