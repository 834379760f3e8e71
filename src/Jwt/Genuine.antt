-- ===== src/Jwt/Genuine.antt =====
-- What a JWT that `verify_jwt` accepts has shown.
use helix_sdk_py.Base.{
  Bool, Option, Option-cases, [], ap, arith, false, inl, inr, none, refl, some, subst, sym, true, ℕ,
  ◌∙◌, ◌∷◌, ◌≡◌,
}
use helix_sdk_py.Base64.{b64url_decode}
use helix_sdk_py.Errors.{Result, bind_inversion, ok, raised}
use helix_sdk_py.Http.Laws.{header}
use helix_sdk_py.Http.Url.{utf8_encode}
use helix_sdk_py.Json.{Json, Members, arr, bool, get, int, null, obj, str}
use helix_sdk_py.Jwt.{
  check_eddsa_header, check_fresh, check_jwt_signature, decode_jwt_unsafe, invalid_jwt, is_expired,
  parse_json_part, signature_octets, split_token, verify_jwt, verify_jwt_parts,
}
use helix_sdk_py.KeyPairs.{verify_message}
use helix_sdk_py.Proof.{Crypto}
use helix_sdk_py.Session.{three_parts, with_dot}
use helix_sdk_py.Session.Claims.{is_past}
use helix_sdk_py.Session.Genuine.{three_parts-ok}
use helix_sdk_py.Session.Split.{join-split, join_dots, split_dots}
use helix_sdk_py.Text.{Bytes, Text, text}
use helix_sdk_py.Text.Hex.{to_hex}
use helix_sdk_py.VpTransport.{Loads, decode_json}

split_token-ok :
    (token h p s : Text) → split_token token ≡ ok (h, p, s) → split_dots token ≡ h ∷ p ∷ s ∷ []
unfolding split_token
split_token-ok token h p s e =
    three_parts-ok (split_dots token) h p s (kept (three_parts (split_dots token)) e)
  where
    kept :
        (r : Result (Text × Text × Text))
        → (elim r [
          | ok parts ↦ ok parts
          | raised x ↦ invalid_jwt (text "JWT must contain header, payload, and signature")
        ])
          ≡ ok (h, p, s)
        → r ≡ ok (h, p, s)
    kept (ok parts) k = k
    kept (raised x) k = absurd (cc k)

parse_json_part-ok :
    (loads : Loads) (part label : Text) (v : Json)
    → parse_json_part loads part label ≡ ok v
    → decode_json loads part ≡ some v
unfolding parse_json_part
parse_json_part-ok loads part label v e = elim (Option-cases (decode_json loads part)) [
  | inl missing ↦ absurd (cc (rw (missing, parse_json_part) at e))
  | inr (w, found) ↦ found ∙ ap some (cc (rw (found, parse_json_part) at e))
]

signature_octets-ok :
    (part : Text) (octets : Bytes)
    → signature_octets part ≡ ok octets
    → b64url_decode part ≡ some octets
unfolding signature_octets
signature_octets-ok part octets e = elim (Option-cases (b64url_decode part)) [
  | inl missing ↦ absurd (cc (rw (missing, signature_octets) at e))
  | inr (w, found) ↦ found ∙ ap some (cc (rw (found, signature_octets) at e))
]

check_jwt_signature-ok :
    (crypto : Crypto) (input : Text) (signature : Bytes) (key : Text) {u : Unit {0}}
    → check_jwt_signature crypto input signature key ≡ ok u
    → verify_message crypto (utf8_encode input) (to_hex signature) key ≡ true
unfolding check_jwt_signature
check_jwt_signature-ok crypto input signature key e = ground arith

not_expired :
    (now : ℕ) (found : Option Json) → is_expired now found ≡ ok false → is_past now found ≡ false
unfolding is_expired
not_expired now none e = absurd (cc e)
not_expired now (some (int n)) e = cc e
not_expired now (some (bool b)) e = cc e
not_expired now (some null) e = absurd (cc e)
not_expired now (some (str s)) e = absurd (cc e)
not_expired now (some (arr vs)) e = absurd (cc e)
not_expired now (some (obj ms)) e = absurd (cc e)

fresh_dict :
    (now : ℕ) (ms claims : Members) (r : Result Bool)
    → is_expired now (get (text "exp") ms) ≡ r
    → check_fresh now (obj ms) ≡ ok claims
    → (ms ≡ claims) × (is_past now (get (text "exp") ms) ≡ false)
unfolding check_fresh
fresh_dict now ms claims (ok true) h e = absurd (cc (rw (h, check_fresh) at e))
fresh_dict now ms claims (ok false) h e =
    (cc (rw (h, check_fresh) at e), not_expired now (get (text "exp") ms) h)
fresh_dict now ms claims (raised x) h e = absurd (cc (rw (h, check_fresh) at e))

check_fresh-ok :
    (now : ℕ) (v : Json) (claims : Members)
    → check_fresh now v ≡ ok claims
    → (v ≡ obj claims) × (is_past now (get (text "exp") claims) ≡ false)
unfolding check_fresh
check_fresh-ok now (obj ms) claims e =
    let (same, fresh) = fresh_dict now ms claims _ refl e in
    (ap obj same, subst (λ c. is_past now (get (text "exp") c) ≡ false) same fresh)
check_fresh-ok now null claims e = absurd (cc e)
check_fresh-ok now (bool b) claims e = absurd (cc e)
check_fresh-ok now (int n) claims e = absurd (cc e)
check_fresh-ok now (str s) claims e = absurd (cc e)
check_fresh-ok now (arr vs) claims e = absurd (cc e)

-- A genuine JWT: three parts with dots between them, the third a signature of the first two that
-- verifies with the key, the second the claims, which are not expired.
pub record IsGenuineJwt (crypto : Crypto) (loads : Loads) (now : ℕ) (token key : Text)
    (claims : Members) : Type 0 where
  pub header_part : Text
  pub payload_part : Text
  pub signature_part : Text
  pub parts : token ≡ with_dot header_part (with_dot payload_part signature_part)
  pub signature : Bytes
  pub decoded : b64url_decode signature_part ≡ some signature
  pub verified :
      verify_message crypto (utf8_encode (with_dot header_part payload_part)) (to_hex signature) key
      ≡ true
  pub payload : decode_json loads payload_part ≡ some (obj claims)
  pub fresh : is_past now (get (text "exp") claims) ≡ false

decoded_payload :
    (loads : Loads) (token h p s : Text) (v : Json)
    → split_token token ≡ ok (h, p, s)
    → decode_jwt_unsafe loads token ≡ ok v
    → decode_json loads p ≡ some v
unfolding decode_jwt_unsafe
decoded_payload loads token h p s v split e =
    parse_json_part-ok loads p (text "payload") v (rw (split, decode_jwt_unsafe) at e)

-- A token that `verify_jwt` accepts is a genuine JWT: its signature verifies with the given key, and
-- its claims, which are returned, expire after this time.
pub verify_jwt-IsGenuineJwt :
    (crypto : Crypto) (loads : Loads) (now : ℕ) (token key : Text) (claims : Members)
    → verify_jwt crypto loads now token key ≡ ok claims
    → IsGenuineJwt crypto loads now token key claims
unfolding verify_jwt verify_jwt_parts join_dots
verify_jwt-IsGenuineJwt crypto loads now token key claims e =
    let ((h, p, s), e0, k0) = bind_inversion (split_token token) _ e in
    let (header, e1, k1) = bind_inversion (parse_json_part loads h (text "header")) _ k0 in
    let (_, e2, k2) = bind_inversion (check_eddsa_header header) _ k1 in
    let (signature, e3, k3) = bind_inversion (signature_octets s) _ k2 in
    let (_, e4, k4) =
      bind_inversion (check_jwt_signature crypto (with_dot h p) signature key) _ k3 in
    let (payload, e5, k5) = bind_inversion (decode_jwt_unsafe loads token) _ k4 in
    let (is_dict, fresh) = check_fresh-ok now payload claims k5 in
    record {
      header_part = h;
      payload_part = p;
      signature_part = s;
      parts = sym (join-split token) ∙ ap join_dots (split_token-ok token h p s e0);
      signature = signature;
      decoded = signature_octets-ok s signature e3;
      verified = check_jwt_signature-ok crypto (with_dot h p) signature key e4;
      payload = decoded_payload loads token h p s payload e0 e5 ∙ ap some is_dict;
      fresh = fresh;
    }
