-- ===== src/Session/Genuine.antt =====
-- What a token that `verify` accepts has shown.
use helix_sdk_py.Base.{
  List, Option-cases, [], ap, arith, false, inl, inr, some, subst, sym, ℕ, ◌∙◌, ◌∷◌, ◌≡◌,
}
use helix_sdk_py.Errors.{bind_inversion, ok}
use helix_sdk_py.Http.Laws.{header}
use helix_sdk_py.Json.{Json, Members, get, obj}
use helix_sdk_py.Session.{
  Hmac, SessionManager, check_header, check_signature, parse_part, sign_signing_input, three_parts,
  verify_parts, verify_token, with_dot,
}
use helix_sdk_py.Session.Claims.{
  AreClaims, assert_claims, assert_claims-AreClaims, check_expiry-ok, is_past,
}
use helix_sdk_py.Session.Split.{join-split, join_dots, split_dots}
use helix_sdk_py.Text.{Text, text, text_eq_iff}
use helix_sdk_py.VpTransport.{Loads, decode_json}

pub three_parts-ok :
    (parts : List Text) (h p s : Text) → three_parts parts ≡ ok (h, p, s) → parts ≡ h ∷ p ∷ s ∷ []
unfolding three_parts
three_parts-ok (h' ∷ p' ∷ s' ∷ []) h p s e = ground arith
three_parts-ok [] h p s e = absurd (cc e)
three_parts-ok (_ ∷ []) h p s e = absurd (cc e)
three_parts-ok (_ ∷ _ ∷ []) h p s e = absurd (cc e)
three_parts-ok (_ ∷ _ ∷ _ ∷ _ ∷ _) h p s e = absurd (cc e)

signature_equal :
    (s expected : Text) {u : Unit {0}} → check_signature s expected ≡ ok u → s ≡ expected
unfolding check_signature
signature_equal s expected e = ground (arith, text_eq_iff s expected)

-- A genuine session: the token is three parts with dots between them, the third is the HMAC of the
-- first two with the secret, the second holds the claims, which are well formed and not expired.
pub record IsGenuine (hmac : Hmac) (loads : Loads) (m : SessionManager) (now : ℕ) (token : Text)
    (claims : Members) : Type 0 where
  pub header_part : Text
  pub payload_part : Text
  pub signed :
      token
      ≡ with_dot header_part (
          with_dot payload_part
            (sign_signing_input hmac (with_dot header_part payload_part) m.secret))
  pub payload : decode_json loads payload_part ≡ some (obj claims)
  pub well_formed : AreClaims claims
  pub fresh : is_past now (get (text "exp") claims) ≡ false

parse_part-ok :
    (loads : Loads) (message part : Text) (v : Json)
    → parse_part loads message part ≡ ok v
    → decode_json loads part ≡ some v
unfolding parse_part
parse_part-ok loads message part v e = elim (Option-cases (decode_json loads part)) [
  | inl missing ↦ absurd (cc (rw (missing, parse_part) at e))
  | inr (w, found) ↦ found ∙ ap some (cc (rw (found, parse_part) at e))
]

-- A token that `verify` accepts is genuine: it is signed with the manager's secret, and its claims,
-- which are returned, are well formed and expire after this time.
pub verify_token-IsGenuine :
    (hmac : Hmac) (loads : Loads) (m : SessionManager) (now : ℕ) (token : Text) (claims : Members)
    → verify_token hmac loads m now token ≡ ok claims
    → IsGenuine hmac loads m now token claims
unfolding verify_token verify_parts join_dots
verify_token-IsGenuine hmac loads m now token claims e =
    let ((h, p, s), e0, k0) = bind_inversion (three_parts (split_dots token)) _ e in
    let (header, e1, k1) =
      bind_inversion (parse_part loads (text "JWT header is invalid") h) _ k0 in
    let (_, e2, k2) = bind_inversion (check_header header) _ k1 in
    let (_, e3, k3) =
      bind_inversion (check_signature s (sign_signing_input hmac (with_dot h p) m.secret)) _ k2 in
    let (payload, e4, k4) =
      bind_inversion (parse_part loads (text "JWT payload is invalid") p) _ k3 in
    let (ms, e5, k5) = bind_inversion (assert_claims payload) _ k4 in
    let (same, fresh) = check_expiry-ok now ms claims k5 in
    let (is_dict, formed) = assert_claims-AreClaims payload ms e5 in
    record {
      header_part = h;
      payload_part = p;
      signed =
          sym (join-split token)
          ∙ ap join_dots (three_parts-ok (split_dots token) h p s e0)
          ∙ ap (λ t. with_dot h (with_dot p t)) (signature_equal s _ e3);
      payload = parse_part-ok loads _ p payload e4 ∙ ap some (is_dict ∙ ap obj same);
      well_formed = subst AreClaims same formed;
      fresh = subst (λ c. is_past now (get (text "exp") c) ≡ false) same fresh;
    }
