-- ===== src/Errors/Mapping/Table.antt =====
-- What every entry of `_CODE_TO_ERROR` makes of a message, against a description by code.
use helix_sdk_py.Errors.Codes
use helix_sdk_py.Base.{
  All, Bool, Bool-cases, List, [], ap, false, if◌then◌else◌, inl, inr, leb, map, negsuc, not, pos,
  refl, some, subst₂, true, ℤ, ◌&&◌, ◌∷◌, ◌≡◌,
}
use helix_sdk_py.Errors.Agent.{
  agent_already_onboarded_error, challenge_already_verified_error, challenge_expired_error,
  challenge_not_found_error, challenge_signature_invalid_error, enrollment_token_already_used_error,
  enrollment_token_expired_error, enrollment_token_not_found_error,
  max_renewal_count_exceeded_error, prepared_payload_already_consumed_error,
  prepared_payload_expired_error, prepared_payload_not_found_error,
  prepared_payload_purpose_mismatch_error, prepared_payload_signature_invalid_error,
  renewal_window_expired_error, renewal_window_not_open_error, service_already_exists_error,
  service_not_found_error, vc_missing_credential_status_error,
}
use helix_sdk_py.Errors.Credential.{
  delegation_chain_invalid_error, delegation_not_permitted_error,
  delegation_parent_vc_not_found_error, delegation_parent_vc_revoked_error,
  max_delegation_depth_exceeded_error, scope_escalation_denied_error,
  self_signed_vc_not_allowed_error, vc_expired_error, vc_not_yet_valid_error, vc_revoked_error,
  vc_signature_invalid_error,
}
use helix_sdk_py.Errors.Did.{
  did_already_exists_error, did_deactivated_error, did_not_found_error, validation_error,
}
use helix_sdk_py.Errors.Mapping.{Constructor, code_to_error, find_constructor}
use helix_sdk_py.Errors.Presentation.{
  consent_grant_invalid_error, consent_grant_subject_mismatch_error, vp_expired_error,
  vp_invalid_structure_error, vp_missing_error, vp_signature_invalid_error,
  vp_verification_failed_error,
}
use helix_sdk_py.Json.{Json, str}
use helix_sdk_py.Text.{Text, text_eq, text_eq_iff, text_in}

-- The code that the error for a wire code carries: two legacy codes have a canonical one.
unfoldable pub canonical_code : Text → Text
unfolding text_eq
canonical_code c =
    if text_eq c Codes.delegation_depth_exceeded
    then Codes.max_delegation_depth_exceeded
    else if text_eq c Codes.delegation_scope_escalation
    then Codes.scope_escalation_denied
    else c

-- The codes whose class takes something else than a message: a DID, a scope, a reason.
unfoldable pub wraps_message : Text → Bool
unfolding text_in
wraps_message c = text_in c (
    Codes.did_not_found ∷ Codes.did_deactivated ∷ Codes.delegation_scope_escalation
    ∷ Codes.delegation_chain_invalid ∷ Codes.scope_escalation_denied ∷ [])

-- The server's message stays as it is, but for the codes above and the constant text of
-- DID_ALREADY_EXISTS.
unfoldable pub keeps_message : Text → Bool
unfolding wraps_message
keeps_message c = not (wraps_message c) && not (text_eq c Codes.did_already_exists)

abbrev pub is_error_status : ℤ → Bool
is_error_status (pos n) = leb 400 n && leb n 599
is_error_status (negsuc n) = false

pub record Describes (c : Text) (ctor : Constructor) : Type 0 where
  pub code : (m : Json) → (ctor m).code ≡ str (canonical_code c)
  pub status : (m : Json) → is_error_status (ctor m).http_status ≡ true
  pub message : (m : Json) → (if keeps_message c then (ctor m).message else m) ≡ m

-- What an entry of the table makes of a message, as far as `Describes` says something of it, and
-- what it should be.
abbrev made : Text × Constructor → Json → Json × Bool × Json
made (c, ctor) m = (
  (ctor m).code,
  is_error_status (ctor m).http_status,
  if keeps_message c then (ctor m).message else m,
)

abbrev expected : Text × Constructor → Json → Json × Bool × Json
expected (c, ctor) m = (str (canonical_code c), true, m)

map-All {ℓ κ} :
    {A : Type ℓ} {B : Type κ} (f g : A → B) (xs : List A)
    → map f xs ≡ map g xs
    → All (λ x. f x ≡ g x) xs
map-All f g [] e = tt
map-All f g (x ∷ xs) e = (cc e, map-All f g xs (cc e))

table_lem : (show : Json → Text) → map made (code_to_error show) ≡ map expected (code_to_error show)
unfolding code_to_error canonical_code keeps_message text_eq agent_already_onboarded_error
    challenge_already_verified_error challenge_expired_error challenge_not_found_error
    challenge_signature_invalid_error consent_grant_invalid_error
    consent_grant_subject_mismatch_error delegation_chain_invalid_error
    delegation_not_permitted_error delegation_parent_vc_not_found_error
    delegation_parent_vc_revoked_error did_already_exists_error did_deactivated_error
    did_not_found_error enrollment_token_already_used_error enrollment_token_expired_error
    enrollment_token_not_found_error max_delegation_depth_exceeded_error
    max_renewal_count_exceeded_error prepared_payload_already_consumed_error
    prepared_payload_expired_error prepared_payload_not_found_error
    prepared_payload_purpose_mismatch_error prepared_payload_signature_invalid_error
    renewal_window_expired_error renewal_window_not_open_error scope_escalation_denied_error
    self_signed_vc_not_allowed_error service_already_exists_error service_not_found_error
    validation_error vc_expired_error vc_missing_credential_status_error vc_not_yet_valid_error
    vc_revoked_error vc_signature_invalid_error vp_expired_error vp_invalid_structure_error
    vp_missing_error vp_signature_invalid_error vp_verification_failed_error
table_lem show = refl

find_constructor-All :
    (P : Text → Constructor → Type 0) (c : Text) (ctor : Constructor)
    (table : List (Text × Constructor))
    → find_constructor c table ≡ some ctor
    → All (λ e. P e.0 e.1) table
    → P c ctor
unfolding find_constructor
find_constructor-All P c ctor [] e h = cc
find_constructor-All P c ctor ((k, f) ∷ table) e (p, h) = elim (Bool-cases (text_eq k c)) [
  | inl found ↦
      let same : f ≡ ctor = cc (rw (found, find_constructor) at e) in
      subst₂ P ((text_eq_iff k c).0 found) same p
  | inr other ↦ find_constructor-All P c ctor table (rw (other, find_constructor) at e) h
]

-- What a code of the table stands for.
pub find_constructor-Describes :
    (show : Json → Text) (c : Text) (ctor : Constructor)
    → find_constructor c (code_to_error show) ≡ some ctor
    → Describes c ctor
find_constructor-Describes show c ctor e =
    let q : made (c, ctor) ≡ expected (c, ctor) =
      find_constructor-All (λ c ctor. made (c, ctor) ≡ expected (c, ctor)) c ctor
        (code_to_error show) e (map-All made expected (code_to_error show) (table_lem show)) in
    record {
      code = λ m. ap (λ s. (s m).0) q;
      status = λ m. ap (λ s. (s m).1) q;
      message = λ m. ap (λ s. (s m).2) q;
    }
