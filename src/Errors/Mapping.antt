-- ===== src/Errors/Mapping.antt =====
-- `_CODE_TO_ERROR` and `map_api_error`, src/helix_sdk/errors.py lines 567-641. `show` is what an
-- f-string makes of a value.
pub mod Table
pub mod Status
pub mod Laws
use helix_sdk_py.Errors.Codes
use helix_sdk_py.Errors.{◌>>=◌}
use helix_sdk_py.Base.{
  Bool, List, Option, [], false, if◌then◌else◌, leb, negsuc, none, pos, some, suc, true, zero, ℕ, ℤ,
  ◌&&◌, ◌*◌, ◌+◌, ◌-◌, ◌==◌, ◌||◌, ◌∷◌,
}
use helix_sdk_py.Errors.{HelixError, Result, builtin, ok, raised}
use helix_sdk_py.Errors.Agent.{
  agent_already_onboarded_error, challenge_already_verified_error, challenge_expired_error,
  challenge_not_found_error, challenge_signature_invalid_error, enrollment_token_already_used_error,
  enrollment_token_expired_error, enrollment_token_not_found_error,
  max_renewal_count_exceeded_error, prepared_payload_already_consumed_error,
  prepared_payload_expired_error, prepared_payload_not_found_error,
  prepared_payload_purpose_mismatch_error, prepared_payload_signature_invalid_error,
  renewal_window_expired_error, renewal_window_not_open_error, service_already_exists_error,
  service_not_found_error, vc_missing_credential_status_error,
}
use helix_sdk_py.Errors.Credential.{
  delegation_chain_invalid_error, delegation_not_permitted_error,
  delegation_parent_vc_not_found_error, delegation_parent_vc_revoked_error,
  max_delegation_depth_exceeded_error, scope_escalation_denied_error,
  self_signed_vc_not_allowed_error, vc_expired_error, vc_not_yet_valid_error, vc_revoked_error,
  vc_signature_invalid_error,
}
use helix_sdk_py.Errors.Did.{
  did_already_exists_error, did_deactivated_error, did_not_found_error, internal_error,
  validation_error,
}
use helix_sdk_py.Errors.Presentation.{
  consent_grant_invalid_error, consent_grant_subject_mismatch_error, vp_expired_error,
  vp_invalid_structure_error, vp_missing_error, vp_signature_invalid_error,
  vp_verification_failed_error,
}
use helix_sdk_py.Json.{Json, Members, arr, bool, end, get, int, null, obj, str, truthy}
use helix_sdk_py.Keys.{strip}
use helix_sdk_py.Text.{Text, text, text_eq}

abbrev pub Constructor : Type 0
Constructor = Json → HelixError

module _ (show : Json → Text) where
  -- `_CODE_TO_ERROR`
  unfoldable pub code_to_error : List (Text × Constructor)
  code_to_error =
      (Codes.validation_error, (λ message. validation_error message))
      ∷ (Codes.did_not_found, (λ message. did_not_found_error show (some message)))
      ∷ (Codes.did_deactivated, (λ message. did_deactivated_error show (some message)))
      ∷ (Codes.did_already_exists, (λ message. did_already_exists_error))
      ∷ (
        Codes.enrollment_token_not_found,
        (λ message. enrollment_token_not_found_error (some message)),
      )
      ∷ (Codes.enrollment_token_expired, (λ message. enrollment_token_expired_error (some message)))
      ∷ (
        Codes.enrollment_token_already_used,
        (λ message. enrollment_token_already_used_error (some message)),
      )
      ∷ (Codes.challenge_not_found, (λ message. challenge_not_found_error (some message)))
      ∷ (Codes.challenge_expired, (λ message. challenge_expired_error (some message)))
      ∷ (
        Codes.challenge_already_verified,
        (λ message. challenge_already_verified_error (some message)),
      )
      ∷ (
        Codes.challenge_signature_invalid,
        (λ message. challenge_signature_invalid_error (some message)),
      )
      ∷ (Codes.agent_already_onboarded, (λ message. agent_already_onboarded_error (some message)))
      ∷ (Codes.service_not_found, (λ message. service_not_found_error (some message)))
      ∷ (Codes.service_already_exists, (λ message. service_already_exists_error (some message)))
      ∷ (Codes.delegation_not_permitted, (λ message. delegation_not_permitted_error (some message)))
      ∷ (
        Codes.delegation_depth_exceeded,
        (λ message. max_delegation_depth_exceeded_error (some message)),
      )
      ∷ (Codes.delegation_scope_escalation, (λ message. scope_escalation_denied_error show message))
      ∷ (Codes.delegation_chain_invalid, (λ message. delegation_chain_invalid_error show message))
      ∷ (
        Codes.delegation_parent_vc_not_found,
        (λ message. delegation_parent_vc_not_found_error (some message)),
      )
      ∷ (
        Codes.delegation_parent_vc_revoked,
        (λ message. delegation_parent_vc_revoked_error (some message)),
      )
      ∷ (
        Codes.max_delegation_depth_exceeded,
        (λ message. max_delegation_depth_exceeded_error (some message)),
      )
      ∷ (Codes.scope_escalation_denied, (λ message. scope_escalation_denied_error show message))
      ∷ (
        Codes.prepared_payload_not_found,
        (λ message. prepared_payload_not_found_error (some message)),
      )
      ∷ (Codes.prepared_payload_expired, (λ message. prepared_payload_expired_error (some message)))
      ∷ (
        Codes.prepared_payload_already_consumed,
        (λ message. prepared_payload_already_consumed_error (some message)),
      )
      ∷ (
        Codes.prepared_payload_signature_invalid,
        (λ message. prepared_payload_signature_invalid_error (some message)),
      )
      ∷ (
        Codes.prepared_payload_purpose_mismatch,
        (λ message. prepared_payload_purpose_mismatch_error (some message)),
      )
      ∷ (Codes.vc_revoked, (λ message. vc_revoked_error (some message)))
      ∷ (
        Codes.vc_missing_credential_status,
        (λ message. vc_missing_credential_status_error (some message)),
      )
      ∷ (Codes.renewal_window_not_open, (λ message. renewal_window_not_open_error (some message)))
      ∷ (Codes.renewal_window_expired, (λ message. renewal_window_expired_error (some message)))
      ∷ (
        Codes.max_renewal_count_exceeded,
        (λ message. max_renewal_count_exceeded_error (some message)),
      )
      ∷ (Codes.vc_expired, (λ message. vc_expired_error (some message)))
      ∷ (Codes.vc_not_yet_valid, (λ message. vc_not_yet_valid_error (some message)))
      ∷ (Codes.vc_signature_invalid, (λ message. vc_signature_invalid_error (some message)))
      ∷ (
        Codes.self_signed_vc_not_allowed,
        (λ message. self_signed_vc_not_allowed_error (some message)),
      )
      ∷ (Codes.vp_missing, (λ message. vp_missing_error (some message)))
      ∷ (Codes.vp_expired, (λ message. vp_expired_error (some message)))
      ∷ (Codes.vp_verification_failed, (λ message. vp_verification_failed_error (some message)))
      ∷ (Codes.vp_signature_invalid, (λ message. vp_signature_invalid_error (some message)))
      ∷ (Codes.vp_invalid_structure, (λ message. vp_invalid_structure_error (some message)))
      ∷ (
        Codes.consent_grant_subject_mismatch,
        (λ message. consent_grant_subject_mismatch_error (some message)),
      )
      ∷ (Codes.consent_grant_invalid, (λ message. consent_grant_invalid_error (some message)))
      ∷ []

-- `_CODE_TO_ERROR.get(code)` for a `str`.
unfoldable pub find_constructor : Text → List (Text × Constructor) → Option Constructor
unfolding text_eq
find_constructor code [] = none
find_constructor code ((c, ctor) ∷ table) =
    if text_eq c code then some ctor else find_constructor code table

-- The same for any value: a list or a dict has no hash, and no other value is a key.
unfoldable pub constructor_for : Json → List (Text × Constructor) → Result (Option Constructor)
unfolding find_constructor
constructor_for (str code) table = ok (find_constructor code table)
constructor_for (arr xs) table =
    raised (builtin (text "TypeError") (text "unhashable type: 'list'"))
constructor_for (obj ms) table =
    raised (builtin (text "TypeError") (text "unhashable type: 'dict'"))
constructor_for _ table = ok none

-- The number that digits end, behind `acc`: an underscore stands only between two digits.
unfoldable pub digits_value : Bool → ℕ → Text → Option ℕ
digits_value behind_digit acc [] = if behind_digit then some acc else none
digits_value behind_digit acc (c ∷ s) =
    let digit = leb 48 c && leb c 57 in
    let rest = digits_value digit (if digit then 10 * acc + (c - 48) else acc) s in
    if digit || (behind_digit && c == b'_') then rest else none

unfoldable pub unsigned_value : Text → Option ℕ
unfolding digits_value
unsigned_value s = digits_value false 0 s

-- `int(s)` of a stripped text: ASCII digits behind a sign or none, with single underscores between.
unfoldable pub parse_int : Text → Option ℤ
unfolding unsigned_value
parse_int [] = none
parse_int (c ∷ s) =
    if c == b'-'
    then elim (unsigned_value s) [
      | none ↦ none
      | some zero ↦ some (pos 0)
      | some (suc n) ↦ some (negsuc n)
    ]
    else elim (unsigned_value (if c == b'+' then s else c ∷ s)) [
      | none ↦ none
      | some n ↦ some (pos n)
    ]

-- `int(status)`, or 500 where that fails.
unfoldable pub status_number : Json → ℤ
unfolding parse_int strip
status_number (int n) = n
status_number (bool true) = pos 1
status_number (bool false) = pos 0
status_number (str s) = elim (parse_int (strip s)) [ none ↦ pos 500 | some n ↦ n ]
status_number _ = pos 500

-- `body.get(k, default)`
abbrev pub get_or_default : Text → Json → Members → Json
get_or_default k default ms = elim (get k ms) [ none ↦ default | some v ↦ v ]

unfoldable pub status_of : Members → ℤ
unfolding get status_number
status_of body =
    status_number (
      get_or_default (text "statusCode") (get_or_default (text "status") (int (pos 500)) body) body)

abbrev pub as_dict : Json → Members
as_dict (obj ms) = ms
as_dict _ = end

-- The last lines: a typed error where the code is known, else a plain one with the status of the
-- body.
unfoldable pub error_for : Json → Json → Members → Option Constructor → HelixError
unfolding status_of
error_for code message body (some ctor) = ctor message
error_for code message body none = record {
  class_name = text "HelixError";
  code = code;
  message = message;
  http_status = status_of body;
  details = none;
}

unfoldable pub map_error_body : (Json → Text) → Members → Members → Result HelixError
unfolding get truthy constructor_for error_for
map_error_body show error_body body =
    if truthy (get_or_default (text "code") null error_body)
    then constructor_for (get_or_default (text "code") null error_body) (code_to_error show)
      >>= (λ ctor. ok (
          error_for (get_or_default (text "code") null error_body)
            (get_or_default (text "message") (str []) error_body) body ctor))
    else ok internal_error

-- `error_body` where it is a dict.
unfoldable pub map_api_error : (Json → Text) → Json → Result HelixError
unfolding get map_error_body
map_api_error show body = elim (get_or_default (text "error") null (as_dict body)) [
  | obj error_body ↦ map_error_body show error_body (as_dict body)
  | _ ↦ ok internal_error
]
