-- ===== src/Errors/Agent.antt =====
-- The error classes of src/helix_sdk/errors.py, lines 376 to 478: enrolment, challenges, prepared payloads, renewal and services.
-- A default argument is an `Option`.
use helix_sdk_py.Errors.Codes
use helix_sdk_py.Base.{Option, none}
use helix_sdk_py.Errors.{HelixError, given, helix_error}
use helix_sdk_py.Errors.Codes.{
  agent_already_onboarded, challenge_already_verified, challenge_expired, challenge_not_found,
  challenge_signature_invalid, enrollment_token_already_used, enrollment_token_expired,
  enrollment_token_not_found, max_renewal_count_exceeded, prepared_payload_already_consumed,
  prepared_payload_expired, prepared_payload_not_found, prepared_payload_purpose_mismatch,
  prepared_payload_signature_invalid, renewal_window_expired, renewal_window_not_open,
  service_already_exists, service_not_found, vc_missing_credential_status,
}
use helix_sdk_py.Json.{Json}
use helix_sdk_py.Text.{text}

unfoldable pub enrollment_token_not_found_error : Option Json → HelixError
enrollment_token_not_found_error message =
    helix_error (text "EnrollmentTokenNotFoundError") Codes.enrollment_token_not_found
      (given message (text "Enrollment token was not found")) 404 none

unfoldable pub enrollment_token_expired_error : Option Json → HelixError
enrollment_token_expired_error message =
    helix_error (text "EnrollmentTokenExpiredError") Codes.enrollment_token_expired
      (given message (text "Enrollment token has expired")) 400 none

unfoldable pub enrollment_token_already_used_error : Option Json → HelixError
enrollment_token_already_used_error message =
    helix_error (text "EnrollmentTokenAlreadyUsedError") Codes.enrollment_token_already_used
      (given message (text "Enrollment token was already used")) 409 none

unfoldable pub challenge_not_found_error : Option Json → HelixError
challenge_not_found_error message =
    helix_error (text "ChallengeNotFoundError") Codes.challenge_not_found
      (given message (text "Challenge was not found")) 404 none

unfoldable pub challenge_expired_error : Option Json → HelixError
challenge_expired_error message =
    helix_error (text "ChallengeExpiredError") Codes.challenge_expired
      (given message (text "Challenge has expired")) 410 none

unfoldable pub challenge_already_verified_error : Option Json → HelixError
challenge_already_verified_error message =
    helix_error (text "ChallengeAlreadyVerifiedError") Codes.challenge_already_verified
      (given message (text "Challenge was already verified")) 409 none

unfoldable pub challenge_signature_invalid_error : Option Json → HelixError
challenge_signature_invalid_error message =
    helix_error (text "ChallengeSignatureInvalidError") Codes.challenge_signature_invalid
      (given message (text "Challenge signature is invalid")) 400 none

unfoldable pub agent_already_onboarded_error : Option Json → HelixError
agent_already_onboarded_error message =
    helix_error (text "AgentAlreadyOnboardedError") Codes.agent_already_onboarded
      (given message (text "Agent is already onboarded")) 409 none

unfoldable pub prepared_payload_not_found_error : Option Json → HelixError
prepared_payload_not_found_error message =
    helix_error (text "PreparedPayloadNotFoundError") Codes.prepared_payload_not_found
      (given message (text "Prepared payload was not found")) 404 none

unfoldable pub prepared_payload_expired_error : Option Json → HelixError
prepared_payload_expired_error message =
    helix_error (text "PreparedPayloadExpiredError") Codes.prepared_payload_expired
      (given message (text "Prepared payload has expired")) 410 none

unfoldable pub prepared_payload_already_consumed_error : Option Json → HelixError
prepared_payload_already_consumed_error message =
    helix_error (text "PreparedPayloadAlreadyConsumedError") Codes.prepared_payload_already_consumed
      (given message (text "Prepared payload was already consumed")) 409 none

unfoldable pub prepared_payload_signature_invalid_error : Option Json → HelixError
prepared_payload_signature_invalid_error message =
    helix_error (text "PreparedPayloadSignatureInvalidError")
      Codes.prepared_payload_signature_invalid
      (given message (text "Prepared payload signature is invalid")) 400 none

unfoldable pub prepared_payload_purpose_mismatch_error : Option Json → HelixError
prepared_payload_purpose_mismatch_error message =
    helix_error (text "PreparedPayloadPurposeMismatchError") Codes.prepared_payload_purpose_mismatch
      (given message (text "Prepared payload purpose does not match finalize endpoint")) 400 none

unfoldable pub renewal_window_not_open_error : Option Json → HelixError
renewal_window_not_open_error message =
    helix_error (text "RenewalWindowNotOpenError") Codes.renewal_window_not_open
      (given message (text "VC is not yet within its renewal window")) 400 none

unfoldable pub renewal_window_expired_error : Option Json → HelixError
renewal_window_expired_error message =
    helix_error (text "RenewalWindowExpiredError") Codes.renewal_window_expired
      (given message (text "VC renewal grace period has passed; a fresh issuance is required")) 400
      none

unfoldable pub max_renewal_count_exceeded_error : Option Json → HelixError
max_renewal_count_exceeded_error message =
    helix_error (text "MaxRenewalCountExceededError") Codes.max_renewal_count_exceeded
      (given message
        (text "VC has reached its maximum renewal count; a fresh issuance is required"))
      400 none

unfoldable pub vc_missing_credential_status_error : Option Json → HelixError
vc_missing_credential_status_error message =
    helix_error (text "VCMissingCredentialStatusError") Codes.vc_missing_credential_status
      (given message (text "VC has no credentialStatus entry; revocation cannot be checked")) 400
      none

unfoldable pub service_not_found_error : Option Json → HelixError
service_not_found_error message =
    helix_error (text "ServiceNotFoundError") Codes.service_not_found
      (given message (text "Service was not found")) 404 none

unfoldable pub service_already_exists_error : Option Json → HelixError
service_already_exists_error message =
    helix_error (text "ServiceAlreadyExistsError") Codes.service_already_exists
      (given message (text "Service already exists")) 409 none
