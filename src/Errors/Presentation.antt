-- ===== src/Errors/Presentation.antt =====
-- The error classes of src/helix_sdk/errors.py, lines 298 to 373: presentations and JWTs.
-- A default argument is an `Option`.
use helix_sdk_py.Errors.Codes
use helix_sdk_py.Base.{Option, none}
use helix_sdk_py.Errors.{HelixError, given, helix_error}
use helix_sdk_py.Errors.Codes.{
  consent_grant_invalid, consent_grant_subject_mismatch, jwt_expired, jwt_invalid,
  jwt_public_key_not_found, vp_agent_did_not_found, vp_already_consumed, vp_expired,
  vp_invalid_structure, vp_missing, vp_multiple_active_vc, vp_no_active_vc, vp_not_found,
  vp_signature_invalid, vp_verification_failed,
}
use helix_sdk_py.Json.{Json}
use helix_sdk_py.Text.{text}

unfoldable pub vp_missing_error : Option Json → HelixError
vp_missing_error message =
    helix_error (text "VPMissingError") Codes.vp_missing
      (given message
        (text "No Verifiable Presentation in the X-Helix-VP header or MCP _meta[\"x-helix-vp\"]"))
      401 none

unfoldable pub vp_not_found_error : Option Json → HelixError
vp_not_found_error message =
    helix_error (text "VPNotFoundError") Codes.vp_not_found (given message (text "VP not found"))
      404 none

unfoldable pub vp_expired_error : Option Json → HelixError
vp_expired_error message =
    helix_error (text "VPExpiredError") Codes.vp_expired (given message (text "VP has expired")) 400
      none

unfoldable pub vp_already_consumed_error : Option Json → HelixError
vp_already_consumed_error message =
    helix_error (text "VPAlreadyConsumedError") Codes.vp_already_consumed
      (given message (text "VP was already consumed")) 400 none

unfoldable pub vp_verification_failed_error : Option Json → HelixError
vp_verification_failed_error message =
    helix_error (text "VPVerificationFailedError") Codes.vp_verification_failed
      (given message (text "The Verifiable Presentation could not be verified")) 400 none

unfoldable pub vp_signature_invalid_error : Option Json → HelixError
vp_signature_invalid_error message =
    helix_error (text "VPSignatureInvalidError") Codes.vp_signature_invalid
      (given message (text "The Verifiable Presentation signature is invalid")) 400 none

unfoldable pub vp_invalid_structure_error : Option Json → HelixError
vp_invalid_structure_error message =
    helix_error (text "VPInvalidStructureError") Codes.vp_invalid_structure
      (given message (text "VP payload is invalid")) 400 none

unfoldable pub consent_grant_subject_mismatch_error : Option Json → HelixError
consent_grant_subject_mismatch_error message =
    helix_error (text "ConsentGrantSubjectMismatchError") Codes.consent_grant_subject_mismatch
      (given message
        (text "Consent grant does not match the presenting agent or the VP user identifier"))
      400 none

unfoldable pub consent_grant_invalid_error : Option Json → HelixError
consent_grant_invalid_error message =
    helix_error (text "ConsentGrantInvalidError") Codes.consent_grant_invalid
      (given message (text "Consent grant credential is structurally invalid")) 400 none

unfoldable pub vp_agent_did_not_found_error : Option Json → HelixError
vp_agent_did_not_found_error message =
    helix_error (text "VPAgentDIDNotFoundError") Codes.vp_agent_did_not_found
      (given message (text "Agent DID not found")) 404 none

unfoldable pub vp_no_active_vc_error : Option Json → HelixError
vp_no_active_vc_error message =
    helix_error (text "VPNoActiveVCError") Codes.vp_no_active_vc
      (given message (text "No active VC found for agent")) 400 none

unfoldable pub vp_multiple_active_vc_error : Option Json → HelixError
vp_multiple_active_vc_error message =
    helix_error (text "VPMultipleActiveVCError") Codes.vp_multiple_active_vc
      (given message (text "Multiple active VCs found for agent")) 400 none

unfoldable pub invalid_jwt_error : Option Json → HelixError
invalid_jwt_error message =
    helix_error (text "InvalidJWTError") Codes.jwt_invalid (given message (text "JWT is invalid"))
      400 none

unfoldable pub jwt_expired_error : Option Json → HelixError
jwt_expired_error message =
    helix_error (text "JWTExpiredError") Codes.jwt_expired (given message (text "JWT has expired"))
      401 none

unfoldable pub jwt_public_key_not_found_error : Option Json → HelixError
jwt_public_key_not_found_error message =
    helix_error (text "JWTPublicKeyNotFoundError") Codes.jwt_public_key_not_found
      (given message (text "JWT public key is not configured")) 500 none
