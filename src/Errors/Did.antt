-- ===== src/Errors/Did.antt =====
-- The error classes of src/helix_sdk/errors.py, lines 48 to 146: DIDs, Hedera and general failures.
-- A default argument is an `Option`.
use helix_sdk_py.Errors.Codes
use helix_sdk_py.Base.{Option, none, some, ◌++◌}
use helix_sdk_py.Errors.{HelixError, given, helix_error}
use helix_sdk_py.Errors.Codes.{
  admin_auth_required, did_already_exists, did_deactivated, did_method_not_available, did_not_found,
  hedera_anchor_failed, hedera_resolution_failed, invalid_did_format, invalid_public_key,
  invalid_service_endpoint_url, service_endpoint_already_exists, service_endpoint_not_found,
  unsupported_did_method,
}
use helix_sdk_py.Json.{Json, Members, end, member, str}
use helix_sdk_py.Text.{Text, text}

unfoldable pub invalid_public_key_error : HelixError
invalid_public_key_error =
    helix_error (text "InvalidPublicKeyError") Codes.invalid_public_key
      (str (text "The submitted public key is not a valid 32-byte Ed25519 public key.")) 400 none

unfoldable pub invalid_did_format_error : (Json → Text) → Json → HelixError
invalid_did_format_error show did =
    helix_error (text "InvalidDIDFormatError") Codes.invalid_did_format
      (str (text "The value '" ++ show did ++ text "' is not a valid Helix DID.")) 400 none

unfoldable pub did_not_found_error : (Json → Text) → Option Json → HelixError
did_not_found_error show did =
    helix_error (text "DIDNotFoundError") Codes.did_not_found
      (str (text "DID '" ++ show (given did (text "")) ++ text "' was not found.")) 404 none

unfoldable pub did_method_not_available_error : Json → HelixError
did_method_not_available_error message =
    helix_error (text "DIDMethodNotAvailableError") Codes.did_method_not_available message 501 none

unfoldable pub unsupported_did_method_error : (Json → Text) → Json → HelixError
unsupported_did_method_error show did =
    helix_error (text "UnsupportedDIDMethodError") Codes.unsupported_did_method
      (str (text "Unsupported DID method: " ++ show did)) 400 (some (member (text "did") did end))

unfoldable pub did_already_exists_error : HelixError
did_already_exists_error =
    helix_error (text "DIDAlreadyExistsError") Codes.did_already_exists
      (str (text "A DID already exists for this public key.")) 409 none

unfoldable pub did_deactivated_error : (Json → Text) → Option Json → HelixError
did_deactivated_error show did =
    helix_error (text "DIDDeactivatedError") Codes.did_deactivated
      (str (
        text "DID '"
        ++ show (given did (text ""))
        ++ text "' has been deactivated and cannot be used."))
      410 none

unfoldable pub invalid_service_endpoint_url_error : (Json → Text) → Json → HelixError
invalid_service_endpoint_url_error show url =
    helix_error (text "InvalidServiceEndpointUrlError") Codes.invalid_service_endpoint_url
      (str (text "Service endpoint URL '" ++ show url ++ text "' must be a valid HTTPS URL.")) 400
      none

unfoldable pub service_endpoint_not_found_error : (Json → Text) → Json → HelixError
service_endpoint_not_found_error show endpoint_id =
    helix_error (text "ServiceEndpointNotFoundError") Codes.service_endpoint_not_found
      (str (
        text "Service endpoint '"
        ++ show endpoint_id
        ++ text "' was not found in the DID document."))
      404 none

unfoldable pub service_endpoint_already_exists_error : (Json → Text) → Json → HelixError
service_endpoint_already_exists_error show endpoint_id =
    helix_error (text "ServiceEndpointAlreadyExistsError") Codes.service_endpoint_already_exists
      (str (text "A service endpoint with ID '" ++ show endpoint_id ++ text "' already exists."))
      409 none

unfoldable pub hedera_anchor_failed_error : Option Json → Option Members → HelixError
hedera_anchor_failed_error message details =
    helix_error (text "HederaAnchorFailedError") Codes.hedera_anchor_failed
      (given message (text "Failed to anchor the DID document on Hedera. Please retry.")) 502
      details

unfoldable pub hedera_resolution_failed_error : Option Json → Option Members → HelixError
hedera_resolution_failed_error message details =
    helix_error (text "HederaResolutionFailedError") Codes.hedera_resolution_failed
      (given message (text "Failed to resolve the DID document from Hedera.")) 502 details

unfoldable pub internal_error : HelixError
internal_error =
    helix_error (text "InternalError") Codes.internal_error
      (str (text "An unexpected error occurred.")) 500 none

unfoldable pub validation_error : Json → HelixError
validation_error message =
    helix_error (text "ValidationError") Codes.validation_error message 400 none

unfoldable pub admin_auth_required_error : Option Json → HelixError
admin_auth_required_error message =
    helix_error (text "AdminAuthRequiredError") Codes.admin_auth_required
      (given message (text "Admin authorization is required")) 403 none
