-- ===== src/Errors/Credential.antt =====
-- The error classes of src/helix_sdk/errors.py, lines 149 to 295: credentials, delegation, wallets and scopes.
-- A default argument is an `Option`.
use helix_sdk_py.Errors.Codes
use helix_sdk_py.Base.{Option, none, some, ◌++◌}
use helix_sdk_py.Errors.{HelixError, given, helix_error}
use helix_sdk_py.Errors.Codes.{
  credential_already_in_wallet, credential_not_for_this_agent, delegation_chain_invalid,
  delegation_not_permitted, delegation_parent_vc_not_found, delegation_parent_vc_revoked,
  insufficient_scope, max_delegation_depth_exceeded, no_credential_in_wallet,
  scope_escalation_denied, sdk_only_mode_no_api, self_signed_vc_not_allowed,
  status_list_index_exhausted, vc_already_revoked, vc_expired, vc_invalid_privilege_scope,
  vc_issuer_not_found, vc_not_found, vc_not_yet_valid, vc_revoked, vc_signature_invalid,
  vc_subject_did_not_found, wallet_already_exists,
}
use helix_sdk_py.Json.{Json, end, member, str}
use helix_sdk_py.Text.{Text, text}

unfoldable pub vc_not_found_error : (Json → Text) → Json → HelixError
vc_not_found_error show vc_id =
    helix_error (text "VCNotFoundError") Codes.vc_not_found
      (str (text "Verifiable Credential not found: " ++ show vc_id)) 404 none

unfoldable pub vc_already_revoked_error : Option Json → HelixError
vc_already_revoked_error message =
    helix_error (text "VCAlreadyRevokedError") Codes.vc_already_revoked
      (given message (text "The Verifiable Credential has already been revoked")) 409 none

unfoldable pub vc_expired_error : Option Json → HelixError
vc_expired_error message =
    helix_error (text "VCExpiredError") Codes.vc_expired
      (given message (text "The Verifiable Credential has expired")) 400 none

unfoldable pub vc_not_yet_valid_error : Option Json → HelixError
vc_not_yet_valid_error message =
    helix_error (text "VCNotYetValidError") Codes.vc_not_yet_valid
      (given message (text "The Verifiable Credential is not valid yet")) 400 none

unfoldable pub vc_subject_did_not_found_error : (Json → Text) → Json → HelixError
vc_subject_did_not_found_error show did =
    helix_error (text "VCSubjectDIDNotFoundError") Codes.vc_subject_did_not_found
      (str (text "Subject DID not found: " ++ show did)) 404 none

unfoldable pub vc_invalid_privilege_scope_error : (Json → Text) → Json → HelixError
vc_invalid_privilege_scope_error show scope =
    helix_error (text "VCInvalidPrivilegeScopeError") Codes.vc_invalid_privilege_scope
      (str (text "Invalid privilege scope: " ++ show scope)) 400 none

unfoldable pub status_list_index_exhausted_error : Option Json → HelixError
status_list_index_exhausted_error message =
    helix_error (text "StatusListIndexExhaustedError") Codes.status_list_index_exhausted
      (given message (text "The status list index space is exhausted")) 503 none

unfoldable pub vc_signature_invalid_error : Option Json → HelixError
vc_signature_invalid_error message =
    helix_error (text "VCSignatureInvalidError") Codes.vc_signature_invalid
      (given message (text "The Verifiable Credential signature is invalid")) 400 none

unfoldable pub self_signed_vc_not_allowed_error : Option Json → HelixError
self_signed_vc_not_allowed_error message =
    helix_error (text "SelfSignedVCNotAllowedError") Codes.self_signed_vc_not_allowed
      (given message (text "Self-signed VCs are not allowed unless allowSelfSigned is true")) 403
      none

unfoldable pub scope_escalation_denied_error : (Json → Text) → Json → HelixError
scope_escalation_denied_error show scope =
    helix_error (text "ScopeEscalationDeniedError") Codes.scope_escalation_denied
      (str (text "Delegated scope is not permitted by the parent credential: " ++ show scope)) 400
      none

unfoldable pub max_delegation_depth_exceeded_error : Option Json → HelixError
max_delegation_depth_exceeded_error message =
    helix_error (text "MaxDelegationDepthExceededError") Codes.max_delegation_depth_exceeded
      (given message (text "Maximum delegation depth has been exceeded")) 400 none

unfoldable pub delegation_chain_invalid_error : (Json → Text) → Json → HelixError
delegation_chain_invalid_error show reason =
    helix_error (text "DelegationChainInvalidError") Codes.delegation_chain_invalid
      (str (text "Delegation chain is invalid: " ++ show reason)) 400
      (some (member (text "reason") reason end))

unfoldable pub delegation_parent_vc_not_found_error : Option Json → HelixError
delegation_parent_vc_not_found_error message =
    helix_error (text "DelegationParentVCNotFoundError") Codes.delegation_parent_vc_not_found
      (given message (text "Parent VC in delegation chain was not found")) 404 none

unfoldable pub delegation_parent_vc_revoked_error : Option Json → HelixError
delegation_parent_vc_revoked_error message =
    helix_error (text "DelegationParentVCRevokedError") Codes.delegation_parent_vc_revoked
      (given message (text "Parent VC in delegation chain has been revoked")) 400 none

unfoldable pub delegation_not_permitted_error : Option Json → HelixError
delegation_not_permitted_error message =
    helix_error (text "DelegationNotPermittedError") Codes.delegation_not_permitted
      (given message (text "Delegation is not permitted for this credential")) 403 none

unfoldable pub vc_revoked_error : Option Json → HelixError
vc_revoked_error message =
    helix_error (text "VCRevokedError") Codes.vc_revoked
      (given message (text "The Verifiable Credential has been revoked")) 400 none

unfoldable pub vc_issuer_not_found_error : Option Json → HelixError
vc_issuer_not_found_error message =
    helix_error (text "VCIssuerNotFoundError") Codes.vc_issuer_not_found
      (given message (text "The Verifiable Credential issuer DID could not be resolved")) 400 none

unfoldable pub wallet_already_exists_error : Option Json → HelixError
wallet_already_exists_error message =
    helix_error (text "WalletAlreadyExistsError") Codes.wallet_already_exists
      (given message
        (text "Wallet file already exists. Use AgentWallet.load() to load an existing wallet."))
      409 none

unfoldable pub no_credential_in_wallet_error : Option Json → HelixError
no_credential_in_wallet_error message =
    helix_error (text "NoCredentialInWalletError") Codes.no_credential_in_wallet
      (given message (text "Wallet has no credentials")) 400 none

unfoldable pub credential_not_for_this_agent_error : Option Json → HelixError
credential_not_for_this_agent_error message =
    helix_error (text "CredentialNotForThisAgentError") Codes.credential_not_for_this_agent
      (given message (text "Credential subject does not match this wallet DID")) 400 none

unfoldable pub credential_already_in_wallet_error : Option Json → HelixError
credential_already_in_wallet_error message =
    helix_error (text "CredentialAlreadyInWalletError") Codes.credential_already_in_wallet
      (given message (text "Credential is already in this wallet")) 409 none

unfoldable pub sdk_only_mode_no_api_error : Option Json → HelixError
sdk_only_mode_no_api_error message =
    helix_error (text "SDKOnlyModeNoAPIError") Codes.sdk_only_mode_no_api
      (given message (
        text
          "This operation requires a HelixID API URL. Pass the API URL to HelixClient constructor: HelixClient(\"http://your-api\")"))
      400 none

unfoldable pub insufficient_scope_error : (Json → Text) → Json → HelixError
insufficient_scope_error show required_scope =
    helix_error (text "InsufficientScopeError") Codes.insufficient_scope
      (str (text "Required scope: " ++ show required_scope)) 403 none
