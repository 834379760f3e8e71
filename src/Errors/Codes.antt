-- ===== src/Errors/Codes.antt =====
-- The error codes of src/helix_sdk/codes.py.
use helix_sdk_py.Text.{Text, text}

-- Copyright 2026 DgVerse LLP

-- Licensed under the Apache License, Version 2.0 (the "License");

-- you may not use this file except in compliance with the License.

-- You may obtain a copy of the License at

--    http://www.apache.org/licenses/LICENSE-2.0

abbrev pub validation_error : Text
validation_error = text "VALIDATION_ERROR"

abbrev pub internal_error : Text
internal_error = text "INTERNAL_ERROR"

abbrev pub admin_auth_required : Text
admin_auth_required = text "ADMIN_AUTH_REQUIRED"

-- B1 - DID & Hedera

abbrev pub invalid_public_key : Text
invalid_public_key = text "INVALID_PUBLIC_KEY"

abbrev pub invalid_did_format : Text
invalid_did_format = text "INVALID_DID_FORMAT"

abbrev pub did_not_found : Text
did_not_found = text "DID_NOT_FOUND"

abbrev pub did_method_not_available : Text
did_method_not_available = text "DID_METHOD_NOT_AVAILABLE"

abbrev pub unsupported_did_method : Text
unsupported_did_method = text "UNSUPPORTED_DID_METHOD"

abbrev pub did_already_exists : Text
did_already_exists = text "DID_ALREADY_EXISTS"

abbrev pub did_deactivated : Text
did_deactivated = text "DID_DEACTIVATED"

abbrev pub invalid_service_endpoint_url : Text
invalid_service_endpoint_url = text "INVALID_SERVICE_ENDPOINT_URL"

abbrev pub service_endpoint_not_found : Text
service_endpoint_not_found = text "SERVICE_ENDPOINT_NOT_FOUND"

abbrev pub service_endpoint_already_exists : Text
service_endpoint_already_exists = text "SERVICE_ENDPOINT_ALREADY_EXISTS"

abbrev pub hedera_anchor_failed : Text
hedera_anchor_failed = text "HEDERA_ANCHOR_FAILED"

abbrev pub hedera_resolution_failed : Text
hedera_resolution_failed = text "HEDERA_RESOLUTION_FAILED"

-- B2 - VC Issuance & Management

abbrev pub vc_not_found : Text
vc_not_found = text "VC_NOT_FOUND"

abbrev pub vc_already_revoked : Text
vc_already_revoked = text "VC_ALREADY_REVOKED"

abbrev pub vc_expired : Text
vc_expired = text "VC_EXPIRED"

abbrev pub vc_not_yet_valid : Text
vc_not_yet_valid = text "VC_NOT_YET_VALID"

abbrev pub vc_subject_did_not_found : Text
vc_subject_did_not_found = text "VC_SUBJECT_DID_NOT_FOUND"

abbrev pub vc_invalid_privilege_scope : Text
vc_invalid_privilege_scope = text "VC_INVALID_PRIVILEGE_SCOPE"

abbrev pub status_list_index_exhausted : Text
status_list_index_exhausted = text "STATUS_LIST_INDEX_EXHAUSTED"

abbrev pub status_list_not_found : Text
status_list_not_found = text "STATUS_LIST_NOT_FOUND"

abbrev pub vc_signature_invalid : Text
vc_signature_invalid = text "VC_SIGNATURE_INVALID"

abbrev pub self_signed_vc_not_allowed : Text
self_signed_vc_not_allowed = text "SELF_SIGNED_VC_NOT_ALLOWED"

abbrev pub scope_escalation_denied : Text
scope_escalation_denied = text "SCOPE_ESCALATION_DENIED"

abbrev pub max_delegation_depth_exceeded : Text
max_delegation_depth_exceeded = text "MAX_DELEGATION_DEPTH_EXCEEDED"

abbrev pub issuer_signing_key_mismatch : Text
issuer_signing_key_mismatch = text "ISSUER_SIGNING_KEY_MISMATCH"

abbrev pub vc_revoked : Text
vc_revoked = text "VC_REVOKED"

abbrev pub vc_issuer_not_found : Text
vc_issuer_not_found = text "VC_ISSUER_NOT_FOUND"

abbrev pub delegation_not_permitted : Text
delegation_not_permitted = text "DELEGATION_NOT_PERMITTED"

abbrev pub delegation_depth_exceeded : Text
delegation_depth_exceeded = text "DELEGATION_DEPTH_EXCEEDED"

abbrev pub delegation_scope_escalation : Text
delegation_scope_escalation = text "DELEGATION_SCOPE_ESCALATION"

abbrev pub delegation_chain_invalid : Text
delegation_chain_invalid = text "DELEGATION_CHAIN_INVALID"

abbrev pub delegation_parent_vc_not_found : Text
delegation_parent_vc_not_found = text "DELEGATION_PARENT_VC_NOT_FOUND"

abbrev pub delegation_parent_vc_revoked : Text
delegation_parent_vc_revoked = text "DELEGATION_PARENT_VC_REVOKED"

-- B3 - VP

abbrev pub vp_missing : Text
vp_missing = text "VP_MISSING"

abbrev pub vp_not_found : Text
vp_not_found = text "VP_NOT_FOUND"

abbrev pub vp_expired : Text
vp_expired = text "VP_EXPIRED"

abbrev pub vp_already_consumed : Text
vp_already_consumed = text "VP_ALREADY_CONSUMED"

abbrev pub vp_verification_failed : Text
vp_verification_failed = text "VP_VERIFICATION_FAILED"

abbrev pub vp_signature_invalid : Text
vp_signature_invalid = text "VP_SIGNATURE_INVALID"

abbrev pub vp_invalid_structure : Text
vp_invalid_structure = text "VP_INVALID_STRUCTURE"

abbrev pub vp_agent_did_not_found : Text
vp_agent_did_not_found = text "VP_AGENT_DID_NOT_FOUND"

abbrev pub vp_no_active_vc : Text
vp_no_active_vc = text "VP_NO_ACTIVE_VC"

abbrev pub vp_multiple_active_vc : Text
vp_multiple_active_vc = text "VP_MULTIPLE_ACTIVE_VC"

abbrev pub consent_grant_subject_mismatch : Text
consent_grant_subject_mismatch = text "CONSENT_GRANT_SUBJECT_MISMATCH"

abbrev pub consent_grant_invalid : Text
consent_grant_invalid = text "CONSENT_GRANT_INVALID"

abbrev pub jwt_invalid : Text
jwt_invalid = text "JWT_INVALID"

abbrev pub jwt_expired : Text
jwt_expired = text "JWT_EXPIRED"

abbrev pub jwt_public_key_not_found : Text
jwt_public_key_not_found = text "JWT_PUBLIC_KEY_NOT_FOUND"

-- B4 - Agent & User

abbrev pub service_not_found : Text
service_not_found = text "SERVICE_NOT_FOUND"

abbrev pub service_already_exists : Text
service_already_exists = text "SERVICE_ALREADY_EXISTS"

abbrev pub enrollment_token_not_found : Text
enrollment_token_not_found = text "ENROLLMENT_TOKEN_NOT_FOUND"

abbrev pub enrollment_token_expired : Text
enrollment_token_expired = text "ENROLLMENT_TOKEN_EXPIRED"

abbrev pub enrollment_token_already_used : Text
enrollment_token_already_used = text "ENROLLMENT_TOKEN_ALREADY_USED"

abbrev pub challenge_not_found : Text
challenge_not_found = text "CHALLENGE_NOT_FOUND"

abbrev pub challenge_expired : Text
challenge_expired = text "CHALLENGE_EXPIRED"

abbrev pub challenge_already_verified : Text
challenge_already_verified = text "CHALLENGE_ALREADY_VERIFIED"

abbrev pub challenge_signature_invalid : Text
challenge_signature_invalid = text "CHALLENGE_SIGNATURE_INVALID"

abbrev pub agent_already_onboarded : Text
agent_already_onboarded = text "AGENT_ALREADY_ONBOARDED"

-- Prepare/finalize (SDK-API-only payload construction)

abbrev pub prepared_payload_not_found : Text
prepared_payload_not_found = text "PREPARED_PAYLOAD_NOT_FOUND"

abbrev pub prepared_payload_expired : Text
prepared_payload_expired = text "PREPARED_PAYLOAD_EXPIRED"

abbrev pub prepared_payload_already_consumed : Text
prepared_payload_already_consumed = text "PREPARED_PAYLOAD_ALREADY_CONSUMED"

abbrev pub prepared_payload_signature_invalid : Text
prepared_payload_signature_invalid = text "PREPARED_PAYLOAD_SIGNATURE_INVALID"

abbrev pub prepared_payload_purpose_mismatch : Text
prepared_payload_purpose_mismatch = text "PREPARED_PAYLOAD_PURPOSE_MISMATCH"

abbrev pub renewal_window_not_open : Text
renewal_window_not_open = text "RENEWAL_WINDOW_NOT_OPEN"

abbrev pub renewal_window_expired : Text
renewal_window_expired = text "RENEWAL_WINDOW_EXPIRED"

abbrev pub max_renewal_count_exceeded : Text
max_renewal_count_exceeded = text "MAX_RENEWAL_COUNT_EXCEEDED"

abbrev pub vc_missing_credential_status : Text
vc_missing_credential_status = text "VC_MISSING_CREDENTIAL_STATUS"

-- SDK-local wallet/client ergonomics

abbrev pub wallet_already_exists : Text
wallet_already_exists = text "WALLET_ALREADY_EXISTS"

abbrev pub no_credential_in_wallet : Text
no_credential_in_wallet = text "NO_CREDENTIAL_IN_WALLET"

abbrev pub credential_not_for_this_agent : Text
credential_not_for_this_agent = text "CREDENTIAL_NOT_FOR_THIS_AGENT"

abbrev pub credential_already_in_wallet : Text
credential_already_in_wallet = text "CREDENTIAL_ALREADY_IN_WALLET"

abbrev pub sdk_only_mode_no_api : Text
sdk_only_mode_no_api = text "SDK_ONLY_MODE_NO_API"

abbrev pub insufficient_scope : Text
insufficient_scope = text "INSUFFICIENT_SCOPE"

-- Hosted accounts & auth

abbrev pub account_already_exists : Text
account_already_exists = text "ACCOUNT_ALREADY_EXISTS"

abbrev pub account_not_found : Text
account_not_found = text "ACCOUNT_NOT_FOUND"

abbrev pub invalid_credentials : Text
invalid_credentials = text "INVALID_CREDENTIALS"

abbrev pub account_has_no_password : Text
account_has_no_password = text "ACCOUNT_HAS_NO_PASSWORD"

abbrev pub refresh_token_invalid : Text
refresh_token_invalid = text "REFRESH_TOKEN_INVALID"

abbrev pub refresh_token_expired : Text
refresh_token_expired = text "REFRESH_TOKEN_EXPIRED"

abbrev pub refresh_token_reuse_detected : Text
refresh_token_reuse_detected = text "REFRESH_TOKEN_REUSE_DETECTED"

abbrev pub access_token_invalid : Text
access_token_invalid = text "ACCESS_TOKEN_INVALID"

abbrev pub access_token_expired : Text
access_token_expired = text "ACCESS_TOKEN_EXPIRED"

abbrev pub google_oauth_failed : Text
google_oauth_failed = text "GOOGLE_OAUTH_FAILED"

abbrev pub email_not_verified : Text
email_not_verified = text "EMAIL_NOT_VERIFIED"

abbrev pub email_verification_token_invalid : Text
email_verification_token_invalid = text "EMAIL_VERIFICATION_TOKEN_INVALID"

abbrev pub email_verification_token_expired : Text
email_verification_token_expired = text "EMAIL_VERIFICATION_TOKEN_EXPIRED"

abbrev pub account_quota_exceeded : Text
account_quota_exceeded = text "ACCOUNT_QUOTA_EXCEEDED"

abbrev pub captcha_failed : Text
captcha_failed = text "CAPTCHA_FAILED"
