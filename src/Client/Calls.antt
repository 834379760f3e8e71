-- ===== src/Client/Calls.antt =====
-- Every method of `HelixClient` that reaches the API, as one type of calls.
use helix_sdk_py.Http
use helix_sdk_py.Client.Services.{get_agent_scopes}
use helix_sdk_py.Base.{Bool, List, Option, ℤ}
use helix_sdk_py.Client.{HelixClient}
use helix_sdk_py.Client.Agents.{
  delegate_authority, fetch_session_public_key, onboard_agent, request_user_challenge, sign_vp,
  verify_user_challenge, verify_vp,
}
use helix_sdk_py.Client.Credentials.{
  check_vc_status, create_status_list, get_audit_log, get_status_list, get_vc, issue_vc, list_vcs,
  record_consent_granted_audit, register_vc, renew_vc, revoke_vc,
}
use helix_sdk_py.Client.Dids.{
  KeyPair, add_service_endpoint, create_did, deactivate_did, remove_service_endpoint, resolve_did,
}
use helix_sdk_py.Client.Services.{GrantOptions, create_service, issue_service_delegation_grant}
use helix_sdk_py.Errors.{Result, ok}
use helix_sdk_py.Http.{Action, Env, lift}
use helix_sdk_py.Json.{Json, Members}
use helix_sdk_py.Text.{Text}

pub data Call : Type 0 where
  create_did_call : KeyPair → Text → Option (List Text) → Call
  resolve_did_call : Text → Bool → Call
  add_service_endpoint_call : Text → Json → Call
  remove_service_endpoint_call deactivate_did_call : Text → Text → Call
  issue_vc_call : Members → Call
  get_vc_call revoke_vc_call : Text → Call
  list_vcs_call : Option Text → Option Text → Option ℤ → Call
  renew_vc_call : Text → Option (List Text) → Option ℤ → Call
  register_vc_call check_vc_status_call : Json → Call
  create_service_call : Text → Text → Text → Option Text → Call
  issue_service_delegation_grant_call : GrantOptions → Call
  get_agent_scopes_call : Text → Text → Call
  get_status_list_call : Text → Call
  create_status_list_call : Members → Call
  get_audit_log_call : Option Text → Option Text → Option ℤ → Call
  record_consent_granted_audit_call : Members → Call
  verify_vp_call : Json → Option Text → Option Bool → Call
  fetch_session_public_key_call : Call
  onboard_agent_call : Text → Option (List Text) → Call
  sign_vp_call : Text → Text → Option Text → Call
  delegate_authority_call : Text → Text → List Text → ℤ → Option Text → Bool → Call
  request_user_challenge_call : Text → Call
  verify_user_challenge_call : Text → Text → Call

-- `create_did` without its key pair.
abbrev pub without_key_pair : Json × KeyPair → Result Json
without_key_pair (v, _) = ok v

unfoldable pub perform : Env → HelixClient → Call → Action Json
perform env c (create_did_call k s d) =
    Http.◌>>=◌ (create_did env c k s d) (λ p. lift (without_key_pair p))
perform env c (resolve_did_call d l) = resolve_did env c d l
perform env c (add_service_endpoint_call d e) = add_service_endpoint env c d e
perform env c (remove_service_endpoint_call d e) = remove_service_endpoint env c d e
perform env c (deactivate_did_call d r) = deactivate_did env c d r
perform env c (issue_vc_call o) = issue_vc env c o
perform env c (get_vc_call v) = get_vc env c v
perform env c (revoke_vc_call v) = revoke_vc env c v
perform env c (list_vcs_call d s l) = list_vcs env c d s l
perform env c (renew_vc_call v s e) = renew_vc env c v s e
perform env c (register_vc_call v) = register_vc env c v
perform env c (check_vc_status_call v) = check_vc_status env c v
perform env c (create_service_call s d v a) = create_service env c s d v a
perform env c (issue_service_delegation_grant_call o) = issue_service_delegation_grant env c o
perform env c (get_agent_scopes_call s a) = get_agent_scopes env c s a
perform env c (get_status_list_call l) = get_status_list env c l
perform env c (create_status_list_call o) = create_status_list env c o
perform env c (get_audit_log_call e s l) = get_audit_log env c e s l
perform env c (record_consent_granted_audit_call e) = record_consent_granted_audit env c e
perform env c (verify_vp_call v t a) = verify_vp env c v t a
perform env c fetch_session_public_key_call = fetch_session_public_key env c
perform env c (onboard_agent_call t d) = onboard_agent env c t d
perform env c (sign_vp_call d t u) = sign_vp env c d t u
perform env c (delegate_authority_call d t s e v r) = delegate_authority env c d t s e v r
perform env c (request_user_challenge_call d) = request_user_challenge env c d
perform env c (verify_user_challenge_call i s) = verify_user_challenge env c i s
