-- ===== src/Client/Modes.antt =====
-- The three modes of a client, and that the SDK-only mode never reaches the network.
use helix_sdk_py.Http
use helix_sdk_py.Client.Services.{get_agent_scopes}
use helix_sdk_py.Base.{
  Bool, Option, [], ap, false, if◌then◌else◌, none, refl, some, true, ◌||◌, ◌↔◌, ◌∷◌, ◌≡◌,
}
use helix_sdk_py.Client.{
  HelixClient, api_delete, api_get, api_post, assert_api_configured, default_enterprise_url,
  helix_client, http_required, resolve_base_url, sdk_only,
}
use helix_sdk_py.Client.Agents.{
  delegate_authority, fetch_session_public_key, onboard_agent, request_user_challenge, sign_vp,
  verify_user_challenge, verify_vp,
}
use helix_sdk_py.Client.Calls.{
  Call, add_service_endpoint_call, check_vc_status_call, create_did_call, create_service_call,
  create_status_list_call, deactivate_did_call, delegate_authority_call,
  fetch_session_public_key_call, get_agent_scopes_call, get_audit_log_call, get_status_list_call,
  get_vc_call, issue_service_delegation_grant_call, issue_vc_call, list_vcs_call,
  onboard_agent_call, perform, record_consent_granted_audit_call, register_vc_call,
  remove_service_endpoint_call, renew_vc_call, request_user_challenge_call, resolve_did_call,
  revoke_vc_call, sign_vp_call, verify_user_challenge_call, verify_vp_call,
}
use helix_sdk_py.Client.Credentials.{
  check_vc_status, consent_body, create_status_list, get_audit_log, get_status_list, get_vc,
  issue_vc, list_vcs, record_consent_granted_audit, register_vc, renew_vc, revoke_vc, swallow,
}
use helix_sdk_py.Client.Dids.{
  add_service_endpoint, create_did, deactivate_did, remove_service_endpoint, resolve_did,
}
use helix_sdk_py.Client.Services.{create_service, issue_service_delegation_grant}
use helix_sdk_py.Errors.{Result, ok, raised}
use helix_sdk_py.Http.{
  Action, Env, HttpAdapter, Log, continue, http_adapter, is_set, lift, pure, without_slash,
}
use helix_sdk_py.Json.{Json, Members, null, obj}
use helix_sdk_py.Text.{Text, text}

-- A client is in SDK-only mode exactly when it gets no base URL, and no account key that is not
-- empty.
pub helix_client-mode :
    (base_url admin_api_key api_key : Option Text)
    → ((helix_client base_url admin_api_key api_key).sdk_only_mode ≡ true)
      ↔ ((base_url ≡ none) × (is_set api_key ≡ false))
unfolding helix_client resolve_base_url
helix_client-mode none admin none = (λ e. (refl, refl), λ h. refl)
helix_client-mode none admin (some []) = (λ e. (refl, refl), λ h. refl)
helix_client-mode none admin (some (k ∷ ks)) = (λ e. cc, λ h. cc)
helix_client-mode (some url) admin key = (λ e. cc, λ h. cc)

-- Any other client has an adapter with the keys that the client got and the base URL, or the
-- hosted one where none is given, less a slash at its end; it keeps the same base URL itself, and
-- it audits exactly when one of the keys is there.
helix_client-adapter :
    (base_url admin_api_key api_key : Option Text)
    → (helix_client base_url admin_api_key api_key).sdk_only_mode ≡ false
    → (a : HttpAdapter) × ((helix_client base_url admin_api_key api_key).http ≡ some a)
      × (a.admin_api_key ≡ admin_api_key)
      × (a.api_key ≡ api_key)
      × (a.base_url
          ≡ without_slash (elim base_url [ none ↦ default_enterprise_url | some url ↦ url ]))
      × ((helix_client base_url admin_api_key api_key).base_url ≡ some a.base_url)
      × ((helix_client base_url admin_api_key api_key).api_audit_enabled
          ≡ (is_set admin_api_key || is_set api_key))
unfolding helix_client resolve_base_url http_adapter
helix_client-adapter none admin none e = cc
helix_client-adapter none admin (some []) e = cc
helix_client-adapter none admin (some (k ∷ ks)) e = (
  http_adapter default_enterprise_url admin (some (k ∷ ks)) 30,
  refl,
  refl,
  refl,
  refl,
  refl,
  refl,
)
helix_client-adapter (some url) admin key e =
    (http_adapter url admin key 30, refl, refl, refl, refl, refl, refl)

then-offline {ℓ κ} :
    {A : Type ℓ} {B : Type κ} (m : Action A) (f : A → Action B) (log : Log)
    → m log ≡ (raised sdk_only, log)
    → Http.◌>>=◌ m f log ≡ (raised sdk_only, log)
then-offline m f log e = ap (λ r. continue f r.0 r.1) e

-- How a call ends in SDK-only mode.
abbrev pub offline_result : Call → Result Json
offline_result (record_consent_granted_audit_call e) = ok null
offline_result call = raised sdk_only

module _ (env : Env) (c : HelixClient) (offline : c.sdk_only_mode ≡ true) (log : Log) where
  http_required-offline : http_required c ≡ raised sdk_only
  unfolding http_required
  http_required-offline = rw offline

  api_get-offline : (path : Text) → api_get env c path log ≡ (raised sdk_only, log)
  unfolding api_get
  api_get-offline path = rw http_required-offline

  api_post-offline :
      (path : Text) (body : Option Json) → api_post env c path body log ≡ (raised sdk_only, log)
  unfolding api_post
  api_post-offline path body = rw http_required-offline

  api_delete-offline : (path : Text) → api_delete env c path log ≡ (raised sdk_only, log)
  unfolding api_delete
  api_delete-offline path = rw http_required-offline

  assert-offline : assert_api_configured c ≡ raised sdk_only
  unfolding assert_api_configured
  assert-offline = rw offline

  get-then :
      {A : Type 0} (path : Text) (f : Json → Action A)
      → Http.◌>>=◌ (api_get env c path) f log ≡ (raised sdk_only, log)
  get-then path f = then-offline (api_get env c path) f log (api_get-offline path)

  post-then :
      {A : Type 0} (path : Text) (body : Option Json) (f : Json → Action A)
      → Http.◌>>=◌ (api_post env c path body) f log ≡ (raised sdk_only, log)
  post-then path body f = then-offline (api_post env c path body) f log (api_post-offline path body)

  assert-then :
      {A : Type 0} (f : Unit {0} → Action A)
      → Http.◌>>=◌ (lift (assert_api_configured c)) f log ≡ (raised sdk_only, log)
  assert-then f = then-offline (lift (assert_api_configured c)) f log (rw assert-offline)

  swallow-offline :
      (b : Bool) (m : Action Json)
      → m log ≡ (raised sdk_only, log)
      → (if b then swallow m else Http.pure null) log ≡ (ok null, log)
  swallow-offline true m e = ap (λ r. (ok null, r.1)) e
  swallow-offline false m e = refl

  audit-offline : (entry : Members) → record_consent_granted_audit env c entry log ≡ (ok null, log)
  unfolding record_consent_granted_audit
  audit-offline entry =
      swallow-offline c.api_audit_enabled
        (api_post env c (text "/v1/audit-log/consent-granted") (some (obj (consent_body entry))))
        (api_post-offline _ _)

  -- In SDK-only mode no call of the API sends a request, and every call raises
  -- `SDKOnlyModeNoAPIError`, but for the audit of a consent grant, which returns None.
  pub perform-offline : (call : Call) → perform env c call log ≡ (offline_result call, log)
  unfolding perform create_did resolve_did add_service_endpoint remove_service_endpoint
      deactivate_did issue_vc get_vc revoke_vc list_vcs renew_vc register_vc check_vc_status
      create_service issue_service_delegation_grant get_agent_scopes get_status_list
      create_status_list get_audit_log record_consent_granted_audit verify_vp
      fetch_session_public_key onboard_agent sign_vp delegate_authority request_user_challenge
      verify_user_challenge
  perform-offline (create_did_call k s d) =
      then-offline (create_did env c k s d) _ log (post-then _ _ _)
  perform-offline (resolve_did_call d l) = get-then _ _
  perform-offline (add_service_endpoint_call d e) = post-then _ _ _
  perform-offline (remove_service_endpoint_call d e) =
      then-offline (api_delete env c _) _ log (api_delete-offline _)
  perform-offline (deactivate_did_call d r) = post-then _ _ _
  perform-offline (issue_vc_call o) = api_post-offline _ _
  perform-offline (get_vc_call v) = api_get-offline _
  perform-offline (revoke_vc_call v) = api_post-offline _ _
  perform-offline (list_vcs_call d s l) = api_get-offline _
  perform-offline (renew_vc_call v s e) = api_post-offline _ _
  perform-offline (register_vc_call v) = api_post-offline _ _
  perform-offline (check_vc_status_call v) =
      then-offline (lift (http_required c)) _ log (rw http_required-offline)
  perform-offline (create_service_call s d v a) = api_post-offline _ _
  perform-offline (issue_service_delegation_grant_call o) = post-then _ _ _
  perform-offline (get_agent_scopes_call s a) = assert-then _
  perform-offline (get_status_list_call l) = api_get-offline _
  perform-offline (create_status_list_call o) = assert-then _
  perform-offline (get_audit_log_call e s l) = api_get-offline _
  perform-offline (record_consent_granted_audit_call e) = audit-offline e
  perform-offline (verify_vp_call v t a) = api_post-offline _ _
  perform-offline fetch_session_public_key_call = get-then _ _
  perform-offline (onboard_agent_call t d) = assert-then _
  perform-offline (sign_vp_call d t u) = assert-then _
  perform-offline (delegate_authority_call d t s e v r) = assert-then _
  perform-offline (request_user_challenge_call d) = api_post-offline _ _
  perform-offline (verify_user_challenge_call i s) = api_post-offline _ _
