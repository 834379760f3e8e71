-- ===== src/Client/Sends.antt =====
-- Each call makes at most one request, to the configured server, with the configured credential.
use helix_sdk_py.Http
use helix_sdk_py.Client.Services.{get_agent_scopes}
use helix_sdk_py.Base.{
  Bool, Bool-cases, Option, Option-cases, [], false, if◌then◌else◌, inl, inr, none, refl, some,
  true, ◌++◌, ◌∷◌, ◌≡◌, ◌⊎◌,
}
use helix_sdk_py.Client.{
  HelixClient, api_delete, api_get, api_post, assert_api_configured, http_required, quote_json,
  sdk_only,
}
use helix_sdk_py.Client.Agents.{
  delegate_authority, fetch_session_public_key, onboard_agent, request_user_challenge, sign_vp,
  verify_user_challenge, verify_vp,
}
use helix_sdk_py.Client.Calls.{
  Call, add_service_endpoint_call, check_vc_status_call, create_did_call, create_service_call,
  create_status_list_call, deactivate_did_call, delegate_authority_call,
  fetch_session_public_key_call, get_agent_scopes_call, get_audit_log_call, get_status_list_call,
  get_vc_call, issue_service_delegation_grant_call, issue_vc_call, list_vcs_call,
  onboard_agent_call, perform, record_consent_granted_audit_call, register_vc_call,
  remove_service_endpoint_call, renew_vc_call, request_user_challenge_call, resolve_did_call,
  revoke_vc_call, sign_vp_call, verify_user_challenge_call, verify_vp_call, without_key_pair,
}
use helix_sdk_py.Client.Credentials.{
  check_vc_status, create_status_list, get_audit_log, get_status_list, get_vc, issue_vc, list_vcs,
  record_consent_granted_audit, register_vc, renew_vc, revoke_vc,
}
use helix_sdk_py.Client.Dids.{
  add_service_endpoint, create_did, deactivate_did, remove_service_endpoint, resolve_did,
}
use helix_sdk_py.Client.Services.{create_service, issue_service_delegation_grant}
use helix_sdk_py.Errors.{Exception, Result, builtin, ok, raised, subscript}
use helix_sdk_py.Http.{
  Action, Env, HttpAdapter, Log, Request, build_request, http_delete, http_get, http_post, lift,
  pure, request,
}
use helix_sdk_py.Http.Laws.{IsAuthorized, build_request-IsAuthorized, lift-log, request-log}
use helix_sdk_py.Json.{Json, Members, null}
use helix_sdk_py.Text.{Text, starts_with, text}

pub record IsSent (a : HttpAdapter) (r : Request) : Type 0 where
  pub path : Text
  pub url : r.url ≡ a.base_url ++ (text "/v1/" ++ path)
  pub authorized : IsAuthorized a r

-- What a call adds to the log of a client: nothing, or one request of its adapter.
abbrev pub Sends : HelixClient → Log → Log → Type 0
Sends c log log' =
    (log' ≡ log)
    ⊎ ((a : HttpAdapter) × (r : Request) × (c.http ≡ some a) × (log' ≡ r ∷ log) × IsSent a r)

module _ (env : Env) (c : HelixClient) (log : Log) where
  Sends-request :
      (a : HttpAdapter) (method path : Text) (body : Option Json)
      → c.http ≡ some a
      → Sends c log (request env a method (text "/v1/" ++ path) body log).1
  unfolding build_request starts_with
  Sends-request a method path body e =
      let r : Request = build_request a method (text "/v1/" ++ path) body in
      inr (
        a,
        r,
        e,
        request-log env a method (text "/v1/" ++ path) body log,
        record {
          path = path;
          url = refl;
          authorized = build_request-IsAuthorized a method (text "/v1/" ++ path) body;
        },
      )

  required_cases :
      ((e : Exception) × (http_required c ≡ raised e))
      ⊎ ((a : HttpAdapter) × (c.http ≡ some a) × (http_required c ≡ ok a))
  unfolding http_required
  required_cases = elim (Bool-cases c.sdk_only_mode) [
    | inl offline ↦ inl (sdk_only, rw offline)
    | inr online ↦ elim (Option-cases c.http) [
      | inl missing ↦ inl (builtin (text "AssertionError") [], rw (online, http_required, missing))
      | inr (a, e) ↦ inr (a, e, rw (online, http_required, e))
    ]
  ]

  Sends-required :
      {A : Type 0} (k : HttpAdapter → Action A)
      → ((a : HttpAdapter) → c.http ≡ some a → Sends c log (k a log).1)
      → Sends c log (Http.◌>>=◌ (lift (http_required c)) k log).1
  Sends-required k h = elim required_cases [
    | inl (e, stopped) ↦ rw stopped (inl refl)
    | inr (a, e, found) ↦ rw found (h a e)
  ]

  Sends-http_get :
      (a : HttpAdapter) (path : Text)
      → c.http ≡ some a
      → Sends c log (http_get env a (text "/v1/" ++ path) log).1
  unfolding http_get
  Sends-http_get a path e = Sends-request a (text "GET") path none e

  Sends-get : (path : Text) → Sends c log (api_get env c (text "/v1/" ++ path) log).1
  unfolding api_get
  Sends-get path = Sends-required _ (λ a e. Sends-http_get a path e)

  Sends-post :
      (path : Text) (body : Option Json)
      → Sends c log (api_post env c (text "/v1/" ++ path) body log).1
  unfolding api_post http_post
  Sends-post path body = Sends-required _ (λ a e. Sends-request a (text "POST") path body e)

  Sends-delete : (path : Text) → Sends c log (api_delete env c (text "/v1/" ++ path) log).1
  unfolding api_delete http_delete
  Sends-delete path = Sends-required _ (λ a e. Sends-request a (text "DELETE") path none e)

  -- A call that only reads the response sends what it sent.
  Sends-then :
      {A B : Type 0} (m : Action A) (f : A → Result B)
      → Sends c log (m log).1
      → Sends c log (Http.◌>>=◌ m (λ a. lift (f a)) log).1
  Sends-then m f h = rw (lift-log f (m log).0 (m log).1) h

  Sends-first :
      {A B : Type 0} (x : Result A) (k : A → Action B)
      → ((a : A) → Sends c log (k a log).1)
      → Sends c log (Http.◌>>=◌ (lift x) k log).1
  Sends-first (ok a) k h = h a
  Sends-first (raised e) k h = inl refl

  Sends-if :
      {A : Type 0} (b : Bool) (m n : Action A)
      → Sends c log (m log).1
      → Sends c log (n log).1
      → Sends c log ((if b then m else n) log).1
  Sends-if true m n h k = h
  Sends-if false m n h k = k

  -- The audit of a consent grant, with what it swallows.
  Sends-audit : (entry : Members) → Sends c log (record_consent_granted_audit env c entry log).1
  unfolding record_consent_granted_audit
  Sends-audit entry = Sends-if c.api_audit_enabled _ (Http.pure null) (Sends-post _ _) (inl refl)

  -- Every call makes no request, or one, by its adapter: to a path under `/v1/` of the configured
  -- base URL, with the configured credential and no other.
  pub perform-Sends : (call : Call) → Sends c log (perform env c call log).1
  unfolding perform create_did resolve_did add_service_endpoint remove_service_endpoint
      deactivate_did issue_vc get_vc revoke_vc list_vcs renew_vc register_vc check_vc_status
      create_service issue_service_delegation_grant get_agent_scopes get_status_list
      create_status_list get_audit_log record_consent_granted_audit verify_vp
      fetch_session_public_key onboard_agent sign_vp delegate_authority request_user_challenge
      verify_user_challenge
  perform-Sends (create_did_call k s d) =
      Sends-then (create_did env c k s d) without_key_pair
        (Sends-then (api_post env c _ _) _ (Sends-post _ _))
  perform-Sends (resolve_did_call d l) = Sends-then (api_get env c _) _ (Sends-get _)
  perform-Sends (add_service_endpoint_call d e) = Sends-then (api_post env c _ _) _ (Sends-post _ _)
  perform-Sends (remove_service_endpoint_call d e) =
      Sends-then (api_delete env c _) _ (Sends-delete _)
  perform-Sends (deactivate_did_call d r) =
      Sends-then (api_post env c _ _) (λ _. ok _) (Sends-post _ _)
  perform-Sends (issue_vc_call o) = Sends-post _ _
  perform-Sends (get_vc_call v) = Sends-get _
  perform-Sends (revoke_vc_call v) = Sends-post _ _
  perform-Sends (list_vcs_call d s l) = Sends-get _
  perform-Sends (renew_vc_call v s e) = Sends-post _ _
  perform-Sends (register_vc_call v) = Sends-post _ _
  perform-Sends (check_vc_status_call v) = Sends-required _ (λ a e.
      Sends-first (subscript (text "id") v) _ (λ id.
        Sends-first (quote_json id) _
          (λ segment. Sends-then (http_get env a _) _ (Sends-http_get a _ e))))
  perform-Sends (create_service_call s d v a) = Sends-post _ _
  perform-Sends (issue_service_delegation_grant_call o) =
      Sends-then (api_post env c _ _) _ (Sends-post _ _)
  perform-Sends (get_agent_scopes_call s a) =
      Sends-first (assert_api_configured c) _ (λ _. Sends-get _)
  perform-Sends (get_status_list_call l) = Sends-get _
  perform-Sends (create_status_list_call o) =
      Sends-first (assert_api_configured c) _ (λ _. Sends-post _ _)
  perform-Sends (get_audit_log_call e s l) = Sends-get _
  perform-Sends (record_consent_granted_audit_call e) = Sends-audit e
  perform-Sends (verify_vp_call v t a) = Sends-post _ _
  perform-Sends fetch_session_public_key_call = Sends-then (api_get env c _) _ (Sends-get _)
  perform-Sends (onboard_agent_call t d) =
      Sends-first (assert_api_configured c) _ (λ _. Sends-post _ _)
  perform-Sends (sign_vp_call d t u) =
      Sends-first (assert_api_configured c) _
        (λ _. Sends-then (api_post env c _ _) _ (Sends-post _ _))
  perform-Sends (delegate_authority_call d t s e v r) =
      Sends-first (assert_api_configured c) _
        (λ _. Sends-then (api_post env c _ _) _ (Sends-post _ _))
  perform-Sends (request_user_challenge_call d) = Sends-post _ _
  perform-Sends (verify_user_challenge_call i s) = Sends-post _ _
