-- ===== src/Client/Credentials.antt =====
-- The methods on credentials, status lists and the audit log, src/helix_sdk/client.py lines 123-168
-- and 243-272.
use helix_sdk_py.Http.{◌>>=◌, ◌>>◌}
use helix_sdk_py.Base.{List, Option, [], if◌then◌else◌, none, pos, some, ℤ, ◌++◌, ◌∷◌}
use helix_sdk_py.Client.{
  HelixClient, api_get, api_post, assert_api_configured, dict, http_required, put_given, quote_json,
}
use helix_sdk_py.Errors.{ok, subscript}
use helix_sdk_py.Http.{Action, Env, http_get, lift, pure}
use helix_sdk_py.Http.Url.{query_string, quote}
use helix_sdk_py.Json.{Json, Members, arr, end, get, int, merge, null, obj, put, str, texts}
use helix_sdk_py.Text.{Text, text}
use helix_sdk_py.Text.Decimal.{int_text}

-- `str(limit)` of an optional number.
abbrev pub int_param : Option ℤ → Option Text
int_param none = none
int_param (some n) = some (int_text n)

-- `{"expiresInSeconds": 7_776_000, **options}`
unfoldable pub issue_body : Members → Members
unfolding merge
issue_body options = merge (dict ((text "expiresInSeconds", int (pos 7776000)) ∷ [])) options

abbrev ints : Option ℤ → Option Json
ints none = none
ints (some n) = some (int n)

abbrev text_list : Option (List Text) → Option Json
text_list none = none
text_list (some xs) = some (arr (texts xs))

-- The overrides of `renew_vc`.
unfoldable pub renew_body : Option (List Text) → Option ℤ → Members
unfolding put_given
renew_body privilege_scopes expires_in_seconds =
    put_given (text "expiresInSeconds") (ints expires_in_seconds)
      (put_given (text "privilegeScopes") (text_list privilege_scopes) end)

-- `{**entry, "subjectDid": entry.get("agentDid"), "eventType": "CONSENT_GRANTED"}`
unfoldable pub consent_body : Members → Members
unfolding put get
consent_body entry = put (text "eventType") (str (text "CONSENT_GRANTED")) (
    put (text "subjectDid") (elim (get (text "agentDid") entry) [ none ↦ null | some v ↦ v ]) entry)

-- `try: … except Exception: pass`; the requests that were made stay made.
abbrev pub swallow : Action Json → Action Json
swallow m log = (ok null, (m log).1)

module _ (env : Env) (c : HelixClient) where
  unfoldable pub issue_vc : Members → Action Json
  issue_vc options = api_post env c (text "/v1/vcs") (some (obj (issue_body options)))

  unfoldable pub get_vc : Text → Action Json
  get_vc vc_id = api_get env c (text "/v1/vcs/" ++ quote vc_id)

  unfoldable pub list_vcs : Option Text → Option Text → Option ℤ → Action Json
  list_vcs subject_did status limit = api_get env c (
      text "/v1/vcs"
      ++ query_string (
          (text "subjectDid", subject_did)
          ∷ (text "status", status)
          ∷ (text "limit", int_param limit)
          ∷ []))

  unfoldable pub revoke_vc : Text → Action Json
  revoke_vc vc_id = api_post env c (text "/v1/vcs/" ++ quote vc_id ++ text "/revoke") none

  unfoldable pub renew_vc : Text → Option (List Text) → Option ℤ → Action Json
  renew_vc vc_id privilege_scopes expires_in_seconds =
      api_post env c (text "/v1/vcs/" ++ quote vc_id ++ text "/renew")
        (some (obj (renew_body privilege_scopes expires_in_seconds)))

  unfoldable pub register_vc : Json → Action Json
  register_vc vc =
      api_post env c (text "/v1/vcs/register") (some (obj (dict ((text "vc", vc) ∷ []))))

  -- The adapter is looked up before `vc["id"]` is read.
  unfoldable pub check_vc_status : Json → Action Json
  check_vc_status vc = do
    a ← lift (http_required c)
    id ← lift (subscript (text "id") vc)
    segment ← lift (quote_json id)
    response ← http_get env a (text "/v1/vcs/" ++ segment ++ text "/status")
    lift (subscript (text "status") response)

  unfoldable pub get_status_list : Text → Action Json
  get_status_list list_id = api_get env c (text "/v1/status-list/" ++ quote list_id)

  unfoldable pub create_status_list : Members → Action Json
  create_status_list options = do
    lift (assert_api_configured c)
    api_post env c (text "/v1/status-list") (some (obj options))

  unfoldable pub get_audit_log : Option Text → Option Text → Option ℤ → Action Json
  get_audit_log event_type since limit = api_get env c (
      text "/v1/audit-log"
      ++ query_string (
          (text "eventType", event_type)
          ∷ (text "since", since)
          ∷ (text "limit", int_param limit)
          ∷ []))

  -- Returns None, whatever happens.
  unfoldable pub record_consent_granted_audit : Members → Action Json
  record_consent_granted_audit entry =
      if c.api_audit_enabled
      then swallow
          (api_post env c (text "/v1/audit-log/consent-granted") (some (obj (consent_body entry))))
      else pure null
