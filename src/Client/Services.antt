-- ===== src/Client/Services.antt =====
-- The methods on service providers, src/helix_sdk/client.py lines 172-239.
use helix_sdk_py.Http.{◌>>=◌, ◌>>◌}
use helix_sdk_py.Base.{Bool, List, Option, [], if◌then◌else◌, some, true, ◌++◌, ◌∷◌}
use helix_sdk_py.Client.{
  HelixClient, api_get, api_post, assert_api_configured, dict, flag_json, put_given, text_json,
}
use helix_sdk_py.Errors.{subscript}
use helix_sdk_py.Http.{Action, Env, lift}
use helix_sdk_py.Http.Url.{query_string}
use helix_sdk_py.Json.{Json, Members, arr, bool, obj, put, str, texts}
use helix_sdk_py.Text.{Text, text}

unfoldable pub service_body : Text → Text → Text → Option Text → Members
unfolding put_given
service_body service_name display_name verified_domain api_endpoint =
    put_given (text "apiEndpoint") (text_json api_endpoint) (
      dict (
        (text "serviceName", str service_name)
        ∷ (text "displayName", str display_name)
        ∷ (text "verifiedDomain", str verified_domain)
        ∷ []))

-- `if flag: body[k] = True`
abbrev pub put_flag : Text → Bool → Members → Members
put_flag k flag body = if flag then put k (bool true) body else body

-- What `issue_service_delegation_grant` is called with.
pub record GrantOptions : Type 0 where
  pub service_did : Text
  pub agent_did : Text
  pub user_did : Text
  pub scopes : List Text
  pub durability : Text
  pub revoke_existing : Bool
  pub allow_delegation : Option Bool

unfoldable pub grant_body : GrantOptions → Members
unfolding put put_given
grant_body o = put_given (text "allowDelegation") (flag_json o.allow_delegation) (
    put_flag (text "revokeExisting") o.revoke_existing (
      dict (
        (text "serviceDid", str o.service_did)
        ∷ (text "agentDid", str o.agent_did)
        ∷ (text "userDid", str o.user_did)
        ∷ (text "scopes", arr (texts o.scopes))
        ∷ (text "durability", str o.durability)
        ∷ [])))

module _ (env : Env) (c : HelixClient) where
  unfoldable pub create_service : Text → Text → Text → Option Text → Action Json
  create_service service_name display_name verified_domain api_endpoint =
      api_post env c (text "/v1/services")
        (some (obj (service_body service_name display_name verified_domain api_endpoint)))

  unfoldable pub issue_service_delegation_grant : GrantOptions → Action Json
  issue_service_delegation_grant o = do
    result ← api_post env c (text "/v1/service-delegation-grants") (some (obj (grant_body o)))
    lift (subscript (text "grantVC") result)

  unfoldable pub get_agent_scopes : Text → Text → Action Json
  get_agent_scopes service_did agent_did = do
    lift (assert_api_configured c)
    api_get env c (
        text "/v1/service-delegation-grants/agent-scopes"
        ++ query_string
            ((text "serviceDid", some service_did) ∷ (text "agentDid", some agent_did) ∷ []))
