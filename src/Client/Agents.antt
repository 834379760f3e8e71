-- ===== src/Client/Agents.antt =====
-- Verification, onboarding and custodial signing, src/helix_sdk/client.py lines 276-386.
use helix_sdk_py.Http.{◌>>=◌, ◌>>◌}
use helix_sdk_py.Base.{Bool, List, Option, [], if◌then◌else◌, some, ℤ, ◌++◌, ◌∷◌}
use helix_sdk_py.Client.{
  HelixClient, api_get, api_post, assert_api_configured, dict, flag_json, put_given, text_json,
  texts_or_empty,
}
use helix_sdk_py.Client.Services.{put_flag}
use helix_sdk_py.Errors.{subscript}
use helix_sdk_py.Http.{Action, Env, is_set, lift}
use helix_sdk_py.Http.Url.{quote}
use helix_sdk_py.Json.{Json, Members, arr, int, obj, put, str, texts}
use helix_sdk_py.Text.{Text, text}

unfoldable pub verify_body : Json → Option Text → Option Bool → Members
unfolding put_given
verify_body vp expected_target_service allow_self_signed =
    put_given (text "allowSelfSigned") (flag_json allow_self_signed) (
      put_given (text "expectedTargetService") (text_json expected_target_service)
        (dict ((text "signedVP", vp) ∷ [])))

unfoldable pub sign_body : Text → Option Text → Members
unfolding put_given
sign_body target_service user_did =
    put_given (text "userDid") (text_json user_did)
      (dict ((text "targetService", str target_service) ∷ []))

unfoldable pub delegate_body : Text → List Text → ℤ → Option Text → Bool → Members
unfolding put put_given
delegate_body to scopes expires_in vc_id revoke_existing =
    put_flag (text "revokeExisting") revoke_existing (
      put_given (text "vcId") (text_json vc_id) (
        dict (
          (text "to", str to)
          ∷ (text "scopes", arr (texts scopes))
          ∷ (text "expiresIn", int expires_in)
          ∷ [])))

-- `"custodial-agents" if self._api_key else "agents"`
unfoldable pub agent_route : HelixClient → Text
agent_route c = if is_set c.api_key then text "custodial-agents" else text "agents"

module _ (env : Env) (c : HelixClient) where
  unfoldable pub verify_vp : Json → Option Text → Option Bool → Action Json
  verify_vp vp expected_target_service allow_self_signed =
      api_post env c (text "/v1/vp/verify")
        (some (obj (verify_body vp expected_target_service allow_self_signed)))

  unfoldable pub fetch_session_public_key : Action Json
  fetch_session_public_key = do
    response ← api_get env c (text "/v1/sessions/public-key")
    lift (subscript (text "publicKeyHex") response)

  unfoldable pub onboard_agent : Text → Option (List Text) → Action Json
  onboard_agent enrollment_token domains = do
    lift (assert_api_configured c)
    api_post env c (text "/v1/onboard") (
        some (
          obj (
            dict (
              (text "enrollmentToken", str enrollment_token)
              ∷ (text "domains", texts_or_empty domains)
              ∷ []))))

  unfoldable pub sign_vp : Text → Text → Option Text → Action Json
  sign_vp did target_service user_did = do
    lift (assert_api_configured c)
    result ←
        api_post env c (text "/v1/" ++ agent_route c ++ b'/' ∷ quote did ++ text "/vp")
          (some (obj (sign_body target_service user_did)))
    lift (subscript (text "signedVP") result)

  unfoldable pub delegate_authority : Text → Text → List Text → ℤ → Option Text → Bool → Action Json
  delegate_authority did to scopes expires_in vc_id revoke_existing = do
    lift (assert_api_configured c)
    result ←
        api_post env c (text "/v1/" ++ agent_route c ++ b'/' ∷ quote did ++ text "/delegate")
          (some (obj (delegate_body to scopes expires_in vc_id revoke_existing)))
    lift (subscript (text "delegatedVC") result)

  unfoldable pub request_user_challenge : Text → Action Json
  request_user_challenge user_did = api_post env c (text "/v1/challenges") (
      some (
        obj (
          dict
            ((text "did", str user_did) ∷ (text "purpose", str (text "user_verification")) ∷ []))))

  unfoldable pub verify_user_challenge : Text → Text → Action Json
  verify_user_challenge challenge_id signature =
      api_post env c (text "/v1/challenges/" ++ quote challenge_id ++ text "/verify")
        (some (obj (dict ((text "signature", str signature) ∷ []))))
