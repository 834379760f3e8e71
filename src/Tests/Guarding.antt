-- ===== src/Tests/Guarding.antt =====
-- The middleware on concrete tool calls.
use helix_sdk_py.Base.{[], false, if◌then◌else◌, none, refl, some, true, ◌∷◌, ◌≡◌}
use helix_sdk_py.Base64.{a2b, b64url_decode, padding, sextet, urlsafe_b64decode}
use helix_sdk_py.Client.{
  api_post, assert_api_configured, helix_client, http_required, put_given, resolve_base_url,
}
use helix_sdk_py.Client.Agents.{sign_vp, verify_body, verify_vp}
use helix_sdk_py.Errors.{ok, subscript}
use helix_sdk_py.Http.{
  Log, build_request, http_adapter, http_post, read_response, request, without_slash,
}
use helix_sdk_py.Json.{
  Json, Members, arr, bool, end, get, item_in, member, null, obj, str, texts, truthy,
}
use helix_sdk_py.Json.Loads.{json_loads_octets}
use helix_sdk_py.Keys.{is_whitespace, lower, strip, strip_left}
use helix_sdk_py.Mcp.{
  AttachHelixVpOptions, McpMiddlewareOptions, attach_helix_vp, carried_from, carried_vp, middleware,
  require_scopes, require_valid,
}
use helix_sdk_py.Mcp.Attach.{attach_helix_vp-carried, is_meta}
use helix_sdk_py.Mcp.Guard.{Passed, ended, middleware-Passed, middleware-reads_meta_and_headers}
use helix_sdk_py.Mcp.Missing.{MissesOrSends, empty_here, middleware-missing, no_meta, there}
use helix_sdk_py.Scope.{check_scope, contains, require_scope}
use helix_sdk_py.Tests.{agent_credential, agent_credential-HavePlain, answering, api_client}
use helix_sdk_py.Text.{drop_last, ends_with, text, text_eq}
use helix_sdk_py.VpTransport.{Loads, decode_helix_vp, decode_json, decode_meta, read_helix_vp_meta}
use helix_sdk_py.VpTransport.Reads.{json_loads_octets-wire}

abbrev loads_agent : Loads
loads_agent octets = some (obj agent_credential)

abbrev valid_result : Members
valid_result =
    member (text "valid") (bool true)
      (member (text "effectiveScopes") (arr (texts (text "read" ∷ []))) end)

abbrev options : McpMiddlewareOptions
options = record {
  client = api_client;
  required_scopes = text "read" ∷ [];
  allow_self_signed = false;
  expected_target_service = none;
}

abbrev call_with_vp : Members
call_with_vp = member (text "_meta") (obj (member (text "x-helix-vp") (str (text "e30")) end)) end

abbrev call_without_vp : Members
call_without_vp = member (text "name") (str (text "search")) end

abbrev passed_log : Log
passed_log = (middleware (answering 200 (obj valid_result)) loads_agent options call_with_vp []).1

middleware-Passed_example :
    (call_with_vp ≡ call_with_vp)
    × Passed (answering 200 (obj valid_result)) loads_agent options call_with_vp [] passed_log
unfolding middleware carried_vp carried_from read_helix_vp_meta get decode_meta decode_helix_vp
    decode_json b64url_decode urlsafe_b64decode strip padding a2b sextet verify_vp api_post
    helix_client resolve_base_url http_adapter without_slash http_required http_post request
    read_response build_request require_valid truthy require_scopes require_scope check_scope
    contains item_in text_eq texts verify_body put_given ends_with drop_last is_whitespace
    strip_left lower
middleware-Passed_example =
    middleware-Passed (answering 200 (obj valid_result)) loads_agent options call_with_vp
      call_with_vp [] passed_log refl

-- An empty header named X-HELIX-VP comes behind another header.
abbrev call_with_headers : Members
call_with_headers =
    member (text "headers")
      (obj (member (text "Host") (str (text "h")) (member (text "X-HELIX-VP") (str []) end))) end

middleware-missing_example :
    MissesOrSends (answering 200 null) loads_agent options call_with_headers [] none
unfolding get text_eq lower
middleware-missing_example =
    middleware-missing (answering 200 null) loads_agent options call_with_headers none [] no_meta
      (there (text "Host") (str (text "h")) _ refl (empty_here (text "X-HELIX-VP") end refl))

middleware-reads_meta_and_headers_example :
    ended (middleware (answering 200 null) loads_agent options call_without_vp [])
    ≡ ended (middleware (answering 200 null) loads_agent options end [])
unfolding get text_eq
middleware-reads_meta_and_headers_example =
    middleware-reads_meta_and_headers (answering 200 null) loads_agent options call_without_vp end
      [] refl refl

abbrev attach_options : AttachHelixVpOptions
attach_options = record {
  client = api_client;
  agent_did = text "did:a";
  target_service = text "did:s";
  user_did = none;
}

abbrev signing_answer : Json
signing_answer = obj (member (text "signedVP") (obj agent_credential) end)

attach_helix_vp-carried_example :
    (attached : Members) × (attach_helix_vp
        (answering 200 signing_answer)
        call_without_vp
        attach_options
        []
      ≡ (
        ok attached,
        (sign_vp (answering 200 signing_answer) api_client (text "did:a") (text "did:s") none []).1,
      ))
    × (carried_vp json_loads_octets attached ≡ ok (some agent_credential))
    × ((if text_eq (text "_meta") (text "name")
          then get (text "name") call_without_vp
          else get (text "name") attached)
        ≡ get (text "name") call_without_vp)
unfolding sign_vp api_post helix_client resolve_base_url http_required assert_api_configured
    http_post request read_response is_meta get text_eq truthy subscript
attach_helix_vp-carried_example =
    attach_helix_vp-carried (answering 200 signing_answer) json_loads_octets call_without_vp
      agent_credential attach_options (text "name") []
      (sign_vp (answering 200 signing_answer) api_client (text "did:a") (text "did:s") none []).1
      refl refl refl (json_loads_octets-wire (obj agent_credential) agent_credential-HavePlain)
