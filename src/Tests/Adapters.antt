-- ===== src/Tests/Adapters.antt =====
-- Wrapped tools and their filters on concrete tools.
use helix_sdk_py.Tools.{get_agent_scopes}
use helix_sdk_py.Base.{
  Bool, List, [], false, if◌then◌else◌, inl, inr, keep, map, none, refl, some, true, ◌∷◌, ◌≡◌,
}
use helix_sdk_py.Client.{
  api_get, api_post, assert_api_configured, helix_client, http_required, resolve_base_url,
}
use helix_sdk_py.Client.Agents.{sign_vp}
use helix_sdk_py.Client.Credentials.{list_vcs}
use helix_sdk_py.Errors.{builtin, ok, raised, subscript}
use helix_sdk_py.Http.{Log, http_get, http_post, read_response, request}
use helix_sdk_py.Json.{
  Json, Members, arr, cons, end, get, member, nil, null, obj, str, texts, truthy,
}
use helix_sdk_py.Json.Loads.{json_loads_octets}
use helix_sdk_py.Tests.{agent_credential, agent_credential-HavePlain, answering, api_client}
use helix_sdk_py.Text.{Text, text, text_eq}
use helix_sdk_py.Tools.{
  Headers, Tool, active_scopes, current_helix_vp_headers, filter_crewai_tools_by_scope,
  filter_tools_by_scope, langchain_scope,
}
use helix_sdk_py.Tools.Context.{Wrapping, run-carries_vp, run_all, run_all-restores, wrapped}
use helix_sdk_py.Tools.Filter.{filter_tools_by_scope-wrapped, filters-may_use, may_use}
use helix_sdk_py.VpTransport.{read_helix_vp_header}
use helix_sdk_py.VpTransport.Carries.{headers_value}
use helix_sdk_py.VpTransport.Reads.{json_loads_octets-wire}

abbrev no_attribute : Text → Json
no_attribute k = null

-- A tool that clears the headers and fails.
abbrev rude_tool : Tool
rude_tool = record {
  name = text "rude";
  description = text "clears the headers";
  args_schema = null;
  attribute = no_attribute;
  run = λ args headers log. (raised (builtin (text "RuntimeError") (text "rude")), [], log);
}

-- A tool that asks for a scope, and answers with its arguments.
abbrev orders_tool : Tool
orders_tool = record {
  name = text "orders";
  description = text "reads orders";
  args_schema = null;
  attribute = λ k. if text_eq k (text "required_scope") then str (text "read:orders") else null;
  run = λ args headers log. (ok args, headers, log);
}

abbrev wrapping_of : Bool → Tool → Wrapping
wrapping_of by_crewai tool = record {
  by_crewai = by_crewai;
  tool = tool;
  client = api_client;
  agent_did = text "did:a";
  target_service = text "did:s";
  user_did = none;
}

abbrev signing_answer : Json
signing_answer = obj (member (text "signedVP") (obj agent_credential) end)

abbrev earlier : Headers
earlier = (text "X-Helix-VP", text "e30") ∷ []

run_all-restores_example :
    (run_all no_attribute
      (answering 200 signing_answer)
      ((wrapping_of true rude_tool, null) ∷ (wrapping_of false orders_tool, null) ∷ [])
      earlier
      []).1
    ≡ earlier
run_all-restores_example =
    run_all-restores no_attribute (answering 200 signing_answer)
      ((wrapping_of true rude_tool, null) ∷ (wrapping_of false orders_tool, null) ∷ []) earlier []

abbrev after_signing : Log
after_signing =
    (sign_vp (answering 200 signing_answer) api_client (text "did:a") (text "did:s") none []).1

run-carries_vp_example :
    (inner : Headers) × ((wrapped no_attribute
          (answering 200 signing_answer)
          (wrapping_of false orders_tool)).run
        (str (text "all"))
        earlier
        []
      ≡ (ok (str (text "all")), earlier, after_signing))
    × (read_helix_vp_header json_loads_octets (obj (headers_value inner))
        ≡ ok (some agent_credential))
    × (current_helix_vp_headers inner after_signing ≡ (ok inner, inner, after_signing))
unfolding sign_vp api_post helix_client resolve_base_url http_required assert_api_configured
    http_post request read_response subscript get text_eq
run-carries_vp_example =
    run-carries_vp no_attribute (answering 200 signing_answer) json_loads_octets
      (wrapping_of false orders_tool) (str (text "all")) agent_credential earlier [] after_signing
      refl (json_loads_octets-wire (obj agent_credential) agent_credential-HavePlain)

abbrev vc_with_scopes : Members
vc_with_scopes = member (text "scopes") (arr (texts (text "read:orders" ∷ []))) end

abbrev listing_answer : Json
listing_answer = arr (cons (obj vc_with_scopes) nil)

abbrev after_listing : Log
after_listing =
    (list_vcs (answering 200 listing_answer) api_client (some (text "did:a")) (some (text "active"))
      none []).1

abbrev two_tools : List Tool
two_tools = orders_tool ∷ rude_tool ∷ []

filters-may_use_example :
    (filter_tools_by_scope (answering 200 listing_answer) two_tools api_client (text "did:a") []
      ≡ (ok (keep (may_use (text "read:orders" ∷ []) langchain_scope) two_tools), after_listing))
    × (filter_crewai_tools_by_scope
          (answering 200 listing_answer)
          two_tools
          api_client
          (text "did:a")
          []
        ≡ (
          ok (
              keep
                (may_use (text "read:orders" ∷ []) (λ tool. tool.attribute (text "required_scope")))
                two_tools),
          after_listing,
        ))
unfolding list_vcs api_get helix_client resolve_base_url http_required http_get request
    read_response get text_eq langchain_scope
filters-may_use_example =
    filters-may_use (answering 200 listing_answer) two_tools api_client (text "did:a")
      vc_with_scopes nil (text "read:orders" ∷ []) [] after_listing refl refl
      (inl refl, (inr refl, tt)) (inl refl, (inr refl, tt))

filter_tools_by_scope-wrapped_example :
    filter_tools_by_scope
      (answering 200 listing_answer)
      (map
        (wrapped no_attribute (answering 200 listing_answer))
        (wrapping_of false orders_tool ∷ []))
      api_client
      (text "did:a")
      []
    ≡ (
      ok (
          map
            (wrapped no_attribute (answering 200 listing_answer))
            (wrapping_of false orders_tool ∷ [])),
      after_listing,
    )
unfolding get_agent_scopes list_vcs api_get helix_client active_scopes truthy get
filter_tools_by_scope-wrapped_example =
    filter_tools_by_scope-wrapped no_attribute (answering 200 listing_answer)
      (wrapping_of false orders_tool ∷ []) api_client (text "did:a")
      (arr (texts (text "read:orders" ∷ []))) [] after_listing refl refl refl
