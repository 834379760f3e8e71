-- ===== src/Tools.antt =====
-- src/helix_sdk/tool_vp.py, src/helix_langchain and src/helix_crewai: tools that are run with a
-- signed VP, and the choice of tools by scope.
pub mod Context
pub mod Filter
use helix_sdk_py.Http.{◌>>=◌}
use helix_sdk_py.Errors
use helix_sdk_py.Base.{Bool, List, Option, [], false, if◌then◌else◌, none, some, true, ◌||◌, ◌∷◌}
use helix_sdk_py.Base58.Digits.{value}
use helix_sdk_py.Base64.{b64url_encode}
use helix_sdk_py.Client.{HelixClient, json_or}
use helix_sdk_py.Client.Credentials.{list_vcs}
use helix_sdk_py.Errors.{Result, builtin, filtered, ok, raised}
use helix_sdk_py.Errors.Mapping.{get_or_default}
use helix_sdk_py.Http.{Action, Env, Log, lift}
use helix_sdk_py.Http.Url.{utf8_encode}
use helix_sdk_py.Json.{Items, Json, arr, cons, nil, null, obj, str, truthy}
use helix_sdk_py.Json.Compare.{json_eq}
use helix_sdk_py.Json.Dumps.{dumps}
use helix_sdk_py.Mcp.{build_signed_vp}
use helix_sdk_py.Scope.{contains}
use helix_sdk_py.Text.{Text, text}
use helix_sdk_py.VpTransport.{default_format, helix_vp_headers}

-- A dict of headers.
abbrev pub Headers : Type 0
Headers = List (Text × Text)

-- A call that may read and set `_current_vp_headers`, send requests and raise.
abbrev pub InContext : Type 0 → Type 0
InContext A = Headers → Log → Result A × Headers × Log

-- A tool of a framework: `getattr(tool, k, None)` of its other attributes, with `null` for None, and
-- `_run` with the arguments in one value.
pub record Tool : Type 0 where
  pub name : Text
  pub description : Text
  pub args_schema : Json
  pub attribute : Text → Json
  pub run : Json → InContext Json

-- `with helix_vp_context(vp): return body`. What was set before is set again, however it ends.
unfoldable pub helix_vp_context : {A : Type 0} → Json → InContext A → InContext A
helix_vp_context vp body headers log =
    let (result, inner, log') = body (helix_vp_headers vp) log in (result, headers, log')

unfoldable pub current_helix_vp_headers : InContext Headers
current_helix_vp_headers headers log = (ok headers, headers, log)

-- The tool is run with what was signed, if anything was.
abbrev pub delegated : Tool → Json → Headers → Result Json × Log → Result Json × Headers × Log
delegated tool args headers (raised e, log) = (raised e, headers, log)
delegated tool args headers (ok vp, log) = helix_vp_context vp (tool.run args) headers log

-- `_run` of a wrapped tool.
unfoldable pub run_wrapped :
    Env → HelixClient → Text → Text → Option Text → Tool → Json → InContext Json
run_wrapped env c agent_did target_service user_did tool args headers log =
    delegated tool args headers (build_signed_vp env c agent_did target_service user_did log)

-- The attributes that `BaseTool` gives to a tool that is made of a name, a description and a schema
-- are an argument.
module _ (base_attribute : Text → Json) (env : Env) where
  unfoldable pub helix_id_tool_wrapper : Tool → HelixClient → Text → Text → Option Text → Tool
  helix_id_tool_wrapper tool c agent_did target_service user_did = record {
    name = tool.name;
    description = tool.description;
    args_schema = tool.args_schema;
    attribute = base_attribute;
    run = run_wrapped env c agent_did target_service user_did tool;
  }

  unfoldable pub helix_id_crewai_tool : Tool → HelixClient → Text → Text → Option Text → Tool
  helix_id_crewai_tool tool c agent_did target_service user_did = record {
    name = tool.name;
    description = tool.description;
    args_schema = tool.args_schema;
    attribute = base_attribute;
    run = run_wrapped env c agent_did target_service user_did tool;
  }

-- `active_vcs[0]` of a value that is true.
unfoldable pub first_vc : Json → Result Json
first_vc (arr (cons v vs)) = ok v
first_vc (str (c ∷ s)) = ok (str (c ∷ []))
first_vc (obj ms) = raised (builtin (text "KeyError") (text "0"))
first_vc v = raised (builtin (text "TypeError") (text "object is not subscriptable"))

-- `v.get("scopes", [])`
abbrev pub scopes_of : Json → Result Json
scopes_of (obj ms) = ok (get_or_default (text "scopes") (arr nil) ms)
scopes_of v = raised (builtin (text "AttributeError") (text "get"))

unfoldable pub active_scopes : Json → Result Json
unfolding first_vc
active_scopes active_vcs =
    if truthy active_vcs
    then Errors.◌>>=◌ (first_vc active_vcs) scopes_of
    else raised (
        builtin (text "RuntimeError")
          (text "No active credential for this agent. Run onboarding first."))

unfoldable pub get_agent_scopes : Env → HelixClient → Text → Action Json
get_agent_scopes env c agent_did = do
  active_vcs ← list_vcs env c (some agent_did) (some (text "active")) none
  lift (active_scopes active_vcs)

unfoldable pub encode_base64url_json : Json → Text
encode_base64url_json value = b64url_encode (utf8_encode (dumps default_format value))

unfoldable pub encode_base64url_json_public : Json → Text
encode_base64url_json_public value = encode_base64url_json value

-- `v == x` for an item of a list.
abbrev value_in : Json → Items → Bool
value_in v nil = false
value_in v (cons x xs) = json_eq x v || value_in v xs

-- `v in w`, for a `v` that is true.
unfoldable pub contains_value : Json → Json → Result Bool
unfolding contains
contains_value v (arr xs) = ok (value_in v xs)
contains_value (str s) w = contains s w
contains_value (arr vs) (obj ms) = raised (builtin (text "TypeError") (text "unhashable type"))
contains_value (obj vs) (obj ms) = raised (builtin (text "TypeError") (text "unhashable type"))
contains_value v (obj ms) = ok false
contains_value v (str t) =
    raised (builtin (text "TypeError") (text "'in <string>' requires string as left operand"))
contains_value v w = raised (builtin (text "TypeError") (text "argument is not iterable"))

-- `required_scope in scopes or name in scopes`, and true without a required scope.
unfoldable pub is_granted : Json → Tool → Json → Result Bool
unfolding contains_value
is_granted scopes tool required_scope =
    if truthy required_scope
    then Errors.◌>>=◌ (contains_value required_scope scopes)
        (λ granted. if granted then ok true else contains_value (str tool.name) scopes)
    else ok true

-- The two keys of a `metadata` that is a dict.
abbrev metadata_scope : Json → Json
metadata_scope (obj metadata) =
    json_or (get_or_default (text "requiredScope") null metadata)
      (get_or_default (text "required_scope") null metadata)
metadata_scope v = null

-- The first of two that is not None.
abbrev unless_none : Json → Json → Json
unless_none null w = w
unless_none v w = v

unfoldable pub langchain_scope : Tool → Json
langchain_scope tool =
    unless_none (metadata_scope (tool.attribute (text "metadata")))
      (tool.attribute (text "required_scope"))

module _ (env : Env) (tools : List Tool) (c : HelixClient) (agent_did : Text) where
  unfoldable pub filter_tools_by_scope : Action (List Tool)
  filter_tools_by_scope = do
    scopes ← get_agent_scopes env c agent_did
    lift (filtered (λ tool. is_granted scopes tool (langchain_scope tool)) tools)

  unfoldable pub filter_crewai_tools_by_scope : Action (List Tool)
  filter_crewai_tools_by_scope = do
    scopes ← get_agent_scopes env c agent_did
    lift (filtered (λ tool. is_granted scopes tool (tool.attribute (text "required_scope"))) tools)
