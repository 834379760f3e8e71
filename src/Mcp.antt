-- ===== src/Mcp.antt =====
-- src/helix_mcp_middleware: the check of a tool call, and the VP that a client attaches to one.
pub mod Guard
pub mod Missing
pub mod Attach
use helix_sdk_py.Http.{◌>>=◌, ◌>>◌}
use helix_sdk_py.Base.{Bool, List, Option, [], false, if◌then◌else◌, none, some, true, ◌∷◌}
use helix_sdk_py.Base58.Digits.{value}
use helix_sdk_py.Client.{HelixClient}
use helix_sdk_py.Client.Agents.{sign_vp, verify_vp}
use helix_sdk_py.Errors.{Exception, Result, builtin, helix, ok, raised}
use helix_sdk_py.Errors.Mapping.{get_or_default}
use helix_sdk_py.Errors.Presentation.{vp_missing_error, vp_verification_failed_error}
use helix_sdk_py.Http.{Action, Env, lift, pure}
use helix_sdk_py.Json.{Json, Members, end, member, null, obj, put, str, truthy}
use helix_sdk_py.Scope.{require_scope}
use helix_sdk_py.Text.{Text, text}
use helix_sdk_py.VpTransport.{
  Loads, encode_helix_vp, helix_vp_meta_key, read_helix_vp_header, read_helix_vp_meta,
}

pub record McpMiddlewareOptions : Type 0 where
  pub client : HelixClient
  pub required_scopes : List Text
  pub allow_self_signed : Bool
  pub expected_target_service : Option Text

pub record AttachHelixVpOptions : Type 0 where
  pub client : HelixClient
  pub agent_did : Text
  pub target_service : Text
  pub user_did : Option Text

-- `a or b` of what the two readers return: an empty dict counts as none.
abbrev pub is_given : Option Members → Bool
is_given none = false
is_given (some end) = false
is_given (some (member k v ms)) = true

-- The VP in `_meta`, or else in the headers, given the values of both keys.
unfoldable pub carried_from : Loads → Json → Json → Result (Option Members)
carried_from loads meta headers = elim (read_helix_vp_meta loads meta) [
  | raised e ↦ raised e
  | ok meta_vp ↦ if is_given meta_vp then ok meta_vp else read_helix_vp_header loads headers
]

unfoldable pub carried_vp : Loads → Members → Result (Option Members)
carried_vp loads tool_call =
    carried_from loads (get_or_default (text "_meta") null tool_call)
      (get_or_default (text "headers") null tool_call)

-- `if not vp: raise VPMissingError()`
abbrev require_vp : Option Members → Result Members
require_vp (some (member k v ms)) = ok (member k v ms)
require_vp _ = raised (helix (vp_missing_error none))

-- `raise VPVerificationFailedError(error_message) if error_message else VPVerificationFailedError()`
abbrev verification_failed : Json → Exception
verification_failed error_message =
    helix (vp_verification_failed_error (if truthy error_message then some error_message else none))

-- `if not result.get("valid"): …`
unfoldable pub require_valid : Json → Result (Unit {0})
require_valid (obj result) =
    if truthy (get_or_default (text "valid") null result)
    then ok tt
    else raised (verification_failed (get_or_default (text "error") null result))
require_valid result = raised (builtin (text "AttributeError") (text "get"))

-- `for scope in options.required_scopes: require_scope(result, scope)`
unfoldable pub require_scopes : (Json → Text) → Json → List Text → Result (Unit {0})
require_scopes show result [] = ok tt
require_scopes show result (s ∷ ss) = elim (require_scope show result s) [
  | ok _ ↦ require_scopes show result ss
  | raised e ↦ raised e
]

-- The middleware that `helixid_mcp_middleware(options)` returns.
unfoldable pub middleware : Env → Loads → McpMiddlewareOptions → Members → Action Members
middleware env loads o tool_call = do
  found ← lift (carried_vp loads tool_call)
  vp ← lift (require_vp found)
  result ← verify_vp env o.client (obj vp) o.expected_target_service (some o.allow_self_signed)
  lift (require_valid result)
  lift (require_scopes env.show result o.required_scopes)
  pure tool_call

-- `build_signed_vp`, src/helix_sdk/tool_vp.py.
unfoldable pub build_signed_vp : Env → HelixClient → Text → Text → Option Text → Action Json
build_signed_vp env c agent_did target_service user_did =
    sign_vp env c agent_did target_service user_did

-- `{**(meta or {}), HELIX_VP_META_KEY: value}`; only a dict can be unpacked.
unfoldable pub meta_with : Json → Text → Result Json
meta_with (obj meta) value = ok (obj (put helix_vp_meta_key (str value) meta))
meta_with meta value =
    if truthy meta
    then raised (builtin (text "TypeError") (text "object is not a mapping"))
    else ok (obj (member helix_vp_meta_key (str value) end))

unfoldable pub attach_helix_vp : Env → Members → AttachHelixVpOptions → Action Members
attach_helix_vp env tool_call o = do
  vp ← build_signed_vp env o.client o.agent_did o.target_service o.user_did
  meta ← lift (meta_with (get_or_default (text "_meta") null tool_call) (encode_helix_vp vp))
  pure (put (text "_meta") meta tool_call)
