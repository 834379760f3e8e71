-- ===== src/Client.antt =====
-- src/helix_sdk/client.py: the state of a `HelixClient`, and how a method reaches the API. The
-- methods are in the children.
pub mod Dids
pub mod Credentials
pub mod Services
pub mod Agents
pub mod Calls
pub mod Modes
pub mod Sends
pub mod Paths
use helix_sdk_py.Http.{◌>>=◌, ◌>>◌}
use helix_sdk_py.Base.{
  Bool, List, Option, [], false, if◌then◌else◌, none, not, some, true, ◌&&◌, ◌||◌, ◌∷◌,
}
use helix_sdk_py.Errors.{Exception, Result, builtin, helix, ok, raised}
use helix_sdk_py.Errors.Credential.{sdk_only_mode_no_api_error}
use helix_sdk_py.Http.{
  Action, Env, HttpAdapter, http_adapter, http_delete, http_get, http_post, is_set, lift,
  without_slash,
}
use helix_sdk_py.Http.Url.{quote}
use helix_sdk_py.Json.{Json, Members, arr, bool, end, member, nil, put, str, texts, truthy}
use helix_sdk_py.Text.{Text, text}

abbrev pub default_enterprise_url : Text
default_enterprise_url = text "https://api.helixid.dev"

pub record HelixClient : Type 0 where
  pub sdk_only_mode : Bool
  pub api_audit_enabled : Bool
  pub base_url : Option Text
  pub api_key : Option Text
  pub http : Option HttpAdapter

unfoldable pub resolve_base_url : Option Text → Option Text → Option Text
resolve_base_url (some url) api_key = some url
resolve_base_url none api_key = if is_set api_key then some default_enterprise_url else none

abbrev is_none {ℓ} : {A : Type ℓ} → Option A → Bool
is_none none = true
is_none (some a) = false

-- `HelixClient.__init__(base_url, admin_api_key, api_key)`
unfoldable pub helix_client : Option Text → Option Text → Option Text → HelixClient
unfolding resolve_base_url without_slash http_adapter
helix_client base_url admin_api_key api_key =
    let resolved = resolve_base_url base_url api_key in
    record {
      sdk_only_mode = is_none resolved;
      api_audit_enabled = not (is_none resolved) && (is_set admin_api_key || is_set api_key);
      base_url = elim resolved [ none ↦ none | some url ↦ some (without_slash url) ];
      api_key = api_key;
      http = elim resolved [
        | none ↦ none
        | some url ↦ some (http_adapter url admin_api_key api_key 30)
      ];
    }

-- `SDKOnlyModeNoAPIError()`
abbrev pub sdk_only : Exception
sdk_only = helix (sdk_only_mode_no_api_error none)

unfoldable pub assert_api_configured : HelixClient → Result (Unit {0})
assert_api_configured c = if c.sdk_only_mode then raised sdk_only else ok tt

unfoldable pub http_required : HelixClient → Result HttpAdapter
unfolding assert_api_configured
http_required c =
    if c.sdk_only_mode
    then raised sdk_only
    else elim c.http [ none ↦ raised (builtin (text "AssertionError") []) | some a ↦ ok a ]

-- `self._http_required().get(path)`, and the same for `post` and `delete`.
unfoldable pub api_get : Env → HelixClient → Text → Action Json
unfolding http_required http_get
api_get env c path = do a ← lift (http_required c); http_get env a path

unfoldable pub api_post : Env → HelixClient → Text → Option Json → Action Json
unfolding http_required http_post
api_post env c path body = do a ← lift (http_required c); http_post env a path body

unfoldable pub api_delete : Env → HelixClient → Text → Action Json
unfolding http_required http_delete
api_delete env c path = do a ← lift (http_required c); http_delete env a path

-- A dict display.
abbrev pub dict : List (Text × Json) → Members
dict [] = end
dict ((k, v) ∷ kvs) = member k v (dict kvs)

-- `if v is not None: body[k] = v`
unfoldable pub put_given : Text → Option Json → Members → Members
unfolding put
put_given k none body = body
put_given k (some v) body = put k v body

-- `a or b` of values.
unfoldable pub json_or : Json → Json → Json
unfolding truthy
json_or a b = if truthy a then a else b

-- `xs or []` of an optional list of texts.
abbrev pub texts_or_empty : Option (List Text) → Json
texts_or_empty none = arr nil
texts_or_empty (some xs) = arr (texts xs)

abbrev pub text_json : Option Text → Option Json
text_json none = none
text_json (some s) = some (str s)

-- A value that `quote` takes as a text; any other raises TypeError.
unfoldable pub quote_json : Json → Result Text
unfolding quote
quote_json (str s) = ok (quote s)
quote_json v = raised (builtin (text "TypeError") (text "quote_from_bytes() expected bytes"))

abbrev pub flag_json : Option Bool → Option Json
flag_json none = none
flag_json (some b) = some (bool b)
