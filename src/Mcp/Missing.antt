-- ===== src/Mcp/Missing.antt =====
-- Where the middleware looks for a VP, and a tool call that has none.
use helix_sdk_py.Base.{Option, [], ap, false, none, refl, some, true, ℕ, ◌∙◌, ◌∷◌, ◌≡◌}
use helix_sdk_py.Errors.{Result, helix, ok, raised}
use helix_sdk_py.Errors.Mapping.{get_or_default}
use helix_sdk_py.Errors.Mapping.Status.{get_or_default-none, get_or_default-some}
use helix_sdk_py.Errors.Presentation.{vp_missing_error}
use helix_sdk_py.Http.{Env, Log}
use helix_sdk_py.Json.{Json, Members, end, get, member, null, obj, str, truthy}
use helix_sdk_py.Keys.{lower}
use helix_sdk_py.Mcp.{McpMiddlewareOptions, carried_from, carried_vp, middleware}
use helix_sdk_py.Text.{Text, text, text_eq}
use helix_sdk_py.VpTransport.{
  Loads, as_some, decode_helix_vp, decode_if_given, decode_meta, first_of_list, header_value,
  helix_vp_meta_key, read_helix_vp_header, read_helix_vp_meta,
}

-- A `_meta` without a VP: None, or a dict with nothing under the key of the VP, or None, or "".
pub data HasNoVp : Json → Type 0 where
  no_meta : HasNoVp null
  no_key : (ms : Members) → get helix_vp_meta_key ms ≡ none → HasNoVp (obj ms)
  none_at_key : (ms : Members) → get helix_vp_meta_key ms ≡ some null → HasNoVp (obj ms)
  empty_at_key : (ms : Members) → get helix_vp_meta_key ms ≡ some (str []) → HasNoVp (obj ms)

-- The text that headers send a VP as: that of the first header named X-Helix-VP, in any case, if it
-- is not empty.
pub data SendsText : Json → Option Text → Type 0 where
  no_headers : SendsText null none
  no_more : SendsText (obj end) none
  here :
      (k : Text) (c : ℕ) (s : Text) (ms : Members)
      → text_eq (lower k) (text "x-helix-vp") ≡ true
      → SendsText (obj (member k (str (c ∷ s)) ms)) (some (c ∷ s))
  empty_here :
      (k : Text) (ms : Members)
      → text_eq (lower k) (text "x-helix-vp") ≡ true
      → SendsText (obj (member k (str []) ms)) none
  there :
      (k : Text) (v : Json) (ms : Members) {sent : Option Text}
      → text_eq (lower k) (text "x-helix-vp") ≡ false
      → SendsText (obj ms) sent
      → SendsText (obj (member k v ms)) sent

-- The VP of a tool call whose headers send it as a text, or do not.
abbrev pub text_vp : Loads → Option Text → Result (Option Members)
text_vp loads none = ok none
text_vp loads (some s) = as_some (decode_helix_vp loads s)

-- What a tool call without a VP in `_meta` comes to: with no VP in its headers either it raises
-- VPMissingError and sends nothing, else its VP is the one in its headers.
unfoldable pub MissesOrSends :
    Env → Loads → McpMiddlewareOptions → Members → Log → Option Text → Type 0
MissesOrSends env loads o tool_call log none =
    middleware env loads o tool_call log ≡ (raised (helix (vp_missing_error none)), log)
MissesOrSends env loads o tool_call log (some s) =
    carried_vp loads tool_call ≡ as_some (decode_helix_vp loads s)

read_helix_vp_meta-HasNoVp :
    (loads : Loads) (meta : Json) → HasNoVp meta → read_helix_vp_meta loads meta ≡ ok none
unfolding read_helix_vp_meta decode_meta truthy
read_helix_vp_meta-HasNoVp loads _ no_meta = refl
read_helix_vp_meta-HasNoVp loads _ (no_key ms e) =
    ap (decode_meta loads) (get_or_default-none helix_vp_meta_key null ms e)
read_helix_vp_meta-HasNoVp loads _ (none_at_key ms e) =
    ap (decode_meta loads) (get_or_default-some helix_vp_meta_key null ms null e)
read_helix_vp_meta-HasNoVp loads _ (empty_at_key ms e) =
    ap (decode_meta loads) (get_or_default-some helix_vp_meta_key null ms (str []) e)

header_value-here :
    (k : Text) (v : Json) (ms : Members)
    → text_eq (lower k) helix_vp_meta_key ≡ true
    → header_value (member k v ms) ≡ v
unfolding header_value
header_value-here k v ms e = rw (header_value, e) refl

header_value-there :
    (k : Text) (v : Json) (ms : Members)
    → text_eq (lower k) helix_vp_meta_key ≡ false
    → header_value (member k v ms) ≡ header_value ms
unfolding header_value
header_value-there k v ms e = rw (header_value, e) refl

decode_value : Loads → Json → Result (Option Members)
unfolding decode_if_given
decode_value loads v = decode_if_given loads (first_of_list v)

read_helix_vp_header-SendsText :
    (loads : Loads) (headers : Json) (sent : Option Text)
    → SendsText headers sent
    → read_helix_vp_header loads headers ≡ text_vp loads sent
unfolding read_helix_vp_header decode_value decode_if_given header_value truthy
read_helix_vp_header-SendsText loads _ _ no_headers = refl
read_helix_vp_header-SendsText loads _ _ no_more = refl
read_helix_vp_header-SendsText loads _ _ (here k c s ms e) =
    ap (decode_value loads) (header_value-here k (str (c ∷ s)) ms e)
read_helix_vp_header-SendsText loads _ _ (empty_here k ms e) =
    ap (decode_value loads) (header_value-here k (str []) ms e)
read_helix_vp_header-SendsText loads _ _ (there k v ms e h) =
    ap (decode_value loads) (header_value-there k v ms e)
    ∙ read_helix_vp_header-SendsText loads (obj ms) _ h

carried_vp-text_vp :
    (loads : Loads) (tool_call : Members) (sent : Option Text)
    → HasNoVp (get_or_default (text "_meta") null tool_call)
    → SendsText (get_or_default (text "headers") null tool_call) sent
    → carried_vp loads tool_call ≡ text_vp loads sent
unfolding carried_vp carried_from
carried_vp-text_vp loads tool_call sent h k =
    rw (carried_vp, carried_from, read_helix_vp_meta-HasNoVp loads _ h)
      (read_helix_vp_header-SendsText loads _ sent k)

-- A tool call without a VP in `_meta` is read from its headers, which are None or a dict whose first
-- header named X-Helix-VP, in any case, is a text if there is one: with none, or an empty text, the
-- call raises VPMissingError and nothing is sent; with any other text its VP is that text decoded.
pub middleware-missing :
    (env : Env) (loads : Loads) (o : McpMiddlewareOptions) (tool_call : Members)
    (sent : Option Text) (log : Log)
    → HasNoVp (get_or_default (text "_meta") null tool_call)
    → SendsText (get_or_default (text "headers") null tool_call) sent
    → MissesOrSends env loads o tool_call log sent
unfolding middleware MissesOrSends
middleware-missing env loads o tool_call none log h k =
    rw (middleware, carried_vp-text_vp loads tool_call none h k) refl
middleware-missing env loads o tool_call (some s) log h k =
    carried_vp-text_vp loads tool_call (some s) h k
