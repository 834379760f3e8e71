-- ===== src/Mcp/Attach.antt =====
-- The VP that a client attaches is the one that the middleware reads.
use helix_sdk_py.Base.{
  Bool, Bool-cases, [], arith, if◌then◌else◌, inl, inr, not, refl, some, true, ◌∷◌, ◌≡◌,
}
use helix_sdk_py.Base58.Digits.{value}
use helix_sdk_py.Client.Agents.{sign_vp}
use helix_sdk_py.Errors.{ok}
use helix_sdk_py.Errors.Mapping.{get_or_default}
use helix_sdk_py.Http.{Env, Log}
use helix_sdk_py.Json.{
  Json, Members, arr, bool, end, get, get-put, int, member, null, obj, put, str, truthy,
}
use helix_sdk_py.Json.Loads.{signed}
use helix_sdk_py.Mcp.{
  AttachHelixVpOptions, attach_helix_vp, build_signed_vp, carried_from, carried_vp, is_given,
  meta_with,
}
use helix_sdk_py.Text.{Text, nonempty, text, text_eq}
use helix_sdk_py.VpTransport.{
  Loads, as_some, decode_helix_vp, decode_meta, encode_helix_vp, helix_vp_meta_key,
  read_helix_vp_meta,
}
use helix_sdk_py.VpTransport.Carries.{decode_helix_vp-encode, encode-nonempty, wire}

-- A `_meta` that can be extended: a dict, or a value that is false.
unfoldable pub is_meta : Json → Bool
unfolding truthy
is_meta (obj meta) = true
is_meta v = not (truthy v)

meta_with-ok :
    (meta : Json) (value : Text)
    → is_meta meta ≡ true
    → (ms : Members) × (meta_with meta value ≡ ok (obj ms))
      × (get helix_vp_meta_key ms ≡ some (str value))
unfolding is_meta meta_with get text_eq
meta_with-ok (obj meta) value h = (
  put helix_vp_meta_key (str value) meta,
  refl,
  get-put helix_vp_meta_key helix_vp_meta_key (str value) meta,
)
meta_with-ok null value h = (member helix_vp_meta_key (str value) end, refl, refl)
meta_with-ok (bool b) value h = (member helix_vp_meta_key (str value) end, ground arith, refl)
meta_with-ok (int n) value h = (member helix_vp_meta_key (str value) end, ground arith, refl)
meta_with-ok (str s) value h = (member helix_vp_meta_key (str value) end, ground arith, refl)
meta_with-ok (arr vs) value h = (member helix_vp_meta_key (str value) end, ground arith, refl)

decode_meta-str :
    (loads : Loads) (s : Text)
    → nonempty s ≡ true
    → decode_meta loads (str s) ≡ as_some (decode_helix_vp loads s)
unfolding decode_meta
decode_meta-str loads [] h = absurd (cc h)
decode_meta-str loads (c ∷ s) h = refl

carried-attached :
    (loads : Loads) (tool_call ms vp : Members)
    → get helix_vp_meta_key ms ≡ some (str (encode_helix_vp (obj vp)))
    → loads (wire (obj vp)) ≡ some (obj vp)
    → is_given (some vp) ≡ true
    → carried_vp loads (put (text "_meta") (obj ms) tool_call) ≡ ok (some vp)
unfolding carried_vp carried_from read_helix_vp_meta text_eq decode_meta
carried-attached loads tool_call ms vp found reads has_members = rw (
  carried_vp,
  get-put (text "_meta") (text "_meta") (obj ms) tool_call,
  carried_from,
  read_helix_vp_meta,
  found,
  decode_meta-str loads (encode_helix_vp (obj vp)) (encode-nonempty vp),
  decode_helix_vp-encode loads vp reads,
  has_members,
)

other_key :
    (k : Text) (v : Json) (d : Members)
    → (if text_eq (text "_meta") k then get k d else get k (put (text "_meta") v d)) ≡ get k d
other_key k v d = elim (Bool-cases (text_eq (text "_meta") k)) [
  | inl this ↦ rw this refl
  | inr other ↦ rw (other, get-put k (text "_meta") v d, other) refl
]

-- Attaching a VP that the API signed, to a call whose `_meta` is a dict or absent, gives a call from
-- which the middleware reads that VP, if `json.loads` reads what `json.dumps` wrote; every other key
-- of the call is as it was.
pub attach_helix_vp-carried :
    (env : Env) (loads : Loads) (tool_call vp : Members) (o : AttachHelixVpOptions) (k : Text)
    (log log' : Log)
    → sign_vp env o.client o.agent_did o.target_service o.user_did log ≡ (ok (obj vp), log')
    → is_given (some vp) ≡ true
    → is_meta (get_or_default (text "_meta") null tool_call) ≡ true
    → loads (wire (obj vp)) ≡ some (obj vp)
    → (attached : Members) × (attach_helix_vp env tool_call o log ≡ (ok attached, log'))
      × (carried_vp loads attached ≡ ok (some vp))
      × ((if text_eq (text "_meta") k then get k tool_call else get k attached) ≡ get k tool_call)
unfolding attach_helix_vp build_signed_vp
attach_helix_vp-carried env loads tool_call vp o k log log' signed has_members is_meta_there reads =
    let (ms, extended, found) =
      meta_with-ok (get_or_default (text "_meta") null tool_call) (encode_helix_vp (obj vp))
        is_meta_there in
    (
      put (text "_meta") (obj ms) tool_call,
      rw (attach_helix_vp, build_signed_vp, signed, extended),
      carried-attached loads tool_call ms vp found reads has_members,
      other_key k (obj ms) tool_call,
    )
