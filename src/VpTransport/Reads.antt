-- ===== src/VpTransport/Reads.antt =====
-- A VP is read back by `json.loads`, with nothing assumed of it.
use helix_sdk_py.Base.{[], all, arith, refl, some, true, ℕ, ◌∷◌, ◌≡◌}
use helix_sdk_py.Errors.{ok}
use helix_sdk_py.Http.Url.{utf8_encode}
use helix_sdk_py.Http.Url.Utf8.{is_scalar, utf8_decode-encode}
use helix_sdk_py.Json.{Json, Members, obj}
use helix_sdk_py.Json.Dumps.{Format, dumps}
use helix_sdk_py.Json.Dumps.Ascii.{IsAscii, dumps-ascii, escape_ascii-ascii}
use helix_sdk_py.Json.Loads.{json_loads_octets}
use helix_sdk_py.Json.Loads.Parsed.{HavePlain, IsPlain}
use helix_sdk_py.Json.Loads.RoundTrip.{IsReadable, ascii_format-IsReadable, json_loads-dumps}
use helix_sdk_py.Text.{Text}
use helix_sdk_py.VpTransport.{
  decode_helix_vp, default_format, encode_helix_vp, helix_vp_headers, read_helix_vp_header,
}
use helix_sdk_py.VpTransport.Carries.{decode_helix_vp-encode, headers_value, read-headers, wire}

ascii-scalars : (s : Text) → IsAscii s → all is_scalar s ≡ true
ascii-scalars [] h = refl
ascii-scalars (c ∷ s) (p, h) = ground (arith, ascii-scalars s h)

-- Octets of a readable format that writes ASCII only.
pub json_loads_octets-dumps :
    (f : Format)
    → IsReadable f
    → ((c : ℕ) → IsAscii (f.escape c))
    → IsAscii f.comma
    → IsAscii f.colon
    → (v : Json) → IsPlain v
    → json_loads_octets (utf8_encode (dumps f v)) ≡ some v
unfolding json_loads_octets
json_loads_octets-dumps f law escapes commas colons v h =
    let scalars : all is_scalar (dumps f v) ≡ true =
      ascii-scalars (dumps f v) (dumps-ascii f escapes commas colons v) in
    rw (json_loads_octets, utf8_decode-encode (dumps f v) scalars) (json_loads-dumps f law v h)

pub json_loads_octets-wire : (v : Json) → IsPlain v → json_loads_octets (wire v) ≡ some v
json_loads_octets-wire v h =
    json_loads_octets-dumps default_format ascii_format-IsReadable escape_ascii-ascii (omega arith)
      (omega arith) v h

-- A VP whose dicts have distinct keys and whose texts have no surrogates is decoded, by the reader
-- of JSON modelled here, from what it was encoded to, and is read from the header as well.
pub decode_helix_vp-encode_json :
    (vp : Members)
    → HavePlain vp
    → (decode_helix_vp json_loads_octets (encode_helix_vp (obj vp)) ≡ ok vp)
      × (read_helix_vp_header json_loads_octets (obj (headers_value (helix_vp_headers (obj vp))))
          ≡ ok (some vp))
decode_helix_vp-encode_json vp h = (
  decode_helix_vp-encode json_loads_octets vp (json_loads_octets-wire (obj vp) h),
  read-headers json_loads_octets vp (json_loads_octets-wire (obj vp) h),
)
