-- ===== src/VpTransport/Carries.antt =====
-- A VP that was encoded is read back, from the header or from `_meta`.
use helix_sdk_py.Base.{All, List, [], arith, not, refl, some, true, ℕ, ◌<◌, ◌∷◌, ◌≡◌}
use helix_sdk_py.Base64.{b64url_encode, letter}
use helix_sdk_py.Base64.Nonempty.{b64url_encode-nonempty}
use helix_sdk_py.Base64.RoundTrip.{b64url_decode-encode, b64url_encode-all}
use helix_sdk_py.Errors.{ok}
use helix_sdk_py.Http.Url.{utf8_encode}
use helix_sdk_py.Http.Url.Segment.{utf8_encode-IsByte, utf8_encode-ne}
use helix_sdk_py.Json.{Json, Members, end, member, obj, str}
use helix_sdk_py.Json.Dumps.{dumps}
use helix_sdk_py.Json.Dumps.Ascii.{IsAscii, dumps-ascii, escape_ascii-ascii}
use helix_sdk_py.Keys.{is_whitespace, lower}
use helix_sdk_py.Keys.PrivateKey.{strip-no_space}
use helix_sdk_py.Text.{Bytes, Text, nonempty, text_eq}
use helix_sdk_py.Text.Hex.{IsByte}
use helix_sdk_py.VpTransport.{
  Loads, as_some, decode_helix_vp, decode_if_given, decode_json, default_format, encode_helix_vp,
  header_value, helix_vp_headers, read_helix_vp_header,
}

letter-no_space : (v : ℕ) → v < 64 → not (is_whitespace (letter v)) ≡ true
unfolding letter is_whitespace
letter-no_space v h = ground arith

pub ascii-IsByte : (s : Text) → IsAscii s → All (λ c. c < 0x110000) s
ascii-IsByte [] h = tt
ascii-IsByte (c ∷ s) (p, h) = (omega arith, ascii-IsByte s h)

-- The octets of the JSON text of a value.
abbrev pub wire : Json → Bytes
wire vp = utf8_encode (dumps default_format vp)

pub wire-IsByte : (vp : Json) → All IsByte (wire vp)
wire-IsByte vp = utf8_encode-IsByte (dumps default_format vp) (
    ascii-IsByte (dumps default_format vp)
      (dumps-ascii default_format escape_ascii-ascii (omega arith) (omega arith) vp))

-- A dict that was encoded decodes to itself, if `json.loads` reads what `json.dumps` wrote.
pub decode_helix_vp-encode :
    (loads : Loads) (vp : Members)
    → loads (wire (obj vp)) ≡ some (obj vp)
    → decode_helix_vp loads (encode_helix_vp (obj vp)) ≡ ok vp
unfolding decode_helix_vp encode_helix_vp decode_json
decode_helix_vp-encode loads vp h = rw (
  decode_helix_vp,
  strip-no_space (b64url_encode (wire (obj vp))) (
      b64url_encode-all (λ c. not (is_whitespace c)) (wire (obj vp)) letter-no_space
        (wire-IsByte (obj vp))),
  decode_json,
  b64url_decode-encode (wire (obj vp)) (wire-IsByte (obj vp)),
  h,
)

pub encode-nonempty : (vp : Members) → nonempty (encode_helix_vp (obj vp)) ≡ true
unfolding encode_helix_vp dumps
encode-nonempty vp =
    b64url_encode-nonempty (wire (obj vp)) (wire-IsByte (obj vp)) (utf8_encode-ne b'{' _)

-- Headers as the value that a server is given.
unfoldable pub headers_value : List (Text × Text) → Members
headers_value [] = end
headers_value ((k, v) ∷ headers) = member k (str v) (headers_value headers)

decode_if_given-str :
    (loads : Loads) (s : Text)
    → nonempty s ≡ true
    → decode_if_given loads (str s) ≡ as_some (decode_helix_vp loads s)
unfolding decode_if_given
decode_if_given-str loads [] h = absurd (cc h)
decode_if_given-str loads (c ∷ s) h = refl

pub read-headers :
    (loads : Loads) (vp : Members)
    → loads (wire (obj vp)) ≡ some (obj vp)
    → read_helix_vp_header loads (obj (headers_value (helix_vp_headers (obj vp)))) ≡ ok (some vp)
unfolding helix_vp_headers headers_value read_helix_vp_header header_value text_eq lower
read-headers loads vp reads =
    rw
      (
        decode_if_given-str loads (encode_helix_vp (obj vp)) (encode-nonempty vp),
        decode_helix_vp-encode loads vp reads,
      )
      refl
