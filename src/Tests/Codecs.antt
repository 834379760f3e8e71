-- ===== src/Tests/Codecs.antt =====
-- Base58, base64url, hex, percent-encoding and canonical JSON on concrete values.
use helix_sdk_py.Base.{[], all, arith, length, refl, replicate, some, true, ◌∷◌, ◌≡◌}
use helix_sdk_py.Base58.{
  alphabet_at, append_carry, base58btc_decode, base58btc_encode, convert, leading_ones, mul_add,
}
use helix_sdk_py.Base58.AllZeros.{base58btc_decode-encode_zeros}
use helix_sdk_py.Base58.RoundTrip.{base58btc_decode-encode}
use helix_sdk_py.Base64.{b64url_decode, b64url_encode}
use helix_sdk_py.Base64.RoundTrip.{b64url_decode-encode}
use helix_sdk_py.Canonical.{sort_value, to_canonical_json}
use helix_sdk_py.Canonical.Reorder.{exchange, in_obj, to_canonical_json-Reordered}
use helix_sdk_py.Canonical.Sorting.{IsSorted, sort_value-IsSorted}
use helix_sdk_py.Errors.{ok}
use helix_sdk_py.Json.{Members, end, get, member, null, obj, str}
use helix_sdk_py.Json.Loads.{json_loads_octets}
use helix_sdk_py.Keys.{
  is_hex, is_raw_hex, is_whitespace, lower, lower_char, multibase_to_public_key_hex,
  normalize_ed25519_private_key_hex, normalize_stripped, public_key_to_multibase, strip, strip_left,
}
use helix_sdk_py.Keys.Multibase.{multibase_round_trip}
use helix_sdk_py.Keys.PrivateKey.{is_lower_hex, normalize-form}
use helix_sdk_py.Tests.{private_key, seed_octets}
use helix_sdk_py.Text.{Text, text, text_eq}
use helix_sdk_py.Text.Hex.{to_hex}
use helix_sdk_py.VpTransport.{
  decode_helix_vp, encode_helix_vp, helix_vp_headers, read_helix_vp_header,
}
use helix_sdk_py.VpTransport.Carries.{headers_value}
use helix_sdk_py.VpTransport.Reads.{decode_helix_vp-encode_json}

encode_hello : base58btc_encode (text "hello") ≡ text "Cn8eVZg"
unfolding base58btc_encode convert append_carry mul_add leading_ones alphabet_at
encode_hello = refl

base58btc_decode-encode_example :
    base58btc_decode (base58btc_encode (0 ∷ 7 ∷ 255 ∷ [])) ≡ some (0 ∷ 7 ∷ 255 ∷ [])
base58btc_decode-encode_example =
    base58btc_decode-encode (0 ∷ 7 ∷ 255 ∷ []) (omega arith, (omega arith, (omega arith, tt))) refl

base58btc_decode-encode_zeros_example :
    base58btc_decode (base58btc_encode (0 ∷ [])) ≡ some (0 ∷ 0 ∷ 0 ∷ [])
base58btc_decode-encode_zeros_example = base58btc_decode-encode_zeros 0

normalize-form_example :
    (length private_key ≡ 64)
    × (all is_lower_hex private_key ≡ true)
    × (normalize_ed25519_private_key_hex private_key ≡ some private_key)
unfolding normalize_ed25519_private_key_hex normalize_stripped strip strip_left is_whitespace
    is_raw_hex is_hex lower lower_char
normalize-form_example = normalize-form (b' ' ∷ replicate 64 b'A') private_key refl

multibase_round_trip_example :
    (m : Text) × (public_key_to_multibase (to_hex seed_octets) ≡ some m)
    × (multibase_to_public_key_hex m ≡ some (to_hex seed_octets))
multibase_round_trip_example = multibase_round_trip seed_octets (ground arith)

abbrev unsorted : Members
unsorted = member (text "ab") null (member (text "a") (str (text "x")) end)

abbrev sorted : Members
sorted = member (text "a") (str (text "x")) (member (text "ab") null end)

sort_value-IsSorted_example :
    IsSorted (sort_value (obj unsorted))
    × (sort_value (sort_value (obj unsorted)) ≡ sort_value (obj unsorted))
sort_value-IsSorted_example = sort_value-IsSorted (obj unsorted)

to_canonical_json-Reordered_example :
    to_canonical_json (obj unsorted) ≡ to_canonical_json (obj sorted)
to_canonical_json-Reordered_example =
    to_canonical_json-Reordered
      (in_obj (exchange (text "ab") (text "a") null (str (text "x")) end (λ e. cc e)))

b64url_decode-encode_example :
    b64url_decode (b64url_encode (251 ∷ 255 ∷ [])) ≡ some (251 ∷ 255 ∷ [])
b64url_decode-encode_example =
    b64url_decode-encode (251 ∷ 255 ∷ []) (omega arith, (omega arith, tt))

decode_helix_vp-encode_json_example :
    (decode_helix_vp json_loads_octets (encode_helix_vp (obj sorted)) ≡ ok sorted)
    × (read_helix_vp_header json_loads_octets (obj (headers_value (helix_vp_headers (obj sorted))))
        ≡ ok (some sorted))
unfolding get text_eq
decode_helix_vp-encode_json_example =
    decode_helix_vp-encode_json sorted (refl, refl, refl, (refl, refl, tt, tt))
