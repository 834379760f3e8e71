-- ===== src/Http/Url.antt =====
-- `urllib.parse.quote(s, safe="")` and `urlencode`, as src/helix_sdk/client.py calls them.
pub mod Segment
pub mod Utf8
use helix_sdk_py.Base.{
  Bool, List, Option, [], if◌then◌else◌, leb, ltb, none, some, ℕ, ◌%◌, ◌&&◌, ◌++◌, ◌+◌, ◌/◌, ◌==◌,
  ◌||◌, ◌∷◌,
}
use helix_sdk_py.Text.{Bytes, Text}

-- The UTF-8 octets of a code point.
utf8_octets : ℕ → Bytes
utf8_octets c =
    if ltb c 0x80
    then c ∷ []
    else if ltb c 0x800
    then (192 + c / 64) ∷ (128 + c % 64) ∷ []
    else if ltb c 0x10000
    then (224 + c / 4096) ∷ (128 + c / 64 % 64) ∷ (128 + c % 64) ∷ []
    else (240 + c / 262144) ∷ (128 + c / 4096 % 64) ∷ (128 + c / 64 % 64) ∷ (128 + c % 64) ∷ []

-- `s.encode("utf-8")`
unfoldable pub utf8_encode : Text → Bytes
unfolding utf8_octets
utf8_encode [] = []
utf8_encode (c ∷ s) = utf8_octets c ++ utf8_encode s

-- Letters, digits and `_.-~`.
unfoldable pub is_unreserved : ℕ → Bool
is_unreserved b =
    leb b'A' b && leb b b'Z'
    || leb b'a' b && leb b b'z'
    || leb b'0' b && leb b b'9'
    || b == b'_'
    || b == b'.'
    || b == b'-'
    || b == b'~'

upper_hex : ℕ → ℕ
upper_hex d = if ltb d 10 then 48 + d else 55 + d

quote_octet : ℕ → Text
unfolding is_unreserved upper_hex
quote_octet b =
    if is_unreserved b then b ∷ [] else b'%' ∷ upper_hex (b / 16) ∷ upper_hex (b % 16) ∷ []

unfoldable pub quote_octets : Bytes → Text
unfolding quote_octet
quote_octets [] = []
quote_octets (b ∷ bs) = quote_octet b ++ quote_octets bs

-- `quote(s, safe="")`
unfoldable pub quote : Text → Text
unfolding quote_octets utf8_encode
quote s = quote_octets (utf8_encode s)

-- `quote_plus` of the octets: a space becomes `+`.
quote_plus_octets : Bytes → Text
unfolding quote_octet
quote_plus_octets [] = []
quote_plus_octets (b ∷ bs) = (if b == 32 then b'+' ∷ [] else quote_octet b) ++ quote_plus_octets bs

quote_plus : Text → Text
unfolding quote_plus_octets utf8_encode
quote_plus s = quote_plus_octets (utf8_encode s)

-- `urlencode` of pairs of texts.
unfoldable pub urlencode : List (Text × Text) → Text
unfolding quote_plus
urlencode [] = []
urlencode ((k, v) ∷ []) = quote_plus k ++ b'=' ∷ quote_plus v
urlencode ((k, v) ∷ kv ∷ ps) = (quote_plus k ++ b'=' ∷ quote_plus v) ++ b'&' ∷ urlencode (kv ∷ ps)

-- `{k: v for k, v in params.items() if v is not None}`
unfoldable pub given_params : List (Text × Option Text) → List (Text × Text)
given_params [] = []
given_params ((k, none) ∷ ps) = given_params ps
given_params ((k, some v) ∷ ps) = (k, v) ∷ given_params ps

-- `_query_string`
unfoldable pub query_string : List (Text × Option Text) → Text
unfolding given_params urlencode
query_string params = elim (given_params params) [ [] ↦ [] | p ∷ ps ↦ b'?' ∷ urlencode (p ∷ ps) ]
