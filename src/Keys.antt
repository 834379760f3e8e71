-- ===== src/Keys.antt =====
-- src/helix_sdk/keys.py: private keys in their two hex forms, and the multibase form of public keys.
-- The Ed25519 operations of PyNaCl are arguments (Crypto).
pub mod PrivateKey
pub mod Multibase
use helix_sdk_py.Base.{
  Bool, Option, [], all, drop, false, if◌then◌else◌, leb, length, map, none, reverse, some, true, ℕ,
  ◌&&◌, ◌+◌, ◌==◌, ◌||◌, ◌∷◌,
}
use helix_sdk_py.Base58.{base58btc_decode, base58btc_encode}
use helix_sdk_py.Base58.Digits.{value}
use helix_sdk_py.Text.{Bytes, Text, starts_with, text}
use helix_sdk_py.Text.Hex.{from_hex, to_hex}

-- The characters that `str.strip` removes.
unfoldable pub is_whitespace : ℕ → Bool
is_whitespace c =
    leb 9 c && leb c 13
    || leb 28 c && leb c 32
    || c == 0x85
    || c == 0xA0
    || c == 0x1680
    || leb 0x2000 c && leb c 0x200A
    || c == 0x2028
    || c == 0x2029
    || c == 0x202F
    || c == 0x205F
    || c == 0x3000

unfoldable pub strip_left : Text → Text
unfolding is_whitespace
strip_left [] = []
strip_left (c ∷ s) = let rest = strip_left s in if is_whitespace c then rest else c ∷ s

-- `s.strip()`
unfoldable pub strip : Text → Text
unfolding strip_left
strip s = reverse (strip_left (reverse (strip_left s)))

-- `[0-9a-fA-F]`
unfoldable pub is_hex : ℕ → Bool
is_hex c = leb b'0' c && leb c b'9' || leb b'a' c && leb c b'f' || leb b'A' c && leb c b'F'

-- `str.lower` on ASCII. It is called on other texts only beside `_HEX_RE`, which refuses them.
unfoldable pub lower_char : ℕ → ℕ
lower_char c = if leb b'A' c && leb c b'Z' then c + 32 else c

unfoldable pub lower : Text → Text
unfolding lower_char
lower s = map lower_char s

abbrev pub pkcs8_der_prefix : Text
pkcs8_der_prefix = text "302e020100300506032b657004220420"

-- `_RAW_HEX_RE.match(value)`
unfoldable pub is_raw_hex : Text → Bool
unfolding is_hex
is_raw_hex value = length value == 64 && all is_hex value

-- The three conditions on a PKCS8 DER key.
unfoldable pub is_pkcs8_hex : Text → Bool
unfolding is_hex lower starts_with
is_pkcs8_hex value =
    length value == 96 && starts_with (lower value) pkcs8_der_prefix && all is_hex value

unfoldable pub normalize_stripped : Text → Option Text
unfolding is_raw_hex is_pkcs8_hex lower
normalize_stripped value =
    if is_raw_hex value
    then some (lower value)
    else if is_pkcs8_hex value
    then some (lower (drop 32 value))
    else none

unfoldable pub normalize_ed25519_private_key_hex : Text → Option Text
unfolding normalize_stripped strip
normalize_ed25519_private_key_hex private_key_hex = normalize_stripped (strip private_key_hex)

unfoldable pub is_supported_ed25519_private_key_hex : Text → Bool
unfolding normalize_ed25519_private_key_hex
is_supported_ed25519_private_key_hex private_key_hex =
    elim (normalize_ed25519_private_key_hex private_key_hex) [ none ↦ false | some _ ↦ true ]

-- `_normalize_ed25519_private_key`, with `none` for the ValueErrors.
unfoldable pub private_key_bytes : Text → Option Bytes
unfolding normalize_ed25519_private_key_hex from_hex
private_key_bytes private_key_hex = elim (normalize_ed25519_private_key_hex private_key_hex) [
  | none ↦ none
  | some normalized ↦ from_hex normalized
]

-- `none` is the ValueError of `bytes.fromhex`.
unfoldable pub public_key_to_multibase : Text → Option Text
unfolding from_hex base58btc_encode
public_key_to_multibase public_key_hex = elim (from_hex public_key_hex) [
  | none ↦ none
  | some bs ↦ some (b'z' ∷ base58btc_encode (0xED ∷ 0x01 ∷ bs))
]

-- `none` is the ValueError of a value that begins with no `z`, or is no base58.
unfoldable pub multibase_to_public_key_hex : Text → Option Text
unfolding base58btc_decode to_hex
multibase_to_public_key_hex [] = none
multibase_to_public_key_hex (c ∷ s) =
    if c == b'z'
    then elim (base58btc_decode s) [ none ↦ none | some decoded ↦ some (to_hex (drop 2 decoded)) ]
    else none
