-- ===== src/Keys/Multibase.antt =====
-- The multibase form of a public key, there and back.
use helix_sdk_py.Base.{All, arith, refl, some, ◌∷◌, ◌≡◌}
use helix_sdk_py.Base58.{base58btc_encode}
use helix_sdk_py.Base58.RoundTrip.{base58btc_decode-encode}
use helix_sdk_py.Keys.{multibase_to_public_key_hex, public_key_to_multibase}
use helix_sdk_py.Text.{Bytes, Text}
use helix_sdk_py.Text.Hex.{IsByte, from_hex-to_hex, to_hex}

-- The hex of any octets, as a public key, comes back from its multibase form.
pub multibase_round_trip :
    (bs : Bytes)
    → All IsByte bs
    → (m : Text) × (public_key_to_multibase (to_hex bs) ≡ some m)
      × (multibase_to_public_key_hex m ≡ some (to_hex bs))
unfolding public_key_to_multibase multibase_to_public_key_hex
multibase_round_trip bs h = (
  b'z' ∷ base58btc_encode (0xED ∷ 0x01 ∷ bs),
  rw (public_key_to_multibase, from_hex-to_hex bs h),
  rw (base58btc_decode-encode (0xED ∷ 0x01 ∷ bs) (omega arith, (omega arith, h)) refl),
)
