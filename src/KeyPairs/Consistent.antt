-- ===== src/KeyPairs/Consistent.antt =====
-- A new key pair fits together.
use helix_sdk_py.Base.{
  All, [], all, arith, length, refl, some, true, ℕ, ◌%◌, ◌*◌, ◌/◌, ◌<◌, ◌∷◌, ◌≡◌,
}
use helix_sdk_py.Errors.{ok}
use helix_sdk_py.KeyPairs.{
  Message, derive_public_key, generate_key_pair, message_octets, sign_data, verify_message,
}
use helix_sdk_py.Keys.{private_key_bytes}
use helix_sdk_py.Keys.PrivateKey.{is_lower_hex, normalize-lower_hex}
use helix_sdk_py.Proof.{Crypto}
use helix_sdk_py.Proof.Verifies.{IsSound}
use helix_sdk_py.Text.{Bytes, Text}
use helix_sdk_py.Text.Hex.{IsByte, from_hex-to_hex, hex_digit, to_hex}

hex_digit-is_lower_hex : (d : ℕ) → d < 16 → is_lower_hex (hex_digit d) ≡ true
unfolding hex_digit
hex_digit-is_lower_hex d h = ground arith

to_hex-is_lower_hex : (bs : Bytes) → All IsByte bs → all is_lower_hex (to_hex bs) ≡ true
unfolding to_hex
to_hex-is_lower_hex [] h = refl
to_hex-is_lower_hex (b ∷ bs) (p, h) =
    rw
      (hex_digit-is_lower_hex (b / 16) (omega arith), hex_digit-is_lower_hex (b % 16) (omega arith))
      (to_hex-is_lower_hex bs h)

length-to_hex : (bs : Bytes) → length (to_hex bs) ≡ 2 * length bs
unfolding to_hex
length-to_hex [] = refl
length-to_hex (b ∷ bs) = omega (arith, length-to_hex bs)

-- The hex of 32 octets is a private key, for those octets.
pub private_key_bytes-to_hex :
    (bs : Bytes) → All IsByte bs → length bs ≡ 32 → private_key_bytes (to_hex bs) ≡ some bs
unfolding private_key_bytes
private_key_bytes-to_hex bs h size =
    rw
      (
        private_key_bytes,
        normalize-lower_hex (to_hex bs) (omega (arith, length-to_hex bs))
            (to_hex-is_lower_hex bs h),
      )
      (from_hex-to_hex bs h)

module _ (crypto : Crypto) (sound : IsSound crypto) where
  -- Where Ed25519 is sound, a new key pair from 32 octets is consistent: deriving the public key from
  -- the private key gives the public key of the pair, and what `sign_data` signs with the private
  -- key, text or octets, verifies with that public key.
  pub generate_key_pair-consistent :
      (random : Bytes) (message : Message)
      → All IsByte random
      → length random ≡ 32
      → (derive_public_key crypto (generate_key_pair crypto random).private_key
          ≡ ok (generate_key_pair crypto random).public_key)
        × (signature : Text) × (sign_data crypto message
              (generate_key_pair crypto random).private_key
            ≡ ok signature)
        × (verify_message crypto
              (message_octets message)
              signature
              (generate_key_pair crypto random).public_key
            ≡ true)
  unfolding generate_key_pair derive_public_key sign_data verify_message
  generate_key_pair-consistent random message h size = (
    rw (derive_public_key, private_key_bytes-to_hex random h size),
    to_hex (crypto.sign random (message_octets message)),
    rw (sign_data, private_key_bytes-to_hex random h size),
    rw
        (
          verify_message,
          from_hex-to_hex (crypto.public_key random) (sound.key_octets random),
          from_hex-to_hex (crypto.sign random (message_octets message)) (sound.octets random _),
        )
        (sound.correct random (message_octets message)),
  )
