-- ===== src/KeyPairs.antt =====
-- Key pairs and signing: src/helix_sdk/keys.py lines 42-66. Ed25519 is a `Crypto`, and the 32 random
-- octets of a new key are an argument.
pub mod Consistent
use helix_sdk_py.Base.{Bool, false, none, some}
use helix_sdk_py.Client.Dids.{KeyPair}
use helix_sdk_py.Errors.{Result, ok}
use helix_sdk_py.Http.Url.{utf8_encode}
use helix_sdk_py.Keys.{private_key_bytes}
use helix_sdk_py.Proof.{Crypto, value_error}
use helix_sdk_py.Tests.{private_key}
use helix_sdk_py.Text.{Bytes, Text}
use helix_sdk_py.Text.Hex.{from_hex, to_hex}

-- What `sign_data` takes: `str` or `bytes`.
pub data Message : Type 0 where
  of_text : Text → Message
  of_octets : Bytes → Message

abbrev pub message_octets : Message → Bytes
message_octets (of_text s) = utf8_encode s
message_octets (of_octets bs) = bs

module _ (crypto : Crypto) where
  unfoldable pub generate_key_pair : Bytes → KeyPair
  unfolding to_hex
  generate_key_pair random = record {
    private_key = to_hex random;
    public_key = to_hex (crypto.public_key random);
  }

  unfoldable pub derive_public_key : Text → Result Text
  derive_public_key private_key_hex = elim (private_key_bytes private_key_hex) [
    | none ↦ value_error
    | some seed ↦ ok (to_hex (crypto.public_key seed))
  ]

  unfoldable pub sign_data : Message → Text → Result Text
  sign_data message private_key_hex = elim (private_key_bytes private_key_hex) [
    | none ↦ value_error
    | some seed ↦ ok (to_hex (crypto.sign seed (message_octets message)))
  ]

  -- Every failure is `False`.
  unfoldable pub verify_message : Bytes → Text → Text → Bool
  verify_message message signature_hex public_key_hex = elim (from_hex public_key_hex) [
    | none ↦ false
    | some key ↦ elim (from_hex signature_hex) [
      | none ↦ false
      | some signature ↦ crypto.verify key message signature
    ]
  ]
