-- ===== src/Proof/Verifies.antt =====
-- A proof that was at verifies.
use helix_sdk_py.Base.{All, Bool-cases, [], ap, inl, inr, some, true, ◌∷◌, ◌≡◌}
use helix_sdk_py.Base58.{base58btc_encode}
use helix_sdk_py.Base58.Digits.{value}
use helix_sdk_py.Base58.RoundTrip.{base58btc_decode-encode, has_nonzero}
use helix_sdk_py.Canonical.Reorder.{Reordered, to_canonical_json-Reordered}
use helix_sdk_py.Errors.{ok}
use helix_sdk_py.Http.Url.{utf8_encode}
use helix_sdk_py.Json.{Json, get}
use helix_sdk_py.Keys.{private_key_bytes}
use helix_sdk_py.Proof.{
  Crypto, DateTime, create_ed25519_proof, hash_canonical_payload, proof_block, proof_from,
  sign_bytes, to_iso_z, verify_ed25519_proof, verify_proof_value, verify_signature, verify_value,
}
use helix_sdk_py.Text.{Bytes, Text, text_eq}
use helix_sdk_py.Text.Hex.{IsByte, from_hex-to_hex, to_hex}

-- What the signing relies on: a signature is octets, not all of them zero, and verifies with the
-- public key of its seed, which is octets too.
pub record IsSound (crypto : Crypto) : Type 0 where
  pub octets : (seed message : Bytes) → All IsByte (crypto.sign seed message)
  pub nonzero : (seed message : Bytes) → has_nonzero (crypto.sign seed message) ≡ true
  pub key_octets : (seed : Bytes) → All IsByte (crypto.public_key seed)
  pub correct :
      (seed message : Bytes)
      → crypto.verify (crypto.public_key seed) message (crypto.sign seed message) ≡ true

module _ (crypto : Crypto) (sound : IsSound crypto) where
  -- The value that a proof of `payload` carries.
  abbrev pub signed_value : Bytes → Json → Text
  signed_value seed payload =
      base58btc_encode (crypto.sign seed (hash_canonical_payload crypto payload))

  create_lem :
      (payload : Json) (key method : Text) (moment : DateTime) (seed : Bytes)
      → private_key_bytes key ≡ some seed
      → create_ed25519_proof crypto payload key method moment
        ≡ ok (proof_block crypto (to_iso_z moment) method (signed_value seed payload))
  unfolding create_ed25519_proof sign_bytes proof_from
  create_lem payload key method moment seed e = rw (
    create_ed25519_proof,
    sign_bytes,
    e,
    proof_from,
    from_hex-to_hex (crypto.sign seed (hash_canonical_payload crypto payload))
        (sound.octets seed _),
  )

  hash-Reordered :
      (payload payload' : Json)
      → Reordered payload payload'
      → hash_canonical_payload crypto payload ≡ hash_canonical_payload crypto payload'
  unfolding hash_canonical_payload
  hash-Reordered payload payload' r =
      ap (λ s. crypto.sha256 (utf8_encode s)) (to_canonical_json-Reordered r)

  signed_value-verifies :
      (seed : Bytes) (payload payload' : Json)
      → Reordered payload payload'
      → verify_proof_value crypto payload'
          (to_hex (crypto.public_key seed))
          (signed_value seed payload)
        ≡ true
  unfolding verify_proof_value verify_signature
  signed_value-verifies seed payload payload' r =
      rw
        (
          verify_proof_value,
          base58btc_decode-encode (crypto.sign seed (hash_canonical_payload crypto payload))
              (sound.octets seed _) (sound.nonzero seed _),
          verify_signature,
          from_hex-to_hex (crypto.public_key seed) (sound.key_octets seed),
          from_hex-to_hex (crypto.sign seed (hash_canonical_payload crypto payload))
              (sound.octets seed _),
          ← hash-Reordered payload payload' r,
        )
        (sound.correct seed (hash_canonical_payload crypto payload))

  verify_value-true :
      (payload : Json) (key value : Text)
      → verify_proof_value crypto payload key value ≡ true
      → verify_value crypto payload key value ≡ true
  unfolding verify_value
  verify_value-true payload key [] h = h
  verify_value-true payload key (c ∷ s) h = rw (verify_value, h)

  verify_value-multibase :
      (payload : Json) (key value : Text)
      → verify_proof_value crypto payload key value ≡ true
      → verify_value crypto payload key (b'z' ∷ value) ≡ true
  unfolding verify_value
  verify_value-multibase payload key value h =
      elim (Bool-cases (verify_proof_value crypto payload key (b'z' ∷ value))) [
        | inl direct ↦ rw (verify_value, direct)
        | inr prefixed ↦ rw (verify_value, prefixed) h
      ]

  -- With a key that is supported, a proof is created, and it verifies with the public key of that
  -- key, also on a payload that holds its keys in another order, and also if its value gets the
  -- `z` of multibase in front.
  pub verify_ed25519_proof-create :
      (payload payload' : Json) (key method : Text) (moment : DateTime) (seed : Bytes)
      → private_key_bytes key ≡ some seed
      → Reordered payload payload'
      → (value : Text) × (create_ed25519_proof crypto payload key method moment
          ≡ ok (proof_block crypto (to_iso_z moment) method value))
        × (verify_ed25519_proof crypto payload'
              (proof_block crypto (to_iso_z moment) method value)
              (to_hex (crypto.public_key seed))
            ≡ ok true)
        × (verify_ed25519_proof crypto payload'
              (proof_block crypto (to_iso_z moment) method (b'z' ∷ value))
              (to_hex (crypto.public_key seed))
            ≡ ok true)
  unfolding verify_ed25519_proof get text_eq
  verify_ed25519_proof-create payload payload' key method moment seed e r =
      let verified = signed_value-verifies seed payload payload' r in
      (
        signed_value seed payload,
        create_lem payload key method moment seed e,
        ap ok (
            verify_value-true payload' (to_hex (crypto.public_key seed)) (signed_value seed payload)
              verified),
        ap ok (
            verify_value-multibase payload' (to_hex (crypto.public_key seed))
              (signed_value seed payload) verified),
      )
