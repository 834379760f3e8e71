-- ===== src/VpBuilder/Signed.antt =====
-- The presentation that `VPBuilder.sign` returns.
use helix_sdk_py.Base.{Option-cases, if◌then◌else◌, inl, inr, refl, some, true, ◌≡◌}
use helix_sdk_py.Base58.Digits.{value}
use helix_sdk_py.Canonical.Reorder.{unchanged}
use helix_sdk_py.Client.{put_given}
use helix_sdk_py.Errors.{ok}
use helix_sdk_py.Json.{Json, Members, end, get, get-put, member, obj, put}
use helix_sdk_py.Keys.{private_key_bytes}
use helix_sdk_py.Proof.{Crypto, proof_block, to_iso_z, verify_ed25519_proof}
use helix_sdk_py.Proof.Verifies.{IsSound, verify_ed25519_proof-create}
use helix_sdk_py.Text.{Bytes, Text, text, text_eq}
use helix_sdk_py.Text.Hex.{to_hex}
use helix_sdk_py.VpBuilder.{
  SignOverrides, Surroundings, VpBuilder, sign_presentation, time_or, vp_payload,
}

-- A dict without a key.
unfoldable pub without : Text → Members → Members
without k end = end
without k (member j v ms) = if text_eq j k then ms else member j v (without k ms)

without-proof :
    (b : VpBuilder) (o : SignOverrides) (s : Surroundings) (v : Json)
    → without (text "proof") (put (text "proof") v (vp_payload b o s)) ≡ vp_payload b o s
unfolding without vp_payload put put_given text_eq
without-proof b o s v = elim (Option-cases b.user_did) [
  | inl e ↦ rw e refl
  | inr (u, e) ↦ rw e refl
]

module _ (crypto : Crypto) (sound : IsSound crypto) where
  -- With a supported key a presentation is signed: it holds the payload and a proof, and the proof
  -- verifies, with the public key of that key, on the presentation without its proof.
  pub sign_presentation-verifies :
      (b : VpBuilder) (key method : Text) (o : SignOverrides) (s : Surroundings) (seed : Bytes)
      → private_key_bytes key ≡ some seed
      → (signed proof : Members) × (sign_presentation crypto b key method o s ≡ ok signed)
        × (get (text "proof") signed ≡ some (obj proof))
        × (without (text "proof") signed ≡ vp_payload b o s)
        × (verify_ed25519_proof crypto
              (obj (without (text "proof") signed))
              proof
              (to_hex (crypto.public_key seed))
            ≡ ok true)
  unfolding sign_presentation text_eq
  sign_presentation-verifies b key method o s seed e =
      let payload : Members = vp_payload b o s in
      let (value, made, verified, _) =
        verify_ed25519_proof-create crypto sound (obj payload) (obj payload) key method
          (time_or o.proof_created_at s.now) seed e (unchanged (obj payload)) in
      let proof : Members =
        proof_block crypto (to_iso_z (time_or o.proof_created_at s.now)) method value in
      (
        put (text "proof") (obj proof) payload,
        proof,
        rw (sign_presentation, made),
        get-put (text "proof") (text "proof") (obj proof) payload,
        without-proof b o s (obj proof),
        rw (without-proof b o s (obj proof)) verified,
      )
