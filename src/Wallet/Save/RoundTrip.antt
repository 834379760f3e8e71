-- ===== src/Wallet/Save/RoundTrip.antt =====
-- A wallet that was saved is loaded with its passphrase.
use helix_sdk_py.Base.{
  All, Option, [], all, ap, arith, drop, length, some, suc, sym, take, take-drop, true, zero, ℕ,
  ◌++◌, ◌-◌, ◌<◌, ◌∙◌, ◌∷◌, ◌≡◌,
}
use helix_sdk_py.Client.{HelixClient}
use helix_sdk_py.Errors.{ok, subscript}
use helix_sdk_py.Http.{is_set}
use helix_sdk_py.Http.Url.{utf8_encode}
use helix_sdk_py.Http.Url.Segment.{utf8_encode-IsByte}
use helix_sdk_py.Http.Url.Utf8.{is_scalar, utf8_decode-encode}
use helix_sdk_py.Json.{get, obj}
use helix_sdk_py.Json.Dumps.Indented.{dumps_indented}
use helix_sdk_py.KeyPairs.{derive_public_key}
use helix_sdk_py.Text.{Bytes, Text, nonempty, text_eq, text_eq_refl}
use helix_sdk_py.Text.Hex.{IsByte, from_hex-to_hex}
use helix_sdk_py.Wallet.{AgentWallet, post_init, text_of}
use helix_sdk_py.Wallet.Save.{
  Files, Machine, SaveMoments, Sealing, credentials_in, decrypt_key, derive_key, is_complete, load,
  opened, save, saved, sealed_key, wallet_from, wallet_payload, write_text,
}
use helix_sdk_py.Wallet.Save.Stored.{credentials_from-stored}

-- What AES-GCM promises: what it encrypts to is octets, and octets that were encrypted are decrypted
-- with the same key and IV.
pub record IsSealing (s : Sealing) : Type 0 where
  pub octets : (key iv message : Bytes) → All IsByte (s.encrypt key iv message)
  pub opens :
      (key iv message : Bytes)
      → All IsByte message
      → s.decrypt key iv (s.encrypt key iv message) ≡ some message

scalars-below : (s : Text) → all is_scalar s ≡ true → All (λ c. c < 0x110000) s
scalars-below [] h = tt
scalars-below (c ∷ s) h = (ground arith, scalars-below s (ground arith))

utf8_encode-octets : (s : Text) → all is_scalar s ≡ true → All IsByte (utf8_encode s)
utf8_encode-octets s h = utf8_encode-IsByte s (scalars-below s h)

pub All-take : (n : ℕ) (xs : Bytes) → All IsByte xs → All IsByte (take n xs)
All-take zero xs h = tt
All-take (suc n) [] h = tt
All-take (suc n) (x ∷ xs) (p, h) = (p, All-take n xs h)

pub All-drop : (n : ℕ) (xs : Bytes) → All IsByte xs → All IsByte (drop n xs)
All-drop zero xs h = h
All-drop (suc n) [] h = tt
All-drop (suc n) (x ∷ xs) (p, h) = All-drop n xs h

private_is_set : (w : AgentWallet) → is_complete w ≡ true → is_set w.private_key_hex ≡ true
unfolding is_complete
private_is_set w h = ground arith

module _ (o : Machine) (law : IsSealing o.sealing) (m : SaveMoments) (w : AgentWallet) where
  pub sealed_octets : All IsByte (sealed_key o.sealing m w)
  unfolding sealed_key
  sealed_octets = law.octets _ _ _

  split_sealed :
      take (length (sealed_key o.sealing m w) - 16) (sealed_key o.sealing m w)
        ++ drop (length (sealed_key o.sealing m w) - 16) (sealed_key o.sealing m w)
      ≡ sealed_key o.sealing m w
  split_sealed = take-drop (length (sealed_key o.sealing m w) - 16) (sealed_key o.sealing m w)

  unsealed :
      (passphrase : Text)
      → w.passphrase ≡ some passphrase
      → all is_scalar (text_of w.private_key_hex) ≡ true
      → o.sealing.decrypt (derive_key o.sealing passphrase m.salt) m.iv (sealed_key o.sealing m w)
        ≡ some (utf8_encode (text_of w.private_key_hex))
  unfolding sealed_key
  unsealed passphrase e scalar = rw e (law.opens _ _ _ (utf8_encode-octets _ scalar))

  decrypt_key-payload :
      (passphrase : Text)
      → w.passphrase ≡ some passphrase
      → All IsByte m.salt
      → All IsByte m.iv
      → all is_scalar (text_of w.private_key_hex) ≡ true
      → decrypt_key o.sealing passphrase (obj (wallet_payload o.sealing m w))
        ≡ ok (text_of w.private_key_hex)
  unfolding decrypt_key wallet_payload get text_eq subscript
  decrypt_key-payload passphrase e s i scalar = rw (
    from_hex-to_hex m.salt s,
    from_hex-to_hex m.iv i,
    from_hex-to_hex (take (length (sealed_key o.sealing m w) - 16) (sealed_key o.sealing m w))
        (All-take _ _ sealed_octets),
    from_hex-to_hex (drop (length (sealed_key o.sealing m w) - 16) (sealed_key o.sealing m w))
        (All-drop _ _ sealed_octets),
    opened,
    split_sealed,
    unsealed passphrase e scalar,
    utf8_decode-encode (text_of w.private_key_hex) scalar,
  )

  wallet_from-payload :
      (path passphrase private public_key : Text) (random : Bytes) (client : Option HelixClient)
      → nonempty private ≡ true
      → derive_public_key o.crypto private ≡ ok public_key
      → wallet_from o random path passphrase client private (obj (wallet_payload o.sealing m w))
        ≡ ok (record (saved m path w) {
          client = client;
          private_key_hex = some private;
          public_key_hex = some public_key;
          passphrase = some passphrase;
        })
  unfolding wallet_from wallet_payload get text_eq subscript credentials_in post_init saved
  wallet_from-payload path passphrase private public_key random client full derived =
      rw (credentials_from-stored w.wallet_credentials, post_init, full, derived)

  -- A complete wallet is saved to a path that can be written; loading that path with the wallet's
  -- passphrase gives the saved wallet back, with the loading client and the public key of its
  -- private key, if the reader of JSON reads the file that was written, and the private key is a
  -- supported one without surrogates.
  pub load-save :
      (path passphrase private public_key : Text) (random : Bytes) (client : Option HelixClient)
      (files : Files)
      → w.passphrase ≡ some passphrase
      → w.private_key_hex ≡ some private
      → is_complete w ≡ true
      → o.can_write path ≡ true
      → All IsByte m.salt
      → All IsByte m.iv
      → all is_scalar private ≡ true
      → derive_public_key o.crypto private ≡ ok public_key
      → o.loads (dumps_indented 0 (obj (wallet_payload o.sealing m w)))
        ≡ some (obj (wallet_payload o.sealing m w))
      → (files' : Files) × (save o m path w files ≡ (ok tt, saved m path w, files'))
        × (load o random path passphrase client files'
            ≡ ok (record (saved m path w) {
              client = client;
              private_key_hex = some private;
              public_key_hex = some public_key;
              passphrase = some passphrase;
            }))
  unfolding save load write_text
  load-save path passphrase private public_key random client files e k full can s i scalar derived
        reads =
      let same : text_of w.private_key_hex ≡ private = ap text_of k in
      (
        write_text path (dumps_indented 0 (obj (wallet_payload o.sealing m w))) files,
        rw (save, full, can),
        rw
            (
              load,
              text_eq_refl path,
              reads,
              decrypt_key-payload passphrase e s i (ap (all is_scalar) same ∙ scalar),
              same,
            )
            (wallet_from-payload path passphrase private public_key random client
              (sym (ap is_set k) ∙ private_is_set w full) derived),
      )
