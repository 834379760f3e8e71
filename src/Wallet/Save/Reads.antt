-- ===== src/Wallet/Save/Reads.antt =====
-- A wallet that was saved is loaded, with the reader of JSON modelled here.
use helix_sdk_py.Base.{
  All, Bool-cases, Option, [], all, arith, drop, inl, inr, length, refl, some, take, true, ◌-◌, ◌∷◌,
  ◌≡◌,
}
use helix_sdk_py.Client.{HelixClient, json_or}
use helix_sdk_py.Errors.{ok}
use helix_sdk_py.Http.Url.Utf8.{is_scalar}
use helix_sdk_py.Json.{Json, get, obj, str, truthy}
use helix_sdk_py.Json.Loads.{json_loads}
use helix_sdk_py.Json.Loads.Indented.{json_loads-dumps_indented}
use helix_sdk_py.Json.Loads.Parsed.{ArePlain, IsPlain}
use helix_sdk_py.KeyPairs.{derive_public_key}
use helix_sdk_py.Text.{Bytes, Text, text_eq}
use helix_sdk_py.Text.Hex.{IsByte, to_hex}
use helix_sdk_py.Wallet.{AgentWallet, text_of}
use helix_sdk_py.Wallet.Save.{
  Files, Machine, SaveMoments, is_complete, load, save, saved, sealed_key, stored_credentials,
  wallet_payload,
}
use helix_sdk_py.Wallet.Save.RoundTrip.{All-drop, All-take, IsSealing, load-save, sealed_octets}

-- What a wallet and a moment put into the file, apart from the keys: no surrogates, and distinct
-- keys in every dict.
pub record IsPlainWallet (m : SaveMoments) (w : AgentWallet) : Type 0 where
  pub did : IsPlain w.did_value
  pub public_key : all is_scalar (text_of w.public_key_hex) ≡ true
  pub credentials : ArePlain (stored_credentials w.wallet_credentials)
  pub created : IsPlain w.created_at
  pub created_now : all is_scalar m.created_now ≡ true
  pub updated_now : all is_scalar m.updated_now ≡ true

to_hex-scalars : (bs : Bytes) → All IsByte bs → all is_scalar (to_hex bs) ≡ true
unfolding to_hex
to_hex-scalars [] h = refl
to_hex-scalars (b ∷ bs) (p, h) = ground (arith, to_hex-scalars bs h)

json_or-IsPlain : (v w : Json) → IsPlain v → IsPlain w → IsPlain (json_or v w)
unfolding json_or
json_or-IsPlain v w h k = elim (Bool-cases (truthy v)) [
  | inl set ↦ rw (json_or, set) h
  | inr unset ↦ rw (json_or, unset) k
]

wallet_payload-IsPlain :
    (o : Machine) (law : IsSealing o.sealing) (m : SaveMoments) (w : AgentWallet)
    → All IsByte m.salt
    → All IsByte m.iv
    → IsPlainWallet m w
    → IsPlain (obj (wallet_payload o.sealing m w))
unfolding wallet_payload get text_eq
wallet_payload-IsPlain o law m w s i p =
    let sealed = sealed_key o.sealing m w in
    let octets = sealed_octets o law m w in
    let cut = length sealed - 16 in
    let front = to_hex-scalars (take cut sealed) (All-take cut sealed octets) in
    let back = to_hex-scalars (drop cut sealed) (All-drop cut sealed octets) in
    let created = json_or-IsPlain w.created_at (str m.created_now) p.created p.created_now in
    (
      refl,
      refl,
      tt,
      (
        refl,
        refl,
        p.did,
        (
          refl,
          refl,
          p.public_key,
          (
            refl,
            refl,
            front,
            (
              refl,
              refl,
              back,
              (
                refl,
                refl,
                to_hex-scalars m.iv i,
                (
                  refl,
                  refl,
                  to_hex-scalars m.salt s,
                  (
                    refl,
                    refl,
                    p.credentials,
                    (refl, refl, created, (refl, refl, p.updated_now, tt)),
                  ),
                ),
              ),
            ),
          ),
        ),
      ),
    )

-- Where AES-GCM decrypts what it encrypted, and salt and IV are octets: a complete wallet without
-- surrogates and with distinct keys is saved to a path that can be written; loading that path with
-- the wallet's passphrase gives the saved wallet back, with the loading client and the public key of
-- its private key, if that key is a supported one. `json.loads` is the reader modelled here.
pub load-save_json :
    (o : Machine) (law : IsSealing o.sealing) (m : SaveMoments) (w : AgentWallet)
    (path passphrase private public_key : Text) (random : Bytes) (client : Option HelixClient)
    (files : Files)
    → w.passphrase ≡ some passphrase
    → w.private_key_hex ≡ some private
    → is_complete w ≡ true
    → o.can_write path ≡ true
    → All IsByte m.salt
    → All IsByte m.iv
    → all is_scalar private ≡ true
    → derive_public_key o.crypto private ≡ ok public_key
    → IsPlainWallet m w
    → (files' : Files) × (save o m path w files ≡ (ok tt, saved m path w, files'))
      × (load (record o { loads = json_loads }) random path passphrase client files'
          ≡ ok (record (saved m path w) {
            client = client;
            private_key_hex = some private;
            public_key_hex = some public_key;
            passphrase = some passphrase;
          }))
unfolding save
load-save_json o law m w path passphrase private public_key random client files e k full can s i
      scalar derived plain =
    load-save (record o { loads = json_loads }) law m w path passphrase private public_key random
      client files e k full can s i scalar derived
      (json_loads-dumps_indented _ (wallet_payload-IsPlain o law m w s i plain))
