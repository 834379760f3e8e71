-- ===== src/Wallet/Save.antt =====
-- The encrypted wallet file, src/helix_sdk/wallet.py lines 44-46 and 183-236. PBKDF2 and AES-GCM are
-- a `Sealing`; files are texts by path.
pub mod Stored
pub mod RoundTrip
pub mod Reads
use helix_sdk_py.Errors.{◌>>=◌}
use helix_sdk_py.Base.{
  Bool, List, Option, [], drop, if◌then◌else◌, length, none, pos, some, take, ℕ, ◌&&◌, ◌++◌, ◌-◌,
  ◌∷◌,
}
use helix_sdk_py.Client.{HelixClient, dict, json_or}
use helix_sdk_py.Errors.{Result, builtin, ok, raised, subscript}
use helix_sdk_py.Http.{is_set}
use helix_sdk_py.Http.Url.{utf8_encode}
use helix_sdk_py.Http.Url.Utf8.{utf8_decode}
use helix_sdk_py.Json.{
  Items, Json, Members, arr, cons, end, int, member, nil, null, obj, str, truthy,
}
use helix_sdk_py.Json.Dumps.Indented.{dumps_indented}
use helix_sdk_py.Proof.{Crypto, value_error}
use helix_sdk_py.Text.{Bytes, Text, text, text_eq}
use helix_sdk_py.Text.Hex.{from_hex, to_hex}
use helix_sdk_py.Wallet.{AgentWallet, post_init, runtime_error, text_of}
use helix_sdk_py.Wallet.Credential.{LoadsText, WalletCredential, from_dict, member_or, to_dict}

-- `pbkdf2 length iterations salt passphrase`, and `AESGCM(key)`, with `none` for its exceptions.
pub record Sealing : Type 0 where
  pub pbkdf2 : (length iterations : ℕ) → (salt passphrase : Bytes) → Bytes
  pub encrypt : (key iv message : Bytes) → Bytes
  pub decrypt : (key iv sealed : Bytes) → Option Bytes

abbrev pub Files : Type 0
Files = Text → Option Text

unfoldable pub write_text : Text → Text → Files → Files
unfolding text_eq
write_text path content files p = if text_eq p path then some content else files p

-- What the wallet calls: the reader of JSON, and which paths can be written.
pub record Machine : Type 0 where
  pub crypto : Crypto
  pub sealing : Sealing
  pub loads : LoadsText
  pub can_write : Text → Bool

-- The random octets and the times of one `save`.
pub record SaveMoments : Type 0 where
  pub salt : Bytes
  pub iv : Bytes
  pub created_now : Text
  pub updated_now : Text

unfoldable pub derive_key : Sealing → Text → Bytes → Bytes
derive_key sealing passphrase salt = sealing.pbkdf2 32 100000 salt (utf8_encode passphrase)

unfoldable pub stored_credentials : List WalletCredential → Items
unfolding to_dict
stored_credentials [] = nil
stored_credentials (c ∷ cs) = cons (obj (to_dict c)) (stored_credentials cs)

-- The private key, sealed: all but the last 16 octets are the ciphertext, and those are the tag.
unfoldable pub sealed_key : Sealing → SaveMoments → AgentWallet → Bytes
sealed_key sealing m w =
    sealing.encrypt (derive_key sealing (text_of w.passphrase) m.salt) m.iv
      (utf8_encode (text_of w.private_key_hex))

abbrev ciphertext : Bytes → Bytes
ciphertext combined = take (length combined - 16) combined

abbrev auth_tag : Bytes → Bytes
auth_tag combined = drop (length combined - 16) combined

unfoldable pub wallet_payload : Sealing → SaveMoments → AgentWallet → Members
unfolding to_hex stored_credentials
wallet_payload sealing m w = dict (
    (text "version", int (pos 1))
    ∷ (text "did", w.did_value)
    ∷ (text "publicKeyHex", str (text_of w.public_key_hex))
    ∷ (text "encryptedPrivateKey", str (to_hex (ciphertext (sealed_key sealing m w))))
    ∷ (text "authTag", str (to_hex (auth_tag (sealed_key sealing m w))))
    ∷ (text "iv", str (to_hex m.iv))
    ∷ (text "salt", str (to_hex m.salt))
    ∷ (text "credentials", arr (stored_credentials w.wallet_credentials))
    ∷ (text "createdAt", json_or w.created_at (str m.created_now))
    ∷ (text "updatedAt", str m.updated_now)
    ∷ [])

-- Whether the wallet has all that `save` needs.
unfoldable pub is_complete : AgentWallet → Bool
is_complete w =
    truthy w.did_value
    && (is_set w.public_key_hex && (is_set w.private_key_hex && is_set w.passphrase))

unfoldable pub saved : SaveMoments → Text → AgentWallet → AgentWallet
saved m file_path w = record w {
  updated_at = str m.updated_now;
  created_at = json_or w.created_at (str m.created_now);
  wallet_path = some file_path;
}

-- `save`: the result, the wallet and the files.
unfoldable pub save :
    Machine → SaveMoments → Text → AgentWallet → Files → Result (Unit {0}) × AgentWallet × Files
save o m file_path w files =
    if is_complete w
    then if o.can_write file_path
      then (
        ok tt,
        saved m file_path w,
        write_text file_path (dumps_indented 0 (obj (wallet_payload o.sealing m w))) files,
      )
      else (raised (builtin (text "OSError") file_path), w, files)
    else (runtime_error (text "Wallet is missing did/keys/passphrase required to save"), w, files)

-- `bytes.fromhex(stored[k])`, with every failure as `none`.
abbrev octets_at : Text → Json → Option Bytes
octets_at k stored = elim (subscript k stored) [ ok (str s) ↦ from_hex s | _ ↦ none ]

abbrev bad_passphrase {ℓ} : {A : Type ℓ} → Result A
bad_passphrase = runtime_error (text "Invalid passphrase or corrupted wallet")

abbrev opened : Sealing → Text → (salt iv sealed tag : Option Bytes) → Result Text
opened sealing passphrase (some salt) (some iv) (some sealed) (some tag) =
    elim (sealing.decrypt (derive_key sealing passphrase salt) iv (sealed ++ tag)) [
      | none ↦ bad_passphrase
      | some plaintext ↦ elim (utf8_decode plaintext) [ none ↦ bad_passphrase | some s ↦ ok s ]
    ]
opened sealing passphrase _ _ _ _ = bad_passphrase

-- `_decrypt`: every failure is one RuntimeError.
unfoldable pub decrypt_key : Sealing → Text → Json → Result Text
unfolding subscript from_hex
decrypt_key sealing passphrase stored =
    opened sealing passphrase (octets_at (text "salt") stored) (octets_at (text "iv") stored)
      (octets_at (text "encryptedPrivateKey") stored) (octets_at (text "authTag") stored)

unfoldable pub credentials_from : Items → Result (List WalletCredential)
credentials_from nil = ok []
credentials_from (cons v vs) = from_dict v >>= λ c. credentials_from vs >>= λ cs. ok (c ∷ cs)

-- `[from_dict(c) for c in v]`: the items of a text or of a dict are texts.
unfoldable pub credentials_in : Json → Result (List WalletCredential)
unfolding credentials_from
credentials_in (arr vs) = credentials_from vs
credentials_in (str []) = ok []
credentials_in (str (c ∷ s)) =
    raised (builtin (text "TypeError") (text "string indices must be integers"))
credentials_in (obj end) = ok []
credentials_in (obj (member k v ms)) =
    raised (builtin (text "TypeError") (text "string indices must be integers"))
credentials_in v = raised (builtin (text "TypeError") (text "object is not iterable"))

-- The stored dict as a wallet, once its key is open.
unfoldable pub wallet_from :
    Machine → Bytes → Text → Text → Option HelixClient → Text → Json → Result AgentWallet
unfolding subscript
wallet_from o random wallet_path passphrase client private_key_hex stored = do
  did ← subscript (text "did") stored
  credentials ← credentials_in (member_or (text "credentials") (arr nil) stored)
  post_init o.crypto random (record {
    client = client;
    private_key_hex = some private_key_hex;
    public_key_hex = none;
    did_value = did;
    wallet_path = some wallet_path;
    passphrase = some passphrase;
    wallet_credentials = credentials;
    created_at = member_or (text "createdAt") null stored;
    updated_at = member_or (text "updatedAt") null stored;
  })

abbrev read_file : LoadsText → Option Text → Text → Result Json
read_file loads none path = raised (builtin (text "FileNotFoundError") path)
read_file loads (some content) path = elim (loads content) [ none ↦ value_error | some v ↦ ok v ]

-- `load`
unfoldable pub load :
    Machine → Bytes → Text → Text → Option HelixClient → Files → Result AgentWallet
load o random wallet_path passphrase client files = do
  stored ← read_file o.loads (files wallet_path) wallet_path
  private_key_hex ← decrypt_key o.sealing passphrase stored
  wallet_from o random wallet_path passphrase client private_key_hex stored
