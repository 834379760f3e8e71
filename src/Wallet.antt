-- ===== src/Wallet.antt =====
-- src/helix_sdk/wallet.py: the state of an `AgentWallet`, its constructor and its accessors. The
-- operations that change it are in the children.
pub mod Credential
pub mod Save
pub mod Add
pub mod Select
use helix_sdk_py.Errors.{◌>>=◌}
use helix_sdk_py.Http
use helix_sdk_py.Base.{
  Bool, List, Option, [], false, if◌then◌else◌, none, not, some, true, ◌&&◌, ◌∷◌,
}
use helix_sdk_py.Client.{HelixClient, http_required}
use helix_sdk_py.Client.Dids.{
  KeyPair, add_service_endpoint, create_did, deactivate_did, remove_service_endpoint,
}
use helix_sdk_py.Errors.{Result, builtin, ok, raised}
use helix_sdk_py.Http.{Action, Env, is_set, lift, pure}
use helix_sdk_py.Json.{Json, str, truthy}
use helix_sdk_py.KeyPairs.{Message, derive_public_key, generate_key_pair, sign_data}
use helix_sdk_py.Proof.{Crypto}
use helix_sdk_py.Text.{Bytes, Text, text}
use helix_sdk_py.Wallet.Credential.{LoadsText, WalletCredential, read_json}

-- `None` is `none`, or `null` in a field that a file may set to any value.
pub record AgentWallet : Type 0 where
  pub client : Option HelixClient
  pub private_key_hex : Option Text
  pub public_key_hex : Option Text
  pub did_value : Json
  pub wallet_path : Option Text
  pub passphrase : Option Text
  pub wallet_credentials : List WalletCredential
  pub created_at : Json
  pub updated_at : Json

abbrev pub runtime_error {ℓ} : {A : Type ℓ} → Text → Result A
runtime_error message = raised (builtin (text "RuntimeError") message)

abbrev pub text_of : Option Text → Text
text_of none = []
text_of (some s) = s

abbrev is_absent {ℓ} : {A : Type ℓ} → Option A → Bool
is_absent none = true
is_absent (some a) = false

abbrev with_pair : AgentWallet → KeyPair → AgentWallet
with_pair w pair = record w {
  private_key_hex = some pair.private_key;
  public_key_hex = some pair.public_key;
}

-- `__post_init__`; the 32 octets are for a new key.
unfoldable pub post_init : Crypto → Bytes → AgentWallet → Result AgentWallet
unfolding derive_public_key generate_key_pair
post_init crypto random w =
    if is_set w.private_key_hex
    then derive_public_key crypto (text_of w.private_key_hex)
      >>= (λ public_key. ok (record w { public_key_hex = some public_key }))
    else if not (is_absent w.client) && is_absent w.private_key_hex
    then ok (with_pair w (generate_key_pair crypto random))
    else ok w

unfoldable pub get_public_key : AgentWallet → Result Text
get_public_key w =
    if is_set w.public_key_hex
    then ok (text_of w.public_key_hex)
    else runtime_error (text "Wallet has no in-memory public key")

unfoldable pub get_private_key_hex : AgentWallet → Result Text
get_private_key_hex w =
    if is_set w.private_key_hex
    then ok (text_of w.private_key_hex)
    else runtime_error (text "Wallet has no in-memory private key")

abbrev pub no_did {ℓ} : {A : Type ℓ} → Result A
no_did =
    runtime_error
      (text "Wallet has no DID. Pass a live DID into AgentWallet or load an onboarded wallet file.")

unfoldable pub get_did : AgentWallet → Result Json
get_did w = if truthy w.did_value then ok w.did_value else no_did

-- The property `credentials`: the stored texts, read.
unfoldable pub read_credentials : LoadsText → List WalletCredential → Result (List Json)
read_credentials loads [] = ok []
read_credentials loads (c ∷ cs) =
    read_json loads c.vc_json >>= λ v. read_credentials loads cs >>= λ vs. ok (v ∷ vs)

-- `sign`
unfoldable pub sign_with_wallet : Crypto → AgentWallet → Message → Result Text
sign_with_wallet crypto w message =
    if is_set w.private_key_hex
    then sign_data crypto message (text_of w.private_key_hex)
    else runtime_error (text "Wallet has no in-memory private key")

-- A DID that is no text raises in `quote`, behind the check of the client's mode.
abbrev with_did {ℓ} : {A : Type ℓ} → HelixClient → (Text → Action A) → Json → Action A
with_did c f (str did) = f did
with_did c f v = lift (
    http_required c >>= λ _.
    raised (builtin (text "TypeError") (text "quote_from_bytes() expected bytes")))

-- The methods that pass on to the client.
module _ (env : Env) (w : AgentWallet) where
  unfoldable pub with_client {ℓ} : {A : Type ℓ} → (HelixClient → Action A) → Action A
  with_client f = elim w.client [
    | none ↦ lift (runtime_error (text "Wallet has no HelixClient"))
    | some c ↦ f c
  ]

  unfoldable pub wallet_create_did : KeyPair → Text → Action (Json × KeyPair)
  wallet_create_did pair subject_type = with_client (λ c. create_did env c pair subject_type none)

  unfoldable pub add_service : Json → Action Json
  add_service endpoint = with_client (λ c.
      Http.◌>>=◌ (lift (get_did w)) (with_did c (λ did. add_service_endpoint env c did endpoint)))

  unfoldable pub remove_service : Text → Action Json
  remove_service endpoint_id = with_client (λ c.
      Http.◌>>=◌ (lift (get_did w))
        (with_did c (λ did. remove_service_endpoint env c did endpoint_id)))

  unfoldable pub deactivate : Text → Action (Unit {0})
  deactivate reason = with_client (λ c.
      Http.◌>>=◌ (lift (get_did w))
        (with_did c (λ did. Http.◌>>=◌ (deactivate_did env c did reason) (λ _. Http.pure tt))))
