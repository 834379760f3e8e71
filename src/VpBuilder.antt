-- ===== src/VpBuilder.antt =====
-- src/helix_sdk/vp_builder.py. Credentials are dicts; the random values and the times of a signature
-- are arguments.
pub mod Accepts
pub mod Signed
use helix_sdk_py.Errors.{◌>>=◌}
use helix_sdk_py.Base.{
  Bool, List, Option, [], false, if◌then◌else◌, keep, length, ltb, none, not, some, ◌++◌, ◌+◌, ◌==◌,
  ◌||◌, ◌∷◌,
}
use helix_sdk_py.Client.{dict, put_given, text_json}
use helix_sdk_py.Errors.{Exception, Result, helix, ok, raised}
use helix_sdk_py.Errors.Presentation.{vp_invalid_structure_error}
use helix_sdk_py.Json.{Items, Members, arr, cons, get, item_in, nil, obj, put, str, texts}
use helix_sdk_py.Proof.{Crypto, DateTime, create_ed25519_proof, to_iso_z}
use helix_sdk_py.Text.{Bytes, Text, text}
use helix_sdk_py.Text.Hex.{to_hex}

-- `isinstance(vc.get("type"), list) and name in vc["type"]`
unfoldable pub has_type : Text → Members → Bool
unfolding get item_in
has_type name vc = elim (get (text "type") vc) [
  | none ↦ false
  | some (arr types) ↦ item_in name types
  | some _ ↦ false
]

unfoldable pub is_agent_authority_type : Members → Bool
unfolding has_type
is_agent_authority_type vc = has_type (text "HelixAgentCredential") vc

unfoldable pub is_grant_type : Members → Bool
unfolding has_type
is_grant_type vc = has_type (text "DelegationGrantCredential") vc

pub record VpBuilder : Type 0 where
  pub credentials : List Members
  pub holder_did : Text
  pub target_service : Text
  pub user_did : Option Text

abbrev no_credential : Exception
no_credential =
    helix (vp_invalid_structure_error (some (str (text "VP must carry at least one credential"))))

abbrev bad_credentials : Exception
bad_credentials = helix (
    vp_invalid_structure_error (
      some (
        str (
          text
            "VP credential array must contain at least one agent-authority credential, and otherwise only consent grants"))))

-- `__post_init__`, on the lists of agent and of grant entries.
unfoldable pub check_credentials : List Members → Result (Unit {0})
check_credentials credentials =
    let agents = length (keep is_agent_authority_type credentials) in
    let grants = length (keep is_grant_type credentials) in
    if ltb (length credentials) 1
    then raised no_credential
    else if ltb agents 1 || not (agents + grants == length credentials)
    then raised bad_credentials
    else ok tt

-- `VPBuilder(credentials, holder_did, target_service, user_did)`
unfoldable pub vp_builder : List Members → Text → Text → Option Text → Result VpBuilder
unfolding check_credentials
vp_builder credentials holder_did target_service user_did = check_credentials credentials >>= (λ _.
    ok (record {
      credentials = credentials;
      holder_did = holder_did;
      target_service = target_service;
      user_did = user_did;
    }))

-- `VPBuilderSignOverrides`
pub record SignOverrides : Type 0 where
  pub id : Option Text
  pub nonce : Option Text
  pub expires_at : Option DateTime
  pub proof_created_at : Option DateTime

-- What `sign` reads of its surroundings: a random UUID, 32 random octets, the time in five minutes
-- and the time of the proof.
pub record Surroundings : Type 0 where
  pub uuid : Text
  pub random : Bytes
  pub in_five_minutes : DateTime
  pub now : DateTime

-- `override or default` of texts.
abbrev pub text_or : Option Text → Text → Text
text_or none default = default
text_or (some []) default = default
text_or (some (c ∷ s)) default = c ∷ s

abbrev pub time_or : Option DateTime → DateTime → DateTime
time_or none default = default
time_or (some t) default = t

unfoldable pub credential_items : List Members → Items
credential_items [] = nil
credential_items (vc ∷ vcs) = cons (obj vc) (credential_items vcs)

-- The presentation before it gets its proof; without a user the key `delegatedBy` is absent.
unfoldable pub vp_payload : VpBuilder → SignOverrides → Surroundings → Members
unfolding put put_given to_iso_z to_hex
vp_payload b o s = put (text "targetService") (str b.target_service) (
    put_given (text "delegatedBy") (text_json b.user_did) (
      dict (
        (text "@context", arr (texts (text "https://www.w3.org/ns/credentials/v2" ∷ [])))
        ∷ (text "type", arr (texts (text "VerifiablePresentation" ∷ [])))
        ∷ (text "id", str (text_or o.id (text "vp:helix:" ++ s.uuid)))
        ∷ (text "holder", str b.holder_did)
        ∷ (text "verifiableCredential", arr (credential_items b.credentials))
        ∷ (text "nonce", str (text_or o.nonce (to_hex s.random)))
        ∷ (text "expirationDate", str (to_iso_z (time_or o.expires_at s.in_five_minutes)))
        ∷ [])))

-- `VPBuilder.sign`
unfoldable pub sign_presentation :
    Crypto → VpBuilder → Text → Text → SignOverrides → Surroundings → Result Members
sign_presentation crypto b private_key_hex method o s = do
  proof ←
      create_ed25519_proof crypto (obj (vp_payload b o s)) private_key_hex method
        (time_or o.proof_created_at s.now)
  ok (put (text "proof") (obj proof) (vp_payload b o s))
