-- ===== src/Wallet/Add.antt =====
-- `add_credential` and its audit, src/helix_sdk/wallet.py lines 240-274.
pub mod Valid
pub mod Refines
pub mod Quiet
pub mod Audits
use helix_sdk_py.Errors.{◌>>=◌}
use helix_sdk_py.Http
use helix_sdk_py.Base.{Bool, List, Option, [], any, if◌then◌else◌, none, some, ◌&&◌, ◌++◌, ◌∷◌}
use helix_sdk_py.Client.{HelixClient, dict}
use helix_sdk_py.Client.Credentials.{record_consent_granted_audit}
use helix_sdk_py.Errors.{Result, get_of, helix, ok, raised, subscript}
use helix_sdk_py.Errors.Credential.{
  credential_already_in_wallet_error, credential_not_for_this_agent_error,
}
use helix_sdk_py.Errors.Mapping.{get_or_default}
use helix_sdk_py.Http.{Action, Env, Log, is_set, lift, pure}
use helix_sdk_py.Json.{Json, Members, null, obj, str}
use helix_sdk_py.Json.Compare.{json_eq}
use helix_sdk_py.Json.Dumps.{dumps}
use helix_sdk_py.Text.{Text, text}
use helix_sdk_py.VpTransport.{default_format}
use helix_sdk_py.Wallet.{AgentWallet, get_did, text_of}
use helix_sdk_py.Wallet.Credential.{WalletCredential, from_parsed, is_delegation_grant_vc}
use helix_sdk_py.Wallet.Save.{Files, Machine, SaveMoments, save}

-- The times of one `add_credential`: of the credential, of the save, and of the grant.
pub record AddMoments : Type 0 where
  pub added_now : Text
  pub save_moments : SaveMoments
  pub granted_now : Text

unfoldable pub holds_id : Json → List WalletCredential → Bool
unfolding json_eq
holds_id id cs = any (λ c. json_eq c.vc_id id) cs

-- `if subject_id != did: raise …`
abbrev check_subject : Json → Json → Result (Unit {0})
check_subject subject_id did =
    if json_eq subject_id did
    then ok tt
    else raised (helix (credential_not_for_this_agent_error none))

-- `if any(c.vc_id == id for c in …): raise …`
abbrev check_fresh_id : Json → List WalletCredential → Result (Unit {0})
check_fresh_id id cs =
    if holds_id id cs then raised (helix (credential_already_in_wallet_error none)) else ok tt

-- Everything before the wallet changes: the credential that will be stored.
unfoldable pub accepted : Text → Members → AgentWallet → Result WalletCredential
accepted now vc w = do
  _ ← get_did w
  subject ← subscript (text "credentialSubject") (obj vc)
  subject_id ← subscript (text "id") subject
  _ ← check_subject subject_id w.did_value
  id ← subscript (text "id") (obj vc)
  _ ← check_fresh_id id w.wallet_credentials
  from_parsed now id (dumps default_format (obj vc)) vc

-- The keywords of the audit call.
unfoldable pub consent_entry : Text → Members → Result Members
unfolding subscript get_of
consent_entry now vc = do
  subject ← subscript (text "credentialSubject") (obj vc)
  id ← subscript (text "id") (obj vc)
  agent_did ← subscript (text "id") subject
  user_did ← get_of (text "userDid") subject
  scopes ← get_of (text "scopes") subject
  durability ← get_of (text "durability") subject
  ok (
      dict (
        (text "vcId", id)
        ∷ (text "agentDid", agent_did)
        ∷ (text "issuer", get_or_default (text "issuer") null vc)
        ∷ (text "userDid", user_did)
        ∷ (text "scopes", scopes)
        ∷ (text "durability", durability)
        ∷ (text "grantedAt", str now)
        ∷ (text "source", str (text "sdk"))
        ∷ []))

-- `try: … except Exception: pass`; the requests that were made stay made.
abbrev attempt : Action Json → Action (Unit {0})
attempt m log = (ok tt, (m log).1)

-- `_record_consent_grant`
unfoldable pub record_consent_grant : Env → Text → Members → Option HelixClient → Action (Unit {0})
record_consent_grant env now vc none = pure tt
record_consent_grant env now vc (some c) =
    if is_delegation_grant_vc vc
    then attempt (Http.◌>>=◌ (lift (consent_entry now vc)) (record_consent_granted_audit env c))
    else pure tt

abbrev pub with_credential : WalletCredential → AgentWallet → AgentWallet
with_credential c w = record w { wallet_credentials = w.wallet_credentials ++ c ∷ [] }

-- `if self.wallet_path and self.passphrase: self.save(self.wallet_path)`
unfoldable pub save_if_stored :
    Machine → SaveMoments → AgentWallet → Files → Result (Unit {0}) × AgentWallet × Files
unfolding save
save_if_stored o m w files =
    if is_set w.wallet_path && is_set w.passphrase
    then save o m (text_of w.wallet_path) w files
    else (ok tt, w, files)

-- What `_record_consent_grant` returns or raises comes out, for a credential that was stored.
abbrev audited :
    Env
    → Text
    → Members
    → Result (Unit {0}) × AgentWallet × Files
    → Log
    → Result (Unit {0}) × AgentWallet × Files × Log
audited env now vc (ok u, w, files) log =
    let (result, log') = record_consent_grant env now vc w.client log in (result, w, files, log')
audited env now vc (raised e, w, files) log = (raised e, w, files, log)

-- `add_credential`: the result, the wallet, the files and the requests. A credential that could not
-- be saved stays in the wallet.
unfoldable pub add_credential :
    Env
    → Machine
    → AddMoments
    → Members
    → AgentWallet
    → Files
    → Log
    → Result (Unit {0}) × AgentWallet × Files × Log
add_credential env o m vc w files log = elim (accepted m.added_now vc w) [
  | raised e ↦ (raised e, w, files, log)
  | ok c ↦
      audited env m.granted_now vc (save_if_stored o m.save_moments (with_credential c w) files) log
]
