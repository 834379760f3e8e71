-- ===== src/Wallet/Add/Audits.antt =====
-- The request that reports a consent grant that was stored, `_record_consent_grant` of
-- src/helix_sdk/wallet.py.
use helix_sdk_py.Http
use helix_sdk_py.Base.{
  Bool, Option, [], false, if◌then◌else◌, refl, some, subst, sym, true, ◌++◌, ◌∷◌, ◌≡◌,
}
use helix_sdk_py.Client.{HelixClient, api_post, dict, http_required}
use helix_sdk_py.Client.Credentials.{consent_body, record_consent_granted_audit}
use helix_sdk_py.Errors.{get_of, ok, subscript}
use helix_sdk_py.Errors.Mapping.{get_or_default}
use helix_sdk_py.Http.{Action, Env, HttpAdapter, Log, Request, build_request, http_post, pure}
use helix_sdk_py.Http.Laws.{request-log}
use helix_sdk_py.Json.{Json, Members, get, null, obj, put, str}
use helix_sdk_py.Text.{Text, text, text_eq}
use helix_sdk_py.Wallet.{AgentWallet}
use helix_sdk_py.Wallet.Add.{
  AddMoments, accepted, add_credential, consent_entry, record_consent_grant, save_if_stored,
  with_credential,
}
use helix_sdk_py.Wallet.Credential.{WalletCredential, is_delegation_grant_vc}
use helix_sdk_py.Wallet.Save.{Files, Machine}

-- One more request: it posts the audit of the grant with this id to this agent, which it names as
-- the subject, too.
pub record IsAudited (a : HttpAdapter) (id agent : Json) (log log' : Log) : Type 0 where
  pub r : Request
  pub sent : Members
  pub one_more : log' ≡ r ∷ log
  pub method : r.method ≡ text "POST"
  pub url : r.url ≡ a.base_url ++ text "/v1/audit-log/consent-granted"
  pub body : r.json ≡ some (obj sent)
  pub event : get (text "eventType") sent ≡ some (str (text "CONSENT_GRANTED"))
  pub vc_id : get (text "vcId") sent ≡ some id
  pub agent_did : get (text "agentDid") sent ≡ some agent
  pub subject_did : get (text "subjectDid") sent ≡ some agent

-- The keywords for a credential with this id and this subject.
abbrev entry_of : Text → Members → Members → Json → Json → Members
entry_of now vc subject id agent = dict (
    (text "vcId", id)
    ∷ (text "agentDid", agent)
    ∷ (text "issuer", get_or_default (text "issuer") null vc)
    ∷ (text "userDid", get_or_default (text "userDid") null subject)
    ∷ (text "scopes", get_or_default (text "scopes") null subject)
    ∷ (text "durability", get_or_default (text "durability") null subject)
    ∷ (text "grantedAt", str now)
    ∷ (text "source", str (text "sdk"))
    ∷ [])

consent_entry-of :
    (now : Text) (vc subject : Members) (id agent : Json)
    → get (text "credentialSubject") vc ≡ some (obj subject)
    → get (text "id") vc ≡ some id
    → get (text "id") subject ≡ some agent
    → consent_entry now vc ≡ ok (entry_of now vc subject id agent)
unfolding consent_entry subscript get_of
consent_entry-of now vc subject id agent e f g = rw (consent_entry, subscript, e, f, g) refl

if-log :
    {A : Type 0} (b : Bool) (m n : Action A) (log log' : Log)
    → b ≡ true
    → (m log).1 ≡ log'
    → ((if b then m else n) log).1 ≡ log'
if-log true m n log log' e h = h
if-log false m n log log' e h = absurd (cc e)

api_post-log :
    (env : Env) (c : HelixClient) (a : HttpAdapter) (path : Text) (body : Option Json) (log : Log)
    → http_required c ≡ ok a
    → (api_post env c path body log).1 ≡ build_request a (text "POST") path body ∷ log
unfolding api_post http_post
api_post-log env c a path body log e =
    rw (api_post, e) (request-log env a (text "POST") path body log)

module _ (env : Env) (now : Text) (vc subject : Members) (id agent : Json) (client : HelixClient)
    (a : HttpAdapter) (log : Log) where
  -- The request.
  audit_request : Request
  audit_request =
      build_request a (text "POST") (text "/v1/audit-log/consent-granted")
        (some (obj (consent_body (entry_of now vc subject id agent))))

  record_consent_granted_audit-log :
      client.api_audit_enabled ≡ true
      → http_required client ≡ ok a
      → (record_consent_granted_audit env client (entry_of now vc subject id agent) log).1
        ≡ audit_request ∷ log
  unfolding record_consent_granted_audit audit_request
  record_consent_granted_audit-log enabled online =
      if-log client.api_audit_enabled _ (Http.pure null) log _ enabled
        (api_post-log env client a _ _ log online)

  record_consent_grant-log :
      is_delegation_grant_vc vc ≡ true
      → client.api_audit_enabled ≡ true
      → http_required client ≡ ok a
      → consent_entry now vc ≡ ok (entry_of now vc subject id agent)
      → (record_consent_grant env now vc (some client) log).1 ≡ audit_request ∷ log
  unfolding record_consent_grant
  record_consent_grant-log grant enabled online e =
      if-log (is_delegation_grant_vc vc) _ (Http.pure tt) log _ grant
        (rw e (record_consent_granted_audit-log enabled online))

  audit_request-IsAudited : IsAudited a id agent log (audit_request ∷ log)
  unfolding audit_request build_request consent_body put get text_eq
  audit_request-IsAudited = record {
    r = audit_request;
    sent = consent_body (entry_of now vc subject id agent);
    one_more = refl;
    method = refl;
    url = refl;
    body = refl;
    event = refl;
    vc_id = refl;
    agent_did = refl;
    subject_did = refl;
  }

-- If `add_credential` takes and stores a consent grant, with an id and with a subject that is a dict
-- with an id, in a wallet whose client reaches the API and audits, then it makes exactly one request,
-- whatever the server does: a POST to /v1/audit-log/consent-granted under the configured base URL,
-- whose body has the event CONSENT_GRANTED and the id of the grant, and names its subject as the agent
-- and as the subject.
pub add_credential-audits :
    (env : Env) (o : Machine) (m : AddMoments) (vc subject : Members) (id agent : Json)
    (c : WalletCredential) (w w' : AgentWallet) (files files' : Files) (client : HelixClient)
    (a : HttpAdapter) (log : Log)
    → is_delegation_grant_vc vc ≡ true
    → get (text "credentialSubject") vc ≡ some (obj subject)
    → get (text "id") vc ≡ some id
    → get (text "id") subject ≡ some agent
    → accepted m.added_now vc w ≡ ok c
    → save_if_stored o m.save_moments (with_credential c w) files ≡ (ok tt, w', files')
    → w'.client ≡ some client
    → client.api_audit_enabled ≡ true
    → http_required client ≡ ok a
    → IsAudited a id agent log (add_credential env o m vc w files log).3
unfolding add_credential
add_credential-audits env o m vc subject id agent c w w' files files' client a log grant e f g took
      stored has enabled online =
    let entry = consent_entry-of m.granted_now vc subject id agent e f g in
    subst (λ l. IsAudited a id agent log l)
      (sym (
        rw (add_credential, took, stored, has)
          (record_consent_grant-log env m.granted_now vc subject id agent client a log grant enabled
            online entry)))
      (audit_request-IsAudited env m.granted_now vc subject id agent client a log)
