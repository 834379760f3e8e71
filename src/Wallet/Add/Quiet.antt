-- ===== src/Wallet/Add/Quiet.antt =====
-- The audit of a consent grant never shows.
use helix_sdk_py.Http
use helix_sdk_py.Base.{
  Bool, Option, ap, false, if◌then◌else◌, inl, inr, none, refl, some, sym, true, ◌∙◌, ◌≡◌,
}
use helix_sdk_py.Client.{HelixClient}
use helix_sdk_py.Client.Credentials.{record_consent_granted_audit}
use helix_sdk_py.Errors.{Result, Result-cases, ok, raised}
use helix_sdk_py.Http.{Action, Env, Log, pure}
use helix_sdk_py.Json.{Members, null}
use helix_sdk_py.Text.{Text}
use helix_sdk_py.Wallet.{AgentWallet}
use helix_sdk_py.Wallet.Add.{AddMoments, accepted, add_credential, audited, record_consent_grant}
use helix_sdk_py.Wallet.Credential.{is_delegation_grant_vc}
use helix_sdk_py.Wallet.Save.{Files, Machine}

-- What a caller sees: the result, the wallet and the files.
abbrev pub seen :
    Result (Unit {0}) × AgentWallet × Files × Log → Result (Unit {0}) × AgentWallet × Files
seen (r, w, files, log) = (r, w, files)

if-result :
    {A : Type 0} (b : Bool) (m n : Action A) (r : Result A) (log : Log)
    → (m log).0 ≡ r
    → (n log).0 ≡ r
    → ((if b then m else n) log).0 ≡ r
if-result true m n r log h k = h
if-result false m n r log h k = k

record_consent_granted_audit-quiet :
    (env : Env) (c : HelixClient) (entry : Members) (log : Log)
    → (record_consent_granted_audit env c entry log).0 ≡ ok null
unfolding record_consent_granted_audit
record_consent_granted_audit-quiet env c entry log =
    if-result c.api_audit_enabled _ (Http.pure null) (ok null) log refl refl

pub record_consent_grant-quiet :
    (env : Env) (now : Text) (vc : Members) (client : Option HelixClient) (log : Log)
    → (record_consent_grant env now vc client log).0 ≡ ok tt
unfolding record_consent_grant
record_consent_grant-quiet env now vc none log = refl
record_consent_grant-quiet env now vc (some c) log =
    if-result (is_delegation_grant_vc vc) _ (Http.pure tt) (ok tt) log refl refl

pub seen-audited :
    (env : Env) (now : Text) (vc : Members) (s : Result (Unit {0}) × AgentWallet × Files)
    (log : Log)
    → seen (audited env now vc s log) ≡ s
seen-audited env now vc (ok u, w, files) log =
    ap (λ r. (r, w, files)) (record_consent_grant-quiet env now vc w.client log)
seen-audited env now vc (raised e, w, files) log = refl

-- The audit of a consent grant never shows: the client's call returns None whatever happens, the
-- wallet's returns None for any dict, with a subject or without, and any client, and adding a
-- credential has the same result and leaves the same wallet and the same files, whatever the API
-- answers, or if it cannot be reached, and whatever was sent before.
pub add_credential-ignores_server :
    (env env' : Env) (o : Machine) (m : AddMoments) (c : HelixClient) (entry vc : Members)
    (w : AgentWallet) (files : Files) (log log' : Log)
    → ((record_consent_granted_audit env c entry log).0 ≡ ok null)
      × ((record_consent_grant env m.granted_now vc (some c) log).0 ≡ ok tt)
      × (seen (add_credential env o m vc w files log)
          ≡ seen (add_credential env' o m vc w files log'))
unfolding add_credential
add_credential-ignores_server env env' o m c entry vc w files log log' = (
  record_consent_granted_audit-quiet env c entry log,
  record_consent_grant-quiet env m.granted_now vc (some c) log,
  elim (Result-cases (accepted m.added_now vc w)) [
    | inl (c, e) ↦
        rw (add_credential, e)
          (seen-audited env m.granted_now vc _ log
            ∙ sym (seen-audited env' m.granted_now vc _ log'))
    | inr (x, e) ↦ rw (add_credential, e) refl
  ],
)
