-- ===== src/Wallet/Add/Refines.antt =====
-- The abstract wallet behind `add_credential`, src/helix_sdk/wallet.py lines 240-252: an owner and a
-- set of credential ids.
use helix_sdk_py.Base.{
  Bool, Bool-cases, List, [], ap, arith, if◌then◌else◌, inl, inr, none, refl, ◌&&◌, ◌++◌, ◌||◌, ◌∙◌,
  ◌∷◌, ◌≡◌,
}
use helix_sdk_py.Errors.{Result, helix, ok, raised, subscript}
use helix_sdk_py.Errors.Credential.{
  credential_already_in_wallet_error, credential_not_for_this_agent_error,
}
use helix_sdk_py.Errors.Mapping.{get_or_default}
use helix_sdk_py.Http.{Env, Log, is_set}
use helix_sdk_py.Json.{Json, Members, arr, nil, obj, truthy}
use helix_sdk_py.Json.Compare.{json_eq}
use helix_sdk_py.Text.{Text, text}
use helix_sdk_py.Wallet.{AgentWallet, get_did, no_did, text_of}
use helix_sdk_py.Wallet.Add.{
  AddMoments, accepted, add_credential, audited, holds_id, save_if_stored, with_credential,
}
use helix_sdk_py.Wallet.Add.Quiet.{seen-audited}
use helix_sdk_py.Wallet.Credential.{WalletCredential, from_parsed, types_of}
use helix_sdk_py.Wallet.Save.{Files, Machine, SaveMoments, is_complete, save, saved}

-- What is seen of a wallet here: its DID, and of which values there is a credential with this id.
pub record WalletView : Type 0 where
  pub owner : Json
  pub holds : Json → Bool

abbrev pub view : AgentWallet → WalletView
view w = record { owner = w.did_value; holds = λ k. holds_id k w.wallet_credentials }

-- A credential is taken if there is an owner, it is the owner's and its id is new; the outcome of
-- storing the wallet is then the result.
abbrev pub spec_add :
    Result (Unit {0}) → (subject_id id : Json) → WalletView → Result (Unit {0}) × WalletView
spec_add stored subject_id id v =
    if truthy v.owner
    then if json_eq subject_id v.owner
      then if v.holds id
        then (raised (helix (credential_already_in_wallet_error none)), v)
        else (stored, record v { holds = λ k. v.holds k || json_eq id k })
      else (raised (helix (credential_not_for_this_agent_error none)), v)
    else (no_did, v)

-- The concrete result and wallet, as the abstract one sees them.
abbrev pub outcome : Result (Unit {0}) × AgentWallet × Files × Log → Result (Unit {0}) × WalletView
outcome (r, w, files, log) = (r, view w)

outcome_stored : Result (Unit {0}) × AgentWallet × Files → Result (Unit {0}) × WalletView
outcome_stored (r, w, files) = (r, view w)

outcome-audited :
    (env : Env) (now : Text) (vc : Members) (s : Result (Unit {0}) × AgentWallet × Files)
    (log : Log)
    → outcome (audited env now vc s log) ≡ outcome_stored s
unfolding outcome_stored
outcome-audited env now vc s log = ap outcome_stored (seen-audited env now vc s log)

holds_id-snoc :
    (k : Json) (cs : List WalletCredential) (c : WalletCredential)
    → holds_id k (cs ++ c ∷ []) ≡ (holds_id k cs || json_eq c.vc_id k)
unfolding holds_id
holds_id-snoc k [] c = ground arith
holds_id-snoc k (b ∷ cs) c = ground (arith, holds_id-snoc k cs c)

view-with_credential :
    (c : WalletCredential) (w : AgentWallet) (id : Json)
    → c.vc_id ≡ id
    → view (with_credential c w)
      ≡ record (view w) { holds = λ k. holds_id k w.wallet_credentials || json_eq id k }
view-with_credential c w id e i = record {
  owner = w.did_value;
  holds = λ k.
      (holds_id-snoc k w.wallet_credentials c
          ∙ ap (λ x. holds_id k w.wallet_credentials || json_eq x k) e)
        i;
}

-- Saving does not read the credentials to see if it can be done, and changes nothing that is seen.
save_if_stored-view :
    (o : Machine) (m : SaveMoments) (c : WalletCredential) (w : AgentWallet) (files : Files)
    → outcome_stored (save_if_stored o m (with_credential c w) files)
      ≡ ((save_if_stored o m w files).0, view (with_credential c w))
unfolding save_if_stored save saved is_complete outcome_stored
save_if_stored-view o m c w files =
    elim (Bool-cases (is_set w.wallet_path && is_set w.passphrase)) [
      | inr no_file ↦ rw (save_if_stored, no_file) refl
      | inl stored ↦ elim (Bool-cases (is_complete w)) [
        | inr part ↦ rw (save_if_stored, stored, save, part) refl
        | inl full ↦ elim (Bool-cases (o.can_write (text_of w.wallet_path))) [
          | inl can ↦ rw (save_if_stored, stored, save, full, can) refl
          | inr not_there ↦ rw (save_if_stored, stored, save, full, not_there) refl
        ]
      ]
    ]

-- For a credential with a subject, an id and readable types, `add_credential` does to the owner and
-- the ids what the abstract wallet does, errors included, where the outcome of storing is that of
-- storing this wallet.
pub add_credential-refines :
    (env : Env) (o : Machine) (m : AddMoments) (vc : Members) (subject subject_id id : Json)
    (types : List Text) (w : AgentWallet) (files : Files) (log : Log)
    → subscript (text "credentialSubject") (obj vc) ≡ ok subject
    → subscript (text "id") subject ≡ ok subject_id
    → subscript (text "id") (obj vc) ≡ ok id
    → types_of (get_or_default (text "type") (arr nil) vc) ≡ ok types
    → outcome (add_credential env o m vc w files log)
      ≡ spec_add (save_if_stored o m.save_moments w files).0 subject_id id (view w)
unfolding add_credential accepted get_did from_parsed
add_credential-refines env o m vc subject subject_id id types w files log e e' e'' t =
    elim (Bool-cases (truthy w.did_value)) [
      | inr nobody ↦ rw (add_credential, accepted, get_did, nobody) refl
      | inl somebody ↦ elim (Bool-cases (json_eq subject_id w.did_value)) [
        | inr other ↦ rw (add_credential, accepted, get_did, somebody, e, e', other) refl
        | inl ours ↦ elim (Bool-cases (holds_id id w.wallet_credentials)) [
          | inl old ↦ rw (add_credential, accepted, get_did, somebody, e, e', ours, e'', old) refl
          | inr fresh ↦
              rw
                (
                  add_credential, accepted, get_did, somebody, e, e', ours, e'', fresh, from_parsed,
                  t,
                )
                (outcome-audited env m.granted_now vc _ log
                  ∙ save_if_stored-view o m.save_moments _ w files
                  ∙ ap (λ v. ((save_if_stored o m.save_moments w files).0, v))
                      (view-with_credential _ w id refl))
        ]
      ]
    ]
