-- ===== src/Wallet/Add/Valid.antt =====
-- The invariant of a wallet: its credentials are its owner's, and no two have one id.
use helix_sdk_py.Base.{
  All, All-append, Bool-cases, List, Option-cases, [], ap, arith, false, inl, inr, refl, some,
  subst, sym, true, ◌&&◌, ◌++◌, ◌∙◌, ◌∷◌, ◌≡◌,
}
use helix_sdk_py.Errors.{Result, Result-cases, bind_inversion, ok, raised, subscript}
use helix_sdk_py.Errors.Mapping.{get_or_default}
use helix_sdk_py.Http.{Env, Log, is_set}
use helix_sdk_py.Json.{Json, Members, arr, bool, get, int, nil, null, obj, str}
use helix_sdk_py.Json.Compare.{json_eq, json_eq-str_right}
use helix_sdk_py.Json.Dumps.{dumps}
use helix_sdk_py.Text.{Text, text}
use helix_sdk_py.VpTransport.{default_format}
use helix_sdk_py.Wallet.{AgentWallet, get_did, text_of}
use helix_sdk_py.Wallet.Add.{
  AddMoments, accepted, add_credential, audited, check_fresh_id, check_subject, holds_id,
  save_if_stored, with_credential,
}
use helix_sdk_py.Wallet.Credential.{
  WalletCredential, from_parsed, subject_of, text_or_none, types_of,
}
use helix_sdk_py.Wallet.Save.{Files, Machine, SaveMoments, is_complete, save, saved}

abbrev pub Distinct : List WalletCredential → Type 0
Distinct [] = Unit
Distinct (c ∷ cs) = All (λ d. json_eq c.vc_id d.vc_id ≡ false) cs × Distinct cs

pub record IsValid (owner : Text) (w : AgentWallet) : Type 0 where
  pub did : w.did_value ≡ str owner
  pub own : All (λ c. c.subject_did ≡ str owner) w.wallet_credentials
  pub distinct : Distinct w.wallet_credentials

Distinct-snoc :
    (cs : List WalletCredential) (c : WalletCredential)
    → Distinct cs
    → holds_id c.vc_id cs ≡ false
    → Distinct (cs ++ c ∷ [])
unfolding holds_id
Distinct-snoc [] c d h = (tt, tt)
Distinct-snoc (b ∷ cs) c (apart, d) h = (
  All-append (λ x. json_eq b.vc_id x.vc_id ≡ false) cs (c ∷ []) apart (ground arith, tt),
  Distinct-snoc cs c d (ground arith),
)

subscript-dict :
    (k : Text) (v w : Json)
    → subscript k v ≡ ok w
    → (ms : Members) × (v ≡ obj ms) × (get k ms ≡ some w)
unfolding subscript
subscript-dict k (obj ms) w e = (
  ms,
  refl,
  elim (Option-cases (get k ms)) [
    | inl missing ↦ absurd (cc (rw (missing, subscript) at e))
    | inr (v, found) ↦ found ∙ ap some (cc (rw (found, subscript) at e))
  ],
)
subscript-dict k null w e = absurd (cc e)
subscript-dict k (bool b) w e = absurd (cc e)
subscript-dict k (int n) w e = absurd (cc e)
subscript-dict k (str s) w e = absurd (cc e)
subscript-dict k (arr vs) w e = absurd (cc e)

from_parsed-fields :
    (now : Text) (id : Json) (vc_json : Text) (vc : Members) (c : WalletCredential)
    → from_parsed now id vc_json vc ≡ ok c
    → (c.vc_id ≡ id)
      × (c.subject_did ≡ text_or_none (get_or_default (text "id") null (subject_of vc)))
unfolding from_parsed
from_parsed-fields now id vc_json vc c e =
    let (types, e0, made) =
      bind_inversion (types_of (get_or_default (text "type") (arr nil) vc)) _ e in
    (ground arith, ground arith)

subject_of-id :
    (vc : Members) (subject : Json) (owner : Text)
    → subscript (text "credentialSubject") (obj vc) ≡ ok subject
    → subscript (text "id") subject ≡ ok (str owner)
    → text_or_none (get_or_default (text "id") null (subject_of vc)) ≡ str owner
unfolding get subscript-dict
subject_of-id vc subject owner e e' =
    let (ms, same, found) = subscript-dict (text "id") subject (str owner) e' in
    let (vs, same', found') = subscript-dict (text "credentialSubject") (obj vc) subject e in
    let this : vc ≡ vs = ground arith in rw (this, found', same, found) refl

check_subject-ok : (v did : Json) {u : Unit {0}} → check_subject v did ≡ ok u → json_eq v did ≡ true
check_subject-ok v did e = ground arith

check_fresh_id-ok :
    (id : Json) (cs : List WalletCredential) {u : Unit {0}}
    → check_fresh_id id cs ≡ ok u
    → holds_id id cs ≡ false
check_fresh_id-ok id cs e = ground arith

-- A credential that is accepted is the owner's, and its id is new.
accepted-fits :
    (now owner : Text) (vc : Members) (w : AgentWallet) (c : WalletCredential)
    → w.did_value ≡ str owner
    → accepted now vc w ≡ ok c
    → (c.subject_did ≡ str owner) × (holds_id c.vc_id w.wallet_credentials ≡ false)
unfolding accepted
accepted-fits now owner vc w c did e =
    let (_, e0, k0) = bind_inversion (get_did w) _ e in
    let (subject, e1, k1) = bind_inversion (subscript (text "credentialSubject") (obj vc)) _ k0 in
    let (subject_id, e2, k2) = bind_inversion (subscript (text "id") subject) _ k1 in
    let (_, e3, k3) = bind_inversion (check_subject subject_id w.did_value) _ k2 in
    let (id, e4, k4) = bind_inversion (subscript (text "id") (obj vc)) _ k3 in
    let (_, e5, k5) = bind_inversion (check_fresh_id id w.wallet_credentials) _ k4 in
    let (same_id, subject_did) =
      from_parsed-fields now id (dumps default_format (obj vc)) vc c k5 in
    let ours : subject_id ≡ str owner =
      json_eq-str_right subject_id owner (
        subst (λ d. json_eq subject_id d ≡ true) did
          (check_subject-ok subject_id w.did_value e3)) in
    (
      subject_did ∙ subject_of-id vc subject owner e1 (e2 ∙ ap ok ours),
      subst (λ i. holds_id i w.wallet_credentials ≡ false) (sym same_id)
          (check_fresh_id-ok id w.wallet_credentials e5),
    )

with_credential-IsValid :
    (owner : Text) (c : WalletCredential) (w : AgentWallet)
    → IsValid owner w
    → c.subject_did ≡ str owner
    → holds_id c.vc_id w.wallet_credentials ≡ false
    → IsValid owner (with_credential c w)
with_credential-IsValid owner c w v ours fresh = record {
  did = v.did;
  own = All-append (λ d. d.subject_did ≡ str owner) w.wallet_credentials (c ∷ []) v.own (ours, tt);
  distinct = Distinct-snoc w.wallet_credentials c v.distinct fresh;
}

save-IsValid :
    (owner : Text) (o : Machine) (m : SaveMoments) (path : Text) (w : AgentWallet) (files : Files)
    → IsValid owner w
    → IsValid owner (save o m path w files).1
unfolding save saved
save-IsValid owner o m path w files v = elim (Bool-cases (is_complete w)) [
  | inl full ↦ elim (Bool-cases (o.can_write path)) [
    | inl can ↦ rw (save, full, can) (record { did = v.did; own = v.own; distinct = v.distinct })
    | inr not_there ↦ rw (save, full, not_there) v
  ]
  | inr part ↦ rw (save, part) v
]

save_if_stored-IsValid :
    (owner : Text) (o : Machine) (m : SaveMoments) (w : AgentWallet) (files : Files)
    → IsValid owner w
    → IsValid owner (save_if_stored o m w files).1
unfolding save_if_stored
save_if_stored-IsValid owner o m w files v =
    elim (Bool-cases (is_set w.wallet_path && is_set w.passphrase)) [
      | inl stored ↦
          rw (save_if_stored, stored) (save-IsValid owner o m (text_of w.wallet_path) w files v)
      | inr no_file ↦ rw (save_if_stored, no_file) v
    ]

audited-wallet :
    (env : Env) (now : Text) (vc : Members) (s : Result (Unit {0}) × AgentWallet × Files)
    (log : Log)
    → (audited env now vc s log).1 ≡ s.1
audited-wallet env now vc (ok u, w, files) log = refl
audited-wallet env now vc (raised e, w, files) log = refl

add_credential-IsValid :
    (env : Env) (o : Machine) (owner : Text) (m : AddMoments) (vc : Members) (w : AgentWallet)
    (files : Files) (log : Log)
    → IsValid owner w
    → IsValid owner (add_credential env o m vc w files log).1
unfolding add_credential
add_credential-IsValid env o owner m vc w files log v =
    elim (Result-cases (accepted m.added_now vc w)) [
      | inr (x, e) ↦ rw (add_credential, e) v
      | inl (c, e) ↦
          let (ours, fresh) = accepted-fits m.added_now owner vc w c v.did e in
          rw (add_credential, e)
            (subst (IsValid owner) (sym (audited-wallet env m.granted_now vc _ log)) (
              save_if_stored-IsValid owner o m.save_moments (with_credential c w) files
                (with_credential-IsValid owner c w v ours fresh)))
    ]

-- `add_credential` for each of these in turn, whatever the others raised.
unfoldable pub add_all :
    Env → Machine → List (AddMoments × Members) → AgentWallet → Files → Log → AgentWallet
add_all env o [] w files log = w
add_all env o ((m, vc) ∷ more) w files log =
    let (_, w', files', log') = add_credential env o m vc w files log in
    add_all env o more w' files' log'

-- After any calls of `add_credential`, of which some may raise, on a wallet whose credentials are
-- its owner's and have distinct ids, that is still so.
pub add_all-IsValid :
    (env : Env) (o : Machine) (owner : Text) (calls : List (AddMoments × Members)) (w : AgentWallet)
    (files : Files) (log : Log)
    → IsValid owner w
    → IsValid owner (add_all env o calls w files log)
unfolding add_all
add_all-IsValid env o owner [] w files log v = v
add_all-IsValid env o owner ((m, vc) ∷ more) w files log v =
    let s = add_credential env o m vc w files log in
    add_all-IsValid env o owner more s.1 s.2 s.3
      (add_credential-IsValid env o owner m vc w files log v)
