-- ===== src/Tests/Wallets.antt =====
-- Key pairs and wallets on concrete values.
use helix_sdk_py.Base.{
  All, Option, [], all, ap, ap₂, arith, none, refl, replicate, some, suc, true, zero, ℕ, ◌∷◌, ◌≡◌,
}
use helix_sdk_py.Client.{helix_client, http_required, resolve_base_url}
use helix_sdk_py.Client.Credentials.{record_consent_granted_audit}
use helix_sdk_py.Errors.{ok, subscript}
use helix_sdk_py.Http.{http_adapter}
use helix_sdk_py.Http.Url.Utf8.{is_scalar}
use helix_sdk_py.Json.{Json, Members, arr, end, get, item_in, member, null, obj, str, texts, truthy}
use helix_sdk_py.Json.Compare.{json_eq}
use helix_sdk_py.Json.Loads.{json_loads}
use helix_sdk_py.Json.Loads.Parsed.{HavePlain}
use helix_sdk_py.KeyPairs.{
  derive_public_key, generate_key_pair, message_octets, of_text, sign_data, verify_message,
}
use helix_sdk_py.KeyPairs.Consistent.{generate_key_pair-consistent}
use helix_sdk_py.Tests.{
  answering, api_client, octets_of, octets_of-IsByte, private_key, private_key_lem, seed_octets,
  toy_crypto, toy_crypto-IsSound,
}
use helix_sdk_py.Text.{Bytes, Text, text, text_eq}
use helix_sdk_py.Text.Hex.{IsByte, to_hex}
use helix_sdk_py.VpBuilder.{has_type}
use helix_sdk_py.Wallet.{AgentWallet, get_did}
use helix_sdk_py.Wallet.Add.{
  AddMoments, accepted, add_credential, holds_id, record_consent_grant, save_if_stored,
}
use helix_sdk_py.Wallet.Add.Audits.{IsAudited, add_credential-audits}
use helix_sdk_py.Wallet.Add.Quiet.{add_credential-ignores_server, seen}
use helix_sdk_py.Wallet.Add.Refines.{add_credential-refines, outcome, spec_add, view}
use helix_sdk_py.Wallet.Add.Valid.{IsValid, add_all, add_all-IsValid}
use helix_sdk_py.Wallet.Credential.{
  LoadsText, WalletCredential, from_parsed, is_delegation_grant_vc, to_dict, types_of,
}
use helix_sdk_py.Wallet.Save.{
  Files, Machine, SaveMoments, Sealing, is_complete, load, save, saved, stored_credentials,
}
use helix_sdk_py.Wallet.Save.Reads.{IsPlainWallet, load-save_json}
use helix_sdk_py.Wallet.Save.RoundTrip.{IsSealing}
use helix_sdk_py.Wallet.Select.{get_latest_credential, select_grant}
use helix_sdk_py.Wallet.Select.Latest.{IsNewestOf}
use helix_sdk_py.Wallet.Select.Newest.{
  IsStored, get_latest_credential-IsNewestOf, select_grant-IsNewestOf,
}

abbrev random_octets : Bytes
random_octets = replicate 32 7

replicate-octets : (n b : ℕ) → IsByte b → All IsByte (replicate n b)
replicate-octets zero b h = tt
replicate-octets (suc n) b h = (h, replicate-octets n b h)

generate_key_pair-consistent_example :
    (derive_public_key toy_crypto (generate_key_pair toy_crypto random_octets).private_key
      ≡ ok (generate_key_pair toy_crypto random_octets).public_key)
    × (signature : Text) × (sign_data toy_crypto
          (of_text (text "hé"))
          (generate_key_pair toy_crypto random_octets).private_key
        ≡ ok signature)
    × (verify_message toy_crypto
          (message_octets (of_text (text "hé")))
          signature
          (generate_key_pair toy_crypto random_octets).public_key
        ≡ true)
generate_key_pair-consistent_example =
    generate_key_pair-consistent toy_crypto toy_crypto-IsSound random_octets (of_text (text "hé"))
      (replicate-octets 32 7 (omega arith)) refl

octets_of-octets : (bs : Bytes) → All IsByte bs → octets_of bs ≡ bs
octets_of-octets [] h = refl
octets_of-octets (b ∷ bs) (p, h) = ap₂ (λ c cs. c ∷ cs) (omega arith) (octets_of-octets bs h)

-- A sealing that hides nothing.
abbrev toy_sealing : Sealing
toy_sealing = record {
  pbkdf2 = λ size iterations salt passphrase. passphrase;
  encrypt = λ key iv message. octets_of message;
  decrypt = λ key iv sealed. some sealed;
}

toy_sealing-IsSealing : IsSealing toy_sealing
toy_sealing-IsSealing = record {
  octets = λ key iv message. octets_of-IsByte message;
  opens = λ key iv message h. ap some (octets_of-octets message h);
}

abbrev moments : SaveMoments
moments = record {
  salt = replicate 16 1;
  iv = replicate 12 2;
  created_now = text "2025-01-01T00:00:00+00:00";
  updated_now = text "2025-01-02T00:00:00+00:00";
}

abbrev owner : Text
owner = text "did:web:a"

abbrev grant_of : Text → Text → WalletCredential
grant_of id added_at = record {
  vc_id = str id;
  vc_json = str (text "{}");
  type = arr (texts (text "DelegationGrantCredential" ∷ []));
  added_at = str added_at;
  updated_at = str added_at;
  issuer = str (text "did:web:i");
  subject_did = str owner;
}

abbrev old_grant : WalletCredential
old_grant = grant_of (text "vc1") (text "2025-01-01")

abbrev new_grant : WalletCredential
new_grant = grant_of (text "vc2") (text "2025-01-03")

abbrev two_grants : AgentWallet
two_grants = record {
  client = some api_client;
  private_key_hex = some private_key;
  public_key_hex = some (text "ab");
  did_value = str owner;
  wallet_path = none;
  passphrase = some (text "secret");
  wallet_credentials = old_grant ∷ new_grant ∷ [];
  created_at = null;
  updated_at = null;
}

-- The parsed form that every text is given here.
abbrev user_subject : Json
user_subject =
    obj (
      member (text "credentialSubject") (obj (member (text "userDid") (str (text "did:u")) end))
        end)

abbrev machine : Machine
machine = record {
  crypto = toy_crypto;
  sealing = toy_sealing;
  loads = json_loads;
  can_write = λ path. true;
}

no_files : Files
no_files path = none

grant_of-HavePlain :
    (id added_at : Text)
    → all is_scalar id ≡ true
    → all is_scalar added_at ≡ true
    → HavePlain (to_dict (grant_of id added_at))
unfolding to_dict texts get text_eq
grant_of-HavePlain id added_at h k = (
  refl,
  refl,
  h,
  (
    refl,
    refl,
    refl,
    (
      refl,
      refl,
      (refl, tt),
      (refl, refl, k, (refl, refl, k, (refl, refl, refl, (refl, refl, refl, tt)))),
    ),
  ),
)

two_grants-IsPlainWallet : IsPlainWallet moments two_grants
unfolding stored_credentials
two_grants-IsPlainWallet = record {
  did = refl;
  public_key = refl;
  credentials = (
    grant_of-HavePlain (text "vc1") (text "2025-01-01") refl refl,
    (grant_of-HavePlain (text "vc2") (text "2025-01-03") refl refl, tt),
  );
  created = tt;
  created_now = refl;
  updated_now = refl;
}

load-save_json_example :
    (files : Files) × (save machine moments (text "w.json") two_grants no_files
      ≡ (ok tt, saved moments (text "w.json") two_grants, files))
    × (load (record machine { loads = json_loads }) [] (text "w.json") (text "secret") none files
        ≡ ok (record (saved moments (text "w.json") two_grants) {
          client = none;
          private_key_hex = some private_key;
          public_key_hex = some (to_hex (octets_of seed_octets));
          passphrase = some (text "secret");
        }))
unfolding is_complete derive_public_key truthy
load-save_json_example =
    load-save_json machine toy_sealing-IsSealing moments two_grants (text "w.json") (text "secret")
      private_key (to_hex (octets_of seed_octets)) [] none no_files refl refl refl refl
      (replicate-octets 16 1 (omega arith)) (replicate-octets 12 2 (omega arith)) refl
      (rw (derive_public_key, private_key_lem) refl) two_grants-IsPlainWallet

abbrev new_vc : Text → Members
new_vc id =
    member (text "id") (str id)
      (member (text "credentialSubject") (obj (member (text "id") (str owner) end)) end)

abbrev times : AddMoments
times = record {
  added_now = text "2025-02-01";
  save_moments = moments;
  granted_now = text "2025-02-01";
}

two_grants-IsValid : IsValid owner two_grants
unfolding json_eq text_eq
two_grants-IsValid = record {
  did = refl;
  own = (refl, (refl, tt));
  distinct = ((refl, tt), (tt, tt));
}

add_all-IsValid_example : IsValid owner (
    add_all
      (answering 500 null)
      machine
      ((times, new_vc (text "vc3")) ∷ (times, new_vc (text "vc1")) ∷ [])
      two_grants
      no_files
      [])
add_all-IsValid_example =
    add_all-IsValid (answering 500 null) machine owner
      ((times, new_vc (text "vc3")) ∷ (times, new_vc (text "vc1")) ∷ []) two_grants no_files []
      two_grants-IsValid

add_credential-refines_example :
    outcome (
      add_credential
        (answering 500 null)
        machine
        times
        (new_vc (text "vc3"))
        two_grants
        no_files
        [])
    ≡ spec_add
        (save_if_stored machine moments two_grants no_files).0
        (str owner)
        (str (text "vc3"))
        (view two_grants)
unfolding subscript get text_eq types_of
add_credential-refines_example =
    add_credential-refines (answering 500 null) machine times (new_vc (text "vc3"))
      (obj (member (text "id") (str owner) end)) (str owner) (str (text "vc3")) [] two_grants
      no_files [] refl refl refl refl

-- A consent grant for the agent, so that adding it is audited.
abbrev new_grant_vc : Members
new_grant_vc =
    member (text "type") (arr (texts (text "DelegationGrantCredential" ∷ []))) (new_vc (text "vc3"))

add_credential-ignores_server_example :
    ((record_consent_granted_audit (answering 500 null) api_client new_grant_vc []).0 ≡ ok null)
    × ((record_consent_grant
          (answering 500 null)
          (text "2025-02-01")
          new_grant_vc
          (some api_client)
          []).0
        ≡ ok tt)
    × (seen (add_credential (answering 500 null) machine times new_grant_vc two_grants no_files [])
        ≡ seen
            (add_credential (answering 200 null) machine times new_grant_vc two_grants no_files []))
add_credential-ignores_server_example =
    add_credential-ignores_server (answering 500 null) (answering 200 null) machine times api_client
      new_grant_vc new_grant_vc two_grants no_files [] []

abbrev loads_user : LoadsText
loads_user s = some user_subject

-- The newest grant, of another issuer.
abbrev foreign_grant : WalletCredential
foreign_grant = record (grant_of (text "vc4") (text "2025-01-09")) {
  issuer = str (text "did:web:j");
}

abbrev three_grants : AgentWallet
three_grants = record two_grants { wallet_credentials = old_grant ∷ foreign_grant ∷ new_grant ∷ [] }

grant_of-IsStored :
    (id added_at : Text) (issuer : Json)
    → IsStored loads_user (record (grant_of id added_at) { issuer = issuer })
unfolding texts get text_eq
grant_of-IsStored id added_at issuer = record {
  types = texts (text "DelegationGrantCredential" ∷ []);
  stored = text "{}";
  parsed =
      member (text "credentialSubject") (obj (member (text "userDid") (str (text "did:u")) end))
        end;
  subject = member (text "userDid") (str (text "did:u")) end;
  has_types = refl;
  has_stored = refl;
  reads = refl;
  has_subject = refl;
}

select_grant-IsNewestOf_example :
    (r : Option WalletCredential) × (select_grant loads_user
        (text "did:web:i")
        (text "did:u")
        three_grants
      ≡ ok r)
    × IsNewestOf (old_grant ∷ new_grant ∷ []) r
unfolding item_in texts text_eq get
select_grant-IsNewestOf_example =
    select_grant-IsNewestOf loads_user (text "did:web:i") (text "did:u") three_grants
      (
        grant_of-IsStored (text "vc1") (text "2025-01-01") (str (text "did:web:i")),
        (
          grant_of-IsStored (text "vc4") (text "2025-01-09") (str (text "did:web:j")),
          (grant_of-IsStored (text "vc2") (text "2025-01-03") (str (text "did:web:i")), tt),
        ),
      )
      (refl, (refl, (refl, tt)))

get_latest_credential-IsNewestOf_example :
    (r : Option WalletCredential) × (get_latest_credential
        (some (text "DelegationGrantCredential"))
        three_grants
      ≡ ok r)
    × IsNewestOf (old_grant ∷ foreign_grant ∷ new_grant ∷ []) r
unfolding item_in texts text_eq
get_latest_credential-IsNewestOf_example =
    get_latest_credential-IsNewestOf (some (text "DelegationGrantCredential")) three_grants
      ((_, refl), ((_, refl), ((_, refl), tt))) (refl, (refl, (refl, tt)))

add_credential-audits_example :
    IsAudited
      (http_adapter (text "https://api.test/") (some (text "admin")) none 30)
      (str (text "vc3"))
      (str owner)
      []
      (add_credential (answering 500 null) machine times new_grant_vc two_grants no_files []).3
unfolding is_delegation_grant_vc has_type get item_in text_eq texts accepted subscript types_of
    save_if_stored helix_client resolve_base_url http_required get_did truthy json_eq holds_id
    from_parsed
add_credential-audits_example =
    add_credential-audits (answering 500 null) machine times new_grant_vc
      (member (text "id") (str owner) end) (str (text "vc3")) (str owner) _ two_grants _ no_files
      no_files api_client (http_adapter (text "https://api.test/") (some (text "admin")) none 30) []
      refl refl refl refl refl refl refl refl refl
