-- ===== src/Wallet/Save/Stored.antt =====
-- The stored form of credentials, there and back.
use helix_sdk_py.Base.{List, [], inl, inr, none, refl, some, ◌∷◌, ◌≡◌, ◌⊎◌}
use helix_sdk_py.Errors.{ok}
use helix_sdk_py.Json.{Json, arr, bool, get, int, null, obj, put, str}
use helix_sdk_py.Text.{text_eq}
use helix_sdk_py.Wallet.Credential.{WalletCredential, from_dict, not_none, to_dict}
use helix_sdk_py.Wallet.Save.{credentials_from, stored_credentials}

not_none-cases : (v : Json) → ((v ≡ null) × (not_none v ≡ none)) ⊎ (not_none v ≡ some v)
not_none-cases null = inl (refl, refl)
not_none-cases (bool b) = inr refl
not_none-cases (int n) = inr refl
not_none-cases (str s) = inr refl
not_none-cases (arr vs) = inr refl
not_none-cases (obj ms) = inr refl

from_dict-to_dict_fields :
    (vc_id vc_json type added_at updated_at issuer subject_did : Json)
    → let c : WalletCredential = record {
      vc_id = vc_id;
      vc_json = vc_json;
      type = type;
      added_at = added_at;
      updated_at = updated_at;
      issuer = issuer;
      subject_did = subject_did;
    } in
      from_dict (obj (to_dict c)) ≡ ok c
unfolding from_dict to_dict put get text_eq
from_dict-to_dict_fields a b t x y i s = elim (not_none-cases i) [
  | inl (no_issuer, e) ↦ elim (not_none-cases s) [
    | inl (no_subject, e') ↦ rw (no_issuer, no_subject) refl
    | inr e' ↦ rw (no_issuer, e') refl
  ]
  | inr e ↦ elim (not_none-cases s) [
    | inl (no_subject, e') ↦ rw (e, no_subject) refl
    | inr e' ↦ rw (e, e') refl
  ]
]

-- Whatever its fields, a credential comes back from its dict.
pub from_dict-to_dict : (c : WalletCredential) → from_dict (obj (to_dict c)) ≡ ok c
from_dict-to_dict c =
    from_dict-to_dict_fields c.vc_id c.vc_json c.type c.added_at c.updated_at c.issuer c.subject_did

pub credentials_from-stored :
    (cs : List WalletCredential) → credentials_from (stored_credentials cs) ≡ ok cs
unfolding credentials_from stored_credentials
credentials_from-stored [] = refl
credentials_from-stored (c ∷ cs) =
    rw (from_dict-to_dict c, credentials_from, credentials_from-stored cs)
