-- ===== src/Wallet/Credential.antt =====
-- `WalletCredential`, src/helix_sdk/wallet.py lines 49-106. Its fields are JSON values, since
-- `from_dict` takes them from a file as they are; `null` stands for None.
use helix_sdk_py.Errors.{◌>>=◌}
use helix_sdk_py.Base.{Bool, List, Option, [], none, some, ◌∷◌}
use helix_sdk_py.Client.{dict, put_given}
use helix_sdk_py.Errors.{Result, builtin, ok, raised, subscript}
use helix_sdk_py.Errors.Mapping.{get_or_default}
use helix_sdk_py.Json.{
  Items, Json, Members, arr, cons, end, get, member, nil, null, obj, str, texts,
}
use helix_sdk_py.Json.Dumps.{dumps}
use helix_sdk_py.Proof.{value_error}
use helix_sdk_py.Text.{Text, text}
use helix_sdk_py.VpBuilder.{has_type}
use helix_sdk_py.VpTransport.{default_format}

-- `json.loads` of a `str`, with `none` for its ValueError.
abbrev pub LoadsText : Type 0
LoadsText = Text → Option Json

pub record WalletCredential : Type 0 where
  pub vc_id : Json
  pub vc_json : Json
  pub type : Json
  pub added_at : Json
  pub updated_at : Json
  pub issuer : Json
  pub subject_did : Json

-- A value that is set only if it is not None.
abbrev pub not_none : Json → Option Json
not_none null = none
not_none v = some v

unfoldable pub to_dict : WalletCredential → Members
unfolding put_given
to_dict c = put_given (text "subjectDid") (not_none c.subject_did) (
    put_given (text "issuer") (not_none c.issuer) (
      dict (
        (text "vcId", c.vc_id)
        ∷ (text "vcJson", c.vc_json)
        ∷ (text "type", c.type)
        ∷ (text "addedAt", c.added_at)
        ∷ (text "updatedAt", c.updated_at)
        ∷ [])))

-- `d.get(k, default)` where another key of `d` was read, so that `d` is a dict.
abbrev pub member_or : Text → Json → Json → Json
member_or k default (obj ms) = get_or_default k default ms
member_or k default v = default

unfoldable pub from_dict : Json → Result WalletCredential
unfolding subscript
from_dict d = do
  vc_id ← subscript (text "vcId") d
  vc_json ← subscript (text "vcJson") d
  added_at ← subscript (text "addedAt") d
  updated_at ← subscript (text "updatedAt") d
  ok (record {
    vc_id = vc_id;
    vc_json = vc_json;
    type = member_or (text "type") (arr nil) d;
    added_at = added_at;
    updated_at = updated_at;
    issuer = member_or (text "issuer") null d;
    subject_did = member_or (text "subjectDid") null d;
  })

-- The items that are texts.
abbrev texts_among : Items → List Text
texts_among nil = []
texts_among (cons (str s) vs) = s ∷ texts_among vs
texts_among (cons _ vs) = texts_among vs

abbrev keys_of : Members → List Text
keys_of end = []
keys_of (member k v ms) = k ∷ keys_of ms

abbrev characters : Text → List Text
characters [] = []
characters (c ∷ s) = (c ∷ []) ∷ characters s

-- `[t for t in v if isinstance(t, str)]`: a text gives its characters, and a dict its keys.
unfoldable pub types_of : Json → Result (List Text)
types_of (arr vs) = ok (texts_among vs)
types_of (str s) = ok (characters s)
types_of (obj ms) = ok (keys_of ms)
types_of v = raised (builtin (text "TypeError") (text "object is not iterable"))

-- `subject` of a credential: an empty dict where there is none.
abbrev pub subject_of : Members → Members
subject_of parsed = elim (get (text "credentialSubject") parsed) [
  | some (obj subject) ↦ subject
  | _ ↦ end
]

-- A value that is a text, or None.
abbrev pub text_or_none : Json → Json
text_or_none (str s) = str s
text_or_none v = null

unfoldable pub from_parsed : Text → Json → Text → Members → Result WalletCredential
unfolding types_of
from_parsed now vc_id vc_json parsed = do
  types ← types_of (get_or_default (text "type") (arr nil) parsed)
  ok (record {
    vc_id = vc_id;
    vc_json = str vc_json;
    type = arr (texts types);
    added_at = str now;
    updated_at = str now;
    issuer = text_or_none (get_or_default (text "issuer") null parsed);
    subject_did = text_or_none (get_or_default (text "id") null (subject_of parsed));
  })

-- A credential is given as its JSON text or as a dict.
pub data Vc : Type 0 where
  as_text : Text → Vc
  as_dict : Members → Vc

unfoldable pub from_vc : LoadsText → Text → Json → Vc → Result WalletCredential
unfolding from_parsed
from_vc loads now vc_id (as_dict vc) = from_parsed now vc_id (dumps default_format (obj vc)) vc
from_vc loads now vc_id (as_text vc) = elim (loads vc) [
  | none ↦ value_error
  | some (obj parsed) ↦ from_parsed now vc_id vc parsed
  | some _ ↦ raised (builtin (text "AttributeError") (text "get"))
]

-- `_is_delegation_grant_vc`
unfoldable pub is_delegation_grant_vc : Members → Bool
unfolding has_type
is_delegation_grant_vc vc = has_type (text "DelegationGrantCredential") vc

-- `json.loads` of a stored value, which must be a text.
unfoldable pub read_json : LoadsText → Json → Result Json
read_json loads (str s) = elim (loads s) [ none ↦ value_error | some v ↦ ok v ]
read_json loads v = raised (builtin (text "TypeError") (text "the JSON object must be str"))
