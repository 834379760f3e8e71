-- ===== src/Wallet/Select/Newest.antt =====
-- What `select_grant` and `get_latest_credential` choose, src/helix_sdk/wallet.py.
use helix_sdk_py.Errors.{◌>>=◌}
use helix_sdk_py.Base.{
  All, All-weaken, Bool, Bool-cases, Option, Option-cases, ap, ap₂, false, if◌then◌else◌, inl, inr,
  keep, none, refl, some, sym, true, ◌&&◌, ◌∙◌, ◌≡◌,
}
use helix_sdk_py.Errors.{Result, get_of, ok}
use helix_sdk_py.Errors.Mapping.{get_or_default}
use helix_sdk_py.Json.{Items, Json, Members, arr, bool, get, int, item_in, null, obj, str}
use helix_sdk_py.Scope.{contains}
use helix_sdk_py.Session.{is_text}
use helix_sdk_py.Text.{Text, text, text_eq}
use helix_sdk_py.Wallet.{AgentWallet}
use helix_sdk_py.Wallet.Credential.{LoadsText, WalletCredential, read_json}
use helix_sdk_py.Wallet.Select.{
  get_latest_credential, has_vc_type, is_grant_for, is_user_of, select_grant,
}
use helix_sdk_py.Wallet.Select.Latest.{IsDated, IsNewestOf, chosen-IsNewestOf}

-- The credential's types, which must be a list, and the dict that its stored text is.
pub record IsStored (loads : LoadsText) (c : WalletCredential) : Type 0 where
  pub types : Items
  pub stored : Text
  pub parsed : Members
  pub subject : Members
  pub has_types : c.type ≡ arr types
  pub has_stored : c.vc_json ≡ str stored
  pub reads : loads stored ≡ some (obj parsed)
  pub has_subject : get (text "credentialSubject") parsed ≡ some (obj subject)

-- The value under `userDid` in the subject of a credential, and of one that is stored as this.
abbrev pub user_of : Option Json → Option Json
user_of (some (obj parsed)) = elim (get (text "credentialSubject") parsed) [
  | some (obj subject) ↦ get (text "userDid") subject
  | _ ↦ none
]
user_of v = none

abbrev pub user_in : LoadsText → Json → Option Json
user_in loads (str s) = user_of (loads s)
user_in loads v = none

abbrev pub stored_user : LoadsText → WalletCredential → Option Json
stored_user loads c = user_in loads c.vc_json

-- A list that has this text among its items.
abbrev pub lists : Text → Json → Bool
lists t v = elim v [ arr xs ↦ item_in t xs | _ ↦ false ]

-- The same text.
abbrev pub equals_text : Text → Option Json → Bool
equals_text t (some (str s)) = text_eq s t
equals_text t _ = false

-- A grant: its types list it as one, this issuer made it, and its subject names this user.
abbrev pub is_wanted : LoadsText → Text → Text → WalletCredential → Bool
is_wanted loads issuer_did user_did c =
    lists (text "DelegationGrantCredential") c.type
    && (equals_text issuer_did (some c.issuer) && equals_text user_did (stored_user loads c))

is_text-equals : (t : Text) (v : Json) → is_text t v ≡ equals_text t (some v)
is_text-equals t (str s) = refl
is_text-equals t null = refl
is_text-equals t (bool b) = refl
is_text-equals t (int n) = refl
is_text-equals t (arr xs) = refl
is_text-equals t (obj ms) = refl

is_user_of-subject :
    (user_did : Text) (parsed subject : Members)
    → get (text "credentialSubject") parsed ≡ some (obj subject)
    → is_user_of user_did (obj parsed) ≡ ok (equals_text user_did (get (text "userDid") subject))
unfolding get_of
is_user_of-subject user_did parsed subject e = elim (Option-cases (get (text "userDid") subject)) [
  | inl missing ↦ rw (get_or_default, e, missing) refl
  | inr (v, found) ↦ rw (get_or_default, e, found) (ap ok (is_text-equals user_did v))
]

-- `is_grant_for` and `is_wanted` by the fields that they read.
abbrev test_fields : LoadsText → Text → Text → (type issuer vc_json : Json) → Result Bool
test_fields loads issuer_did user_did type issuer vc_json =
    contains (text "DelegationGrantCredential") type >>= (λ is_grant.
      if is_grant && is_text issuer_did issuer
      then read_json loads vc_json >>= is_user_of user_did
      else ok false)

test_fields-read :
    (loads : LoadsText) (issuer_did user_did : Text) (types : Items) (issuer : Json) (stored : Text)
    (parsed subject : Members)
    → loads stored ≡ some (obj parsed)
    → get (text "credentialSubject") parsed ≡ some (obj subject)
    → test_fields loads issuer_did user_did (arr types) issuer (str stored)
      ≡ ok (
          item_in (text "DelegationGrantCredential") types
          && (equals_text issuer_did (some issuer)
              && equals_text user_did (get (text "userDid") subject)))
unfolding contains read_json
test_fields-read loads issuer_did user_did types issuer stored parsed subject reads has =
    elim (Bool-cases (item_in (text "DelegationGrantCredential") types)) [
      | inr other ↦ rw other refl
      | inl grant ↦ elim (Bool-cases (is_text issuer_did issuer)) [
        | inr foreign ↦ rw (grant, foreign) refl
        | inl theirs ↦
            rw (grant, theirs, read_json, reads) (is_user_of-subject user_did parsed subject has)
      ]
    ]

stored_user-read :
    (loads : LoadsText) (c : WalletCredential) (h : IsStored loads c)
    → stored_user loads c ≡ get (text "userDid") h.subject
stored_user-read loads c h =
    ap (user_in loads) h.has_stored ∙ ap user_of h.reads ∙ rw (user_of, h.has_subject) refl

is_grant_for-wanted :
    (loads : LoadsText) (issuer_did user_did : Text) (c : WalletCredential)
    → IsStored loads c
    → is_grant_for loads issuer_did user_did c ≡ ok (is_wanted loads issuer_did user_did c)
unfolding is_grant_for
is_grant_for-wanted loads issuer_did user_did c h =
    ap₂ (λ t v. test_fields loads issuer_did user_did t c.issuer v) h.has_types h.has_stored
    ∙ test_fields-read loads issuer_did user_did h.types c.issuer h.stored h.parsed h.subject
        h.reads h.has_subject
    ∙ ap₂
        (λ t u. ok (
          lists (text "DelegationGrantCredential") t
          && (equals_text issuer_did (some c.issuer) && equals_text user_did u)))
        (sym h.has_types) (sym (stored_user-read loads c h))

-- Where every credential has a list of types, a text as its time and a stored text that reads as a
-- dict with a subject, `select_grant` returns the first of the newest credentials whose types list
-- it as a delegation grant, whose issuer is this one and whose stored subject names this user, or
-- nothing if the wallet has none.
pub select_grant-IsNewestOf :
    (loads : LoadsText) (issuer_did user_did : Text) (w : AgentWallet)
    → All (IsStored loads) w.wallet_credentials
    → All IsDated w.wallet_credentials
    → (r : Option WalletCredential) × (select_grant loads issuer_did user_did w ≡ ok r)
      × IsNewestOf (keep (is_wanted loads issuer_did user_did) w.wallet_credentials) r
unfolding select_grant
select_grant-IsNewestOf loads issuer_did user_did w h dated =
    chosen-IsNewestOf (is_grant_for loads issuer_did user_did) (is_wanted loads issuer_did user_did)
      w.wallet_credentials
      (All-weaken _ _ (is_grant_for-wanted loads issuer_did user_did) w.wallet_credentials h) dated

-- A credential of the type that is asked for, if one is.
abbrev pub is_of_type : Option Text → WalletCredential → Bool
is_of_type none c = true
is_of_type (some vc_type) c = lists vc_type c.type

abbrev pub HasTypes : WalletCredential → Type 0
HasTypes c = (types : Items) × (c.type ≡ arr types)

has_vc_type-lists :
    (vc_type : Option Text) (c : WalletCredential)
    → HasTypes c
    → has_vc_type vc_type c ≡ ok (is_of_type vc_type c)
unfolding has_vc_type contains
has_vc_type-lists none c h = refl
has_vc_type-lists (some t) c (types, e) = ap (contains t) e ∙ ap (λ v. ok (lists t v)) (sym e)

-- Where every credential has a list of types and a text as its time, `get_latest_credential` returns
-- the first of the newest credentials that list the type asked for, or of all if none is, or nothing
-- if the wallet has none of them.
pub get_latest_credential-IsNewestOf :
    (vc_type : Option Text) (w : AgentWallet)
    → All HasTypes w.wallet_credentials
    → All IsDated w.wallet_credentials
    → (r : Option WalletCredential) × (get_latest_credential vc_type w ≡ ok r)
      × IsNewestOf (keep (is_of_type vc_type) w.wallet_credentials) r
unfolding get_latest_credential
get_latest_credential-IsNewestOf vc_type w h dated =
    chosen-IsNewestOf (has_vc_type vc_type) (is_of_type vc_type) w.wallet_credentials
      (All-weaken _ _ (has_vc_type-lists vc_type) w.wallet_credentials h) dated
