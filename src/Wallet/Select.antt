-- ===== src/Wallet/Select.antt =====
-- Which credential of a wallet is chosen, src/helix_sdk/wallet.py lines 276-297.
pub mod Latest
pub mod Newest
use helix_sdk_py.Errors.{◌>>=◌}
use helix_sdk_py.Base.{Bool, List, Option, [], false, if◌then◌else◌, none, some, true, ◌&&◌, ◌∷◌}
use helix_sdk_py.Errors.{Result, builtin, filtered, get_of, ok, raised}
use helix_sdk_py.Errors.Mapping.{get_or_default}
use helix_sdk_py.Json.{Json, end, obj}
use helix_sdk_py.Json.Compare.{json_gt}
use helix_sdk_py.Scope.{contains}
use helix_sdk_py.Session.{is_text}
use helix_sdk_py.Text.{Text, text}
use helix_sdk_py.Wallet.{AgentWallet}
use helix_sdk_py.Wallet.Credential.{LoadsText, WalletCredential, read_json}

-- `v.get("credentialSubject", {}).get("userDid") == user_did`
abbrev is_user_of : Text → Json → Result Bool
is_user_of user_did (obj parsed) =
    get_of (text "userDid") (get_or_default (text "credentialSubject") (obj end) parsed)
    >>= (λ v. ok (is_text user_did v))
is_user_of user_did v = raised (builtin (text "AttributeError") (text "get"))

-- `"DelegationGrantCredential" in c.type` and the issuer, and then the user of the stored text.
unfoldable pub is_grant_for : LoadsText → Text → Text → WalletCredential → Result Bool
unfolding contains read_json get_of
is_grant_for loads issuer_did user_did c = do
  is_grant ← contains (text "DelegationGrantCredential") c.type
  if is_grant && is_text issuer_did c.issuer
      then read_json loads c.vc_json >>= is_user_of user_did
      else ok false

unfoldable pub has_vc_type : Option Text → WalletCredential → Result Bool
unfolding contains
has_vc_type none c = ok true
has_vc_type (some vc_type) c = contains vc_type c.type

-- `max(…, key=lambda c: c.added_at)`: the first of those that none is later than.
unfoldable pub latest_of : WalletCredential → List WalletCredential → Result WalletCredential
unfolding json_gt
latest_of best [] = ok best
latest_of best (c ∷ cs) =
    json_gt c.added_at best.added_at >>= λ later. latest_of (if later then c else best) cs

unfoldable pub latest : List WalletCredential → Result (Option WalletCredential)
unfolding latest_of
latest [] = ok none
latest (c ∷ cs) = latest_of c cs >>= λ best. ok (some best)

unfoldable pub select_grant :
    LoadsText → Text → Text → AgentWallet → Result (Option WalletCredential)
select_grant loads issuer_did user_did w =
    filtered (is_grant_for loads issuer_did user_did) w.wallet_credentials >>= latest

unfoldable pub get_latest_credential : Option Text → AgentWallet → Result (Option WalletCredential)
get_latest_credential vc_type w = filtered (has_vc_type vc_type) w.wallet_credentials >>= latest
