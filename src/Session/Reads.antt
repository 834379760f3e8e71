-- ===== src/Session/Reads.antt =====
-- A token that was issued verifies, with the reader of JSON modelled here.
use helix_sdk_py.Base.{List, [], all, arith, if◌then◌else◌, leb, refl, some, true, ℕ, ◌+◌, ◌∷◌, ◌≡◌}
use helix_sdk_py.Errors.{ok}
use helix_sdk_py.Http.Url.Utf8.{is_scalar}
use helix_sdk_py.Json.{Items, Json, get, obj, texts}
use helix_sdk_py.Json.Dumps.Ascii.{escape_ascii-ascii}
use helix_sdk_py.Json.Loads.{json_loads_octets}
use helix_sdk_py.Json.Loads.Parsed.{ArePlain, IsPlain}
use helix_sdk_py.Json.Loads.RoundTrip.{narrow_format-IsReadable}
use helix_sdk_py.Session.{
  Hmac, SessionManager, compact_format, invalid, issue, issued_claims, jwt_header, verify_token,
}
use helix_sdk_py.Session.Claims.{all_links}
use helix_sdk_py.Session.Expiry.{IsDigest, json_octets, verify_token-issue}
use helix_sdk_py.Text.{Text, nonempty, text, text_eq}
use helix_sdk_py.VpTransport.Reads.{json_loads_octets-dumps}

pub json_loads_octets-compact : (v : Json) → IsPlain v → json_loads_octets (json_octets v) ≡ some v
json_loads_octets-compact v h =
    json_loads_octets-dumps compact_format narrow_format-IsReadable escape_ascii-ascii (omega arith)
      (omega arith) v h

texts-ArePlain : (xs : List Text) → all (λ s. all is_scalar s) xs ≡ true → ArePlain (texts xs)
unfolding texts
texts-ArePlain [] h = tt
texts-ArePlain (x ∷ xs) h = (ground arith, texts-ArePlain xs (ground arith))

jwt_header-IsPlain : IsPlain jwt_header
unfolding get text_eq
jwt_header-IsPlain = (refl, refl, refl, (refl, refl, refl, tt))

issued_claims-IsPlain :
    (m : SessionManager) (now : ℕ) (uuid agent_did : Text) (scopes : List Text) (chain : Items)
    → all is_scalar uuid ≡ true
    → all is_scalar agent_did ≡ true
    → all (λ s. all is_scalar s) scopes ≡ true
    → ArePlain chain
    → IsPlain (obj (issued_claims m now uuid agent_did scopes chain))
unfolding issued_claims get text_eq
issued_claims-IsPlain m now uuid agent_did scopes chain u a s c = (
  refl,
  refl,
  a,
  (
    refl,
    refl,
    texts-ArePlain scopes s,
    (refl, refl, c, (refl, refl, tt, (refl, refl, tt, (refl, refl, u, tt)))),
  ),
)

-- A token that was issued, with an agent, an id and a well-formed chain, verifies with the same
-- manager and gives the claims back at any time before its issue plus the time to live, and is
-- refused as expired from then on, if no text has a surrogate and every dict of the chain has
-- distinct keys. `json.loads` is the reader modelled here.
pub verify_token-issue_json :
    (hmac : Hmac) (digest : IsDigest hmac) (m : SessionManager) (now later : ℕ)
    (uuid agent_did : Text) (scopes : List Text) (chain : Items)
    → nonempty agent_did ≡ true
    → nonempty uuid ≡ true
    → all_links chain ≡ true
    → all is_scalar uuid ≡ true
    → all is_scalar agent_did ≡ true
    → all (λ s. all is_scalar s) scopes ≡ true
    → ArePlain chain
    → (token : Text) × (issue hmac m now uuid agent_did scopes chain ≡ ok token)
      × (verify_token hmac json_loads_octets m later token ≡ (
          if leb (now + m.ttl) later
          then invalid (text "JWT has expired")
          else ok (issued_claims m now uuid agent_did scopes chain)))
verify_token-issue_json hmac digest m now later uuid agent_did scopes chain a u l us ds ss cs =
    verify_token-issue hmac digest json_loads_octets m now later uuid agent_did scopes chain a u l
      (json_loads_octets-compact jwt_header jwt_header-IsPlain)
      (json_loads_octets-compact (obj (issued_claims m now uuid agent_did scopes chain))
        (issued_claims-IsPlain m now uuid agent_did scopes chain us ds ss cs))
