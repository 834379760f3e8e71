-- ===== src/Jwt/Reads.antt =====
-- A JWT that was issued verifies, with the reader of JSON modelled here.
use helix_sdk_py.Base.{if◌then◌else◌, leb, none, pos, refl, some, ℕ, ◌≡◌}
use helix_sdk_py.Errors.{helix, ok, raised}
use helix_sdk_py.Errors.Presentation.{jwt_expired_error}
use helix_sdk_py.Json.{Members, get, int, obj}
use helix_sdk_py.Json.Loads.{json_loads_octets}
use helix_sdk_py.Json.Loads.Parsed.{HavePlain, IsPlain}
use helix_sdk_py.Jwt.{eddsa_header, issue_jwt, verify_jwt}
use helix_sdk_py.Jwt.Issued.{verify_jwt-issue}
use helix_sdk_py.Keys.{private_key_bytes}
use helix_sdk_py.Proof.{Crypto}
use helix_sdk_py.Proof.Verifies.{IsSound}
use helix_sdk_py.Session.Reads.{json_loads_octets-compact}
use helix_sdk_py.Text.{Bytes, Text, text, text_eq}
use helix_sdk_py.Text.Hex.{to_hex}

eddsa_header-IsPlain : IsPlain eddsa_header
unfolding get text_eq
eddsa_header-IsPlain = (refl, refl, refl, (refl, refl, refl, (refl, refl, refl, tt)))

-- Where Ed25519 is sound, a JWT is issued with a supported key; with the public key of that key it
-- verifies and gives its payload back before the payload's `exp`, and is refused as expired from then
-- on, if no text of the payload has a surrogate and every dict has distinct keys. `json.loads` is the
-- reader modelled here.
pub verify_jwt-issue_json :
    (crypto : Crypto) (sound : IsSound crypto) (key : Text) (seed : Bytes) (payload : Members)
    (expiry later : ℕ)
    → private_key_bytes key ≡ some seed
    → get (text "exp") payload ≡ some (int (pos expiry))
    → HavePlain payload
    → (token : Text) × (issue_jwt crypto payload key ≡ ok token)
      × (verify_jwt crypto json_loads_octets later token (to_hex (crypto.public_key seed))
          ≡ (if leb expiry later then raised (helix (jwt_expired_error none)) else ok payload))
verify_jwt-issue_json crypto sound key seed payload expiry later supported expires plain =
    verify_jwt-issue crypto sound json_loads_octets key seed payload expiry later supported expires
      (json_loads_octets-compact eddsa_header eddsa_header-IsPlain)
      (json_loads_octets-compact (obj payload) plain)
