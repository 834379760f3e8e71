-- ===== src/Tests.antt =====
-- Values that the tests share: a server, a signer, a key, clients and credentials.
pub mod Codecs
pub mod Mapping
pub mod Clients
pub mod Signing
pub mod Guarding
pub mod Sessions
pub mod Jwts
pub mod Wallets
pub mod Adapters
use helix_sdk_py.Base.{All, [], arith, none, refl, replicate, some, ℕ, ◌%◌, ◌∷◌, ◌≡◌}
use helix_sdk_py.Client.{HelixClient, helix_client}
use helix_sdk_py.Errors.{ok}
use helix_sdk_py.Http.{Env}
use helix_sdk_py.Json.{Json, Members, arr, end, get, member, texts}
use helix_sdk_py.Json.Loads.Parsed.{HavePlain}
use helix_sdk_py.Keys.{
  is_hex, is_raw_hex, is_whitespace, lower, lower_char, normalize_ed25519_private_key_hex,
  normalize_stripped, private_key_bytes, strip, strip_left,
}
use helix_sdk_py.Proof.{Crypto, DateTime}
use helix_sdk_py.Proof.Verifies.{IsSound}
use helix_sdk_py.Text.{Bytes, Text, text, text_eq, text_eq_refl}
use helix_sdk_py.Text.Hex.{IsByte, from_hex}

-- A server that gives one answer to every request.
abbrev pub answering : ℕ → Json → Env
answering status body = record {
  server = λ log r. ok (record { status_code = status; body = some body });
  show = λ v. text "value";
}

-- A signature by a toy scheme: a mark and the message.
abbrev pub octets_of : Bytes → Bytes
octets_of [] = []
octets_of (b ∷ bs) = b % 256 ∷ octets_of bs

abbrev pub toy_crypto : Crypto
toy_crypto = record {
  sha256 = λ message. message;
  sign = λ seed message. 1 ∷ octets_of message;
  public_key = λ seed. octets_of seed;
  verify = λ key message signature. text_eq signature (1 ∷ octets_of message);
}

pub octets_of-IsByte : (bs : Bytes) → All IsByte (octets_of bs)
octets_of-IsByte [] = tt
octets_of-IsByte (b ∷ bs) = (omega arith, octets_of-IsByte bs)

pub toy_crypto-IsSound : IsSound toy_crypto
toy_crypto-IsSound = record {
  octets = λ seed message. (omega arith, octets_of-IsByte message);
  nonzero = λ seed message. refl;
  key_octets = λ seed. octets_of-IsByte seed;
  correct = λ seed message. text_eq_refl (1 ∷ octets_of message);
}

abbrev pub private_key : Text
private_key = replicate 64 b'a'

abbrev pub seed_octets : Bytes
seed_octets = replicate 32 0xAA

pub private_key_lem : private_key_bytes private_key ≡ some seed_octets
unfolding private_key_bytes normalize_ed25519_private_key_hex normalize_stripped strip strip_left
    is_whitespace is_raw_hex is_hex lower lower_char from_hex
private_key_lem = refl

abbrev pub moment : DateTime
moment = record {
  year = 2025;
  month = 6;
  day = 30;
  hour = 12;
  minute = 5;
  second = 9;
  microsecond = 123456;
  utc_offset = none;
}

abbrev pub api_client : HelixClient
api_client = helix_client (some (text "https://api.test/")) (some (text "admin")) none

abbrev pub offline_client : HelixClient
offline_client = helix_client none none none

abbrev pub credential_of : Text → Members
credential_of type = member (text "type") (arr (texts (type ∷ []))) end

abbrev pub agent_credential : Members
agent_credential = credential_of (text "HelixAgentCredential")

abbrev pub grant_credential : Members
grant_credential = credential_of (text "DelegationGrantCredential")

pub agent_credential-HavePlain : HavePlain agent_credential
unfolding get text_eq texts
agent_credential-HavePlain = (refl, refl, (refl, tt), tt)
