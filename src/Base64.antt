-- ===== src/Base64.antt =====
-- base64url without padding, as src/helix_sdk/vp_transport.py, tool_vp.py, jwt.py and
-- session_manager.py write and read it over Python's `base64`.
pub mod RoundTrip
pub mod Nonempty
use helix_sdk_py.Base.{
  Option, [], all, false, if◌then◌else◌, leb, length, ltb, none, replicate, some, suc, true, zero,
  ℕ, ◌%◌, ◌&&◌, ◌*◌, ◌++◌, ◌+◌, ◌-◌, ◌/◌, ◌==◌, ◌||◌, ◌∷◌,
}
use helix_sdk_py.Base58.Digits.{value}
use helix_sdk_py.Text.{Bytes, Text}

-- The letter of six bits in the URL-safe alphabet.
unfoldable pub letter : ℕ → ℕ
letter v =
    if ltb v 26
    then 65 + v
    else if ltb v 52
    then 71 + v
    else if ltb v 62
    then v - 4
    else if v == 62
    then b'-'
    else b'_'

-- `base64.urlsafe_b64encode`
unfoldable pub urlsafe_b64encode : Bytes → Text
urlsafe_b64encode [] = []
urlsafe_b64encode (x ∷ []) = letter (x / 4) ∷ letter (x % 4 * 16) ∷ b'=' ∷ b'=' ∷ []
urlsafe_b64encode (x ∷ y ∷ []) =
    letter (x / 4) ∷ letter (x % 4 * 16 + y / 16) ∷ letter (y % 16 * 4) ∷ b'=' ∷ []
urlsafe_b64encode (x ∷ y ∷ z ∷ bs) =
    letter (x / 4)
    ∷ letter (x % 4 * 16 + y / 16)
    ∷ letter (y % 16 * 4 + z / 64)
    ∷ letter (z % 64)
    ∷ urlsafe_b64encode bs

-- `s.rstrip(b"=")`
unfoldable pub rstrip_pads : Text → Text
rstrip_pads [] = []
rstrip_pads (c ∷ s) = elim (rstrip_pads s) [
  | [] ↦ if c == b'=' then [] else c ∷ []
  | d ∷ t ↦ c ∷ d ∷ t
]

-- `base64.urlsafe_b64encode(octets).rstrip(b"=").decode("ascii")`
unfoldable pub b64url_encode : Bytes → Text
b64url_encode octets = rstrip_pads (urlsafe_b64encode octets)

-- Six bits of a letter, in the URL-safe alphabet or the standard one.
unfoldable pub sextet : ℕ → Option ℕ
sextet c =
    if leb b'A' c && leb c b'Z'
    then some (c - 65)
    else if leb b'a' c && leb c b'z'
    then some (c - 71)
    else if leb b'0' c && leb c b'9'
    then some (c + 4)
    else if c == b'-' || c == b'+'
    then some 62
    else if c == b'_' || c == b'/'
    then some 63
    else none

abbrev cons_octet : ℕ → Option Bytes → Option Bytes
cons_octet b none = none
cons_octet b (some bs) = some (b ∷ bs)

-- The loop of `binascii.a2b_base64`: `quad` letters of a group were read, `left` holds their last
-- bits, and `pads` pads came since. Other characters are skipped; `none` is its error.
unfoldable pub a2b : ℕ → ℕ → ℕ → Text → Option Bytes
a2b quad left pads [] = if quad == 0 then some [] else none
a2b quad left pads (c ∷ s) = elim (c == b'=') [
  | true ↦
      if leb 2 quad && leb 4 (quad + pads + 1)
      then some []
      else a2b quad left (if leb 2 quad then pads + 1 else pads) s
  | false ↦ elim (sextet c) [
    | none ↦ a2b quad left pads s
    | some v ↦ elim quad [
      | zero ↦ a2b 1 v 0 s
      | suc zero ↦ cons_octet (left * 4 + v / 16) (a2b 2 (v % 16) 0 s)
      | suc (suc zero) ↦ cons_octet (left * 16 + v / 4) (a2b 3 (v % 4) 0 s)
      | suc (suc (suc n)) ↦ cons_octet (left * 64 + v) (a2b 0 0 0 s)
    ]
  ]
]

-- `base64.urlsafe_b64decode(value)`; text that is not ASCII is an error.
unfoldable pub urlsafe_b64decode : Text → Option Bytes
urlsafe_b64decode value = if all (λ c. ltb c 128) value then a2b 0 0 0 value else none

-- `"=" * (-len(value) % 4)`
unfoldable pub padding : Text → Text
padding value = replicate ((4 - length value % 4) % 4) b'='

-- `base64.urlsafe_b64decode(value + padding)`
unfoldable pub b64url_decode : Text → Option Bytes
b64url_decode value = urlsafe_b64decode (value ++ padding value)
