-- ===== src/Text/Hex.antt =====
-- `bytes.hex()` and `bytes.fromhex()`.
use helix_sdk_py.Base.{
  All, Bool, Option, [], ap, arith, false, if◌then◌else◌, leb, none, refl, some, ℕ, ◌%◌, ◌&&◌, ◌*◌,
  ◌+◌, ◌-◌, ◌/◌, ◌<◌, ◌==◌, ◌||◌, ◌∷◌, ◌≡◌,
}
use helix_sdk_py.Text.{Bytes, Text}

unfoldable pub hex_digit : ℕ → ℕ
hex_digit d = if leb d 9 then 48 + d else 87 + d

-- `bytes.hex()`: two lower-case digits for each octet.
unfoldable pub to_hex : Bytes → Text
unfolding hex_digit
to_hex [] = []
to_hex (b ∷ bs) = hex_digit (b / 16) ∷ hex_digit (b % 16) ∷ to_hex bs

unfoldable pub hex_value : ℕ → Option ℕ
hex_value c =
    if leb b'0' c && leb c b'9'
    then some (c - 48)
    else if leb b'a' c && leb c b'f'
    then some (c - 87)
    else if leb b'A' c && leb c b'F'
    then some (c - 55)
    else none

-- The ASCII white space that `bytes.fromhex` skips between octets.
unfoldable pub is_space : ℕ → Bool
is_space c = c == 32 || leb 9 c && leb c 13

abbrev pair_of : Option ℕ → Option ℕ → Option Bytes → Option Bytes
pair_of (some h) (some l) (some bs) = some ((h * 16 + l) ∷ bs)
pair_of _ _ _ = none

-- `bytes.fromhex(s)`, with `none` for its ValueError.
unfoldable pub from_hex : Text → Option Bytes
unfolding hex_value is_space
from_hex [] = some []
from_hex (c ∷ []) = if is_space c then some [] else none
from_hex (c ∷ d ∷ s) =
    let skipped = from_hex (d ∷ s) in
    let rest = from_hex s in
    if is_space c then skipped else pair_of (hex_value c) (hex_value d) rest

abbrev pub IsByte : ℕ → Type 0
IsByte b = b < 256

hex_value-hex_digit : (d : ℕ) → d < 16 → hex_value (hex_digit d) ≡ some d
unfolding hex_value hex_digit
hex_value-hex_digit d h = ground arith

is_space-hex_digit : (d : ℕ) → d < 16 → is_space (hex_digit d) ≡ false
unfolding is_space hex_digit
is_space-hex_digit d h = ground arith

-- Decoding the hex of octets gives the octets.
pub from_hex-to_hex : (bs : Bytes) → All IsByte bs → from_hex (to_hex bs) ≡ some bs
unfolding from_hex to_hex
from_hex-to_hex [] h = refl
from_hex-to_hex (b ∷ bs) (p, h) =
    rw
      (
        is_space-hex_digit (b / 16) (omega arith),
        hex_value-hex_digit (b / 16) (omega arith),
        hex_value-hex_digit (b % 16) (omega arith),
        from_hex-to_hex bs h,
      )
      (ap (λ (n : ℕ). some (n ∷ bs)) (omega arith))
