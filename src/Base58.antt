-- ===== src/Base58.antt =====
-- base58btc: src/helix_sdk/vp_crypto.py, lines 76-114, and its copy in src/helix_sdk/keys.py.
pub mod Digits
pub mod Zeros
pub mod RoundTrip
pub mod AllZeros
use helix_sdk_py.Base.{
  List, Option, [], get_or, if◌then◌else◌, map, none, replicate, reverse, some, suc, zero, ℕ, ◌%◌,
  ◌*◌, ◌++◌, ◌+◌, ◌/◌, ◌==◌, ◌∷◌,
}
use helix_sdk_py.Text.{Bytes, Text, find, text}

abbrev pub alphabet : Text
alphabet = text "123456789ABCDEFGHJKLMNPQRSTUVWXYZabcdefghijkmnopqrstuvwxyz"

-- `while carry > 0: digits.append(carry % b); carry //= b`. `carry` rounds are enough, since each
-- makes it smaller.
unfoldable pub append_carry : ℕ → ℕ → ℕ → List ℕ
append_carry b zero carry = []
append_carry b (suc fuel) carry =
    let rest = append_carry b fuel (carry / b) in if carry == 0 then [] else (carry % b) ∷ rest

-- One round of the outer loop: the digits, lowest first, become those of `m` times the number,
-- plus `carry`. The inner `for` is over the digits, the `while` extends them.
unfoldable pub mul_add : ℕ → ℕ → List ℕ → ℕ → List ℕ
unfolding append_carry
mul_add m b [] carry = append_carry b carry carry
mul_add m b (d ∷ ds) carry = let x = d * m + carry in (x % b) ∷ mul_add m b ds (x / b)

unfoldable pub convert : ℕ → ℕ → List ℕ → List ℕ → List ℕ
unfolding mul_add
convert m b digits [] = digits
convert m b digits (x ∷ xs) = convert m b (mul_add m b digits x) xs

-- A `1` for each leading zero octet.
unfoldable pub leading_ones : Bytes → Text
leading_ones [] = []
leading_ones (b ∷ bs) = if b == 0 then b'1' ∷ leading_ones bs else []

unfoldable pub alphabet_at : ℕ → ℕ
alphabet_at d = get_or alphabet d 0

unfoldable pub base58btc_encode : Bytes → Text
unfolding convert leading_ones alphabet_at
base58btc_encode [] = []
base58btc_encode (b ∷ bs) =
    leading_ones (b ∷ bs) ++ map alphabet_at (reverse (convert 256 58 (0 ∷ []) (b ∷ bs)))

-- The positions of the characters in the alphabet; `none` is the ValueError.
unfoldable pub indices : Text → Option (List ℕ)
unfolding find
indices [] = some []
indices (c ∷ s) = elim (find alphabet c) [
  | none ↦ none
  | some i ↦ elim (indices s) [ none ↦ none | some is ↦ some (i ∷ is) ]
]

unfoldable pub count_ones : Text → ℕ
count_ones [] = 0
count_ones (c ∷ s) = if c == b'1' then suc (count_ones s) else 0

-- `none` is the ValueError of a character that is not in the alphabet.
unfoldable pub base58btc_decode : Text → Option Bytes
unfolding indices convert count_ones
base58btc_decode [] = some []
base58btc_decode (c ∷ s) = elim (indices (c ∷ s)) [
  | none ↦ none
  | some is ↦ some (replicate (count_ones (c ∷ s)) 0 ++ reverse (convert 58 256 (0 ∷ []) is))
]
