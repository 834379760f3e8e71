-- ===== src/Base58/Digits.antt =====
-- What a list of digits, lowest first, stands for, and that the conversion keeps it.
use helix_sdk_py.Base.{
  All, Bool-cases, List, [], ap, arith, inl, inr, mod-lt, refl, suc, zero, ℕ, ◌%◌, ◌*◌, ◌+◌, ◌/◌,
  ◌<◌, ◌==◌, ◌∷◌, ◌≡◌, ◌≢◌, ◌≤◌,
}
use helix_sdk_py.Base58.{append_carry, convert, mul_add}

unfoldable pub value : ℕ → List ℕ → ℕ
value b [] = 0
value b (d ∷ ds) = d + b * value b ds

-- The number whose digits in base `m` are `acc`, and behind it `xs`, highest first.
unfoldable pub horner : ℕ → ℕ → List ℕ → ℕ
horner m acc [] = acc
horner m acc (x ∷ xs) = horner m (m * acc + x) xs

-- No digit is out of range.
abbrev pub InRange : ℕ → List ℕ → Type 0
InRange b ds = All (λ d. d < b) ds

-- The highest digit is not zero: no end part of the list stands for zero.
abbrev pub IsTrimmed : ℕ → List ℕ → Type 0
IsTrimmed b [] = Unit
IsTrimmed b (d ∷ ds) = (d + b * value b ds ≢ 0) × IsTrimmed b ds

pub split_carry : (b c : ℕ) → 2 ≤ b → c % b + b * (c / b) ≡ c
split_carry b c h = grind arith

pub shrinks : (b c f : ℕ) → 2 ≤ b → c ≤ suc f → c ≢ 0 → c / b ≤ f
shrinks b c f h k n = grind arith

pub value-append_carry : (b fuel c : ℕ) → 2 ≤ b → c ≤ fuel → value b (append_carry b fuel c) ≡ c
unfolding value append_carry
value-append_carry b zero c h k = omega arith
value-append_carry b (suc fuel) c h k = elim (Bool-cases (c == 0)) [
  | inl done ↦ rw done (ground arith)
  | inr more ↦
      rw (more, value-append_carry b fuel (c / b) h (shrinks b c fuel h k (ground arith)))
        (split_carry b c h)
]

-- One round of the loop multiplies by `m` and adds the carry.
pub value-mul_add :
    (m b : ℕ) (ds : List ℕ) (c : ℕ) → 2 ≤ b → value b (mul_add m b ds c) ≡ m * value b ds + c
unfolding value mul_add
value-mul_add m b [] c h = rw (value-append_carry b c c h (omega arith)) (omega arith)
value-mul_add m b (d ∷ ds) c h = omega (
  arith,
  split_carry b (d * m + c) h,
  ap (λ (t : ℕ). b * t) (value-mul_add m b ds ((d * m + c) / b) h),
)

pub value-convert :
    (m b : ℕ) (ds xs : List ℕ) → 2 ≤ b → value b (convert m b ds xs) ≡ horner m (value b ds) xs
unfolding convert horner
value-convert m b ds [] h = refl
value-convert m b ds (x ∷ xs) h =
    rw (value-convert m b (mul_add m b ds x) xs h, value-mul_add m b ds x h)

append_carry-InRange : (b fuel c : ℕ) → 2 ≤ b → InRange b (append_carry b fuel c)
unfolding append_carry
append_carry-InRange b zero c h = tt
append_carry-InRange b (suc fuel) c h =
    ground (arith, append_carry-InRange b fuel (c / b) h, mod-lt c {m = b})

mul_add-InRange : (m b : ℕ) (ds : List ℕ) (c : ℕ) → 2 ≤ b → InRange b (mul_add m b ds c)
unfolding mul_add
mul_add-InRange m b [] c h = append_carry-InRange b c c h
mul_add-InRange m b (d ∷ ds) c h =
    (grind (arith, mod-lt), mul_add-InRange m b ds ((d * m + c) / b) h)

pub convert-InRange :
    (m b : ℕ) (ds xs : List ℕ) → 2 ≤ b → InRange b ds → InRange b (convert m b ds xs)
unfolding convert
convert-InRange m b ds [] h k = k
convert-InRange m b ds (x ∷ xs) h k =
    convert-InRange m b (mul_add m b ds x) xs h (mul_add-InRange m b ds x h)
