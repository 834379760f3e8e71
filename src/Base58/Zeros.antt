-- ===== src/Base58/Zeros.antt =====
-- The conversion leaves no zero on top, but for the single digit of zero, and such a list of
-- digits is determined by its number.
use helix_sdk_py.Base.{
  Bool-cases, List, [], ap, ap₂, arith, inl, inr, refl, replicate, suc, sym, zero, ℕ, ◌%◌, ◌*◌,
  ◌++◌, ◌+◌, ◌/◌, ◌<◌, ◌==◌, ◌∷◌, ◌≡◌, ◌≢◌, ◌≤◌,
}
use helix_sdk_py.Base58.{append_carry, convert, mul_add}
use helix_sdk_py.Base58.Digits.{
  InRange, IsTrimmed, shrinks, split_carry, value, value-append_carry, value-mul_add,
}

append_carry-IsTrimmed : (b fuel c : ℕ) → 2 ≤ b → c ≤ fuel → IsTrimmed b (append_carry b fuel c)
unfolding append_carry value
append_carry-IsTrimmed b zero c h k = tt
append_carry-IsTrimmed b (suc fuel) c h k = elim (Bool-cases (c == 0)) [
  | inl done ↦ rw done tt
  | inr more ↦ rw more (
    rw
        (
          value-append_carry b fuel (c / b) h (shrinks b c fuel h k (ground arith)),
          split_carry b c h,
        )
        (ground arith),
    append_carry-IsTrimmed b fuel (c / b) h (shrinks b c fuel h k (ground arith)),
  )
]

round_positive : (m v c : ℕ) → 1 ≤ m → v ≢ 0 → m * v + c ≢ 0
round_positive m v c h k = grind arith

mul_add-IsTrimmed :
    (m b : ℕ) (ds : List ℕ) (c : ℕ)
    → 2 ≤ b
    → 1 ≤ m
    → IsTrimmed b ds
    → IsTrimmed b (mul_add m b ds c)
unfolding mul_add value
mul_add-IsTrimmed m b [] c h k t = append_carry-IsTrimmed b c c h (omega arith)
mul_add-IsTrimmed m b (d ∷ ds) c h k (p, t) = (
  omega (arith, value-mul_add m b (d ∷ ds) c h, round_positive m (value b (d ∷ ds)) c k p),
  mul_add-IsTrimmed m b ds ((d * m + c) / b) h k t,
)

convert-IsTrimmed :
    (m b : ℕ) (ds xs : List ℕ) → 2 ≤ b → 1 ≤ m → IsTrimmed b ds → IsTrimmed b (convert m b ds xs)
unfolding convert
convert-IsTrimmed m b ds [] h k t = t
convert-IsTrimmed m b ds (x ∷ xs) h k t =
    convert-IsTrimmed m b (mul_add m b ds x) xs h k (mul_add-IsTrimmed m b ds x h k t)

mul_add_start : (m b : ℕ) → 2 ≤ b → mul_add m b (0 ∷ []) 0 ≡ 0 ∷ []
unfolding mul_add append_carry
mul_add_start m b h =
    let z : 0 * m + 0 ≡ 0 = omega arith in
    let q : 0 / b ≡ 0 = grind arith in let r : 0 % b ≡ 0 = grind arith in rw (z, q, r)

mul_add_start-IsTrimmed : (m b x : ℕ) → 2 ≤ b → x ≢ 0 → IsTrimmed b (mul_add m b (0 ∷ []) x)
unfolding mul_add value
mul_add_start-IsTrimmed m b x h k = (
  omega (arith, value-mul_add m b (0 ∷ []) x h),
  append_carry-IsTrimmed b ((0 * m + x) / b) ((0 * m + x) / b) h (omega arith),
)

-- Leading zeros change nothing.
pub convert-zeros :
    (m b n : ℕ) (xs : List ℕ)
    → 2 ≤ b
    → convert m b (0 ∷ []) (replicate n 0 ++ xs) ≡ convert m b (0 ∷ []) xs
unfolding convert
convert-zeros m b zero xs h = refl
convert-zeros m b (suc n) xs h = rw (mul_add_start m b h, convert) (convert-zeros m b n xs h)

-- Started at zero, on what begins with no zero, the digits have no zero on top.
pub convert_start-IsTrimmed :
    (m b x : ℕ) (xs : List ℕ) → 2 ≤ b → 1 ≤ m → x ≢ 0 → IsTrimmed b (convert m b (0 ∷ []) (x ∷ xs))
unfolding convert
convert_start-IsTrimmed m b x xs h k n =
    convert-IsTrimmed m b (mul_add m b (0 ∷ []) x) xs h k (mul_add_start-IsTrimmed m b x h n)

lowest : (b d v e w : ℕ) → d < b → e < b → d + b * v ≡ e + b * w → (d ≡ e) × (v ≡ w)
lowest b d v e w p q h =
    let same : v ≡ w = grind arith in (omega (arith, ap (λ (t : ℕ). b * t) same), same)

-- Two such lists of digits that stand for one number are equal.
pub trimmed_unique :
    (b : ℕ) (ds es : List ℕ)
    → InRange b ds
    → InRange b es
    → IsTrimmed b ds
    → IsTrimmed b es
    → value b ds ≡ value b es
    → ds ≡ es
unfolding value
trimmed_unique b [] [] p q t u e = refl
trimmed_unique b [] (x ∷ es) p q t u e = absurd (u.0 (sym e))
trimmed_unique b (d ∷ ds) [] p q t u e = absurd (t.0 e)
trimmed_unique b (d ∷ ds) (x ∷ es) (p, ps) (q, qs) (t, ts) (u, us) e =
    let (same, rest) = lowest b d (value b ds) x (value b es) p q e in
    ap₂ ◌∷◌ same (trimmed_unique b ds es ps qs ts us rest)
