-- ===== src/Text/Decimal.antt =====
-- `str(n)` of an integer.
use helix_sdk_py.Base.{
  All, All-append, Bool-cases, [], ap, ap₂, arith, if◌then◌else◌, inl, inr, ltb, negsuc, pos, refl,
  suc, zero, ℕ, ℤ, ◌%◌, ◌++◌, ◌+◌, ◌-◌, ◌/◌, ◌<◌, ◌∙◌, ◌∷◌, ◌≡◌, ◌≤◌,
}
use helix_sdk_py.Text.{Text}

unfoldable pub digits_on : ℕ → ℕ → Text
digits_on zero n = []
digits_on (suc fuel) n =
    let front = digits_on fuel (n / 10) in
    if ltb n 10 then (48 + n) ∷ [] else front ++ (48 + n % 10) ∷ []

-- The decimal digits of `n`; `suc n` rounds are enough, since each divides by ten.
unfoldable pub decimal : ℕ → Text
unfolding digits_on
decimal n = digits_on (suc n) n

unfoldable pub int_text : ℤ → Text
unfolding decimal
int_text (pos n) = decimal n
int_text (negsuc n) = b'-' ∷ decimal (suc n)

digits_on-ascii : (fuel n : ℕ) → All (λ c. c < 128) (digits_on fuel n)
unfolding digits_on
digits_on-ascii zero n = tt
digits_on-ascii (suc fuel) n = elim (Bool-cases (ltb n 10)) [
  | inl last ↦ rw last (ground arith, tt)
  | inr more ↦ rw more (
      All-append (λ c. c < 128) (digits_on fuel (n / 10)) ((48 + n % 10) ∷ [])
        (digits_on-ascii fuel (n / 10)) (omega arith, tt))
]

pub int_text-ascii : (n : ℤ) → All (λ c. c < 128) (int_text n)
unfolding int_text decimal
int_text-ascii (pos n) = digits_on-ascii (suc n) n
int_text-ascii (negsuc n) = (omega arith, digits_on-ascii (suc (suc n)) (suc n))

digits_on-last : (fuel n : ℕ) → n < 10 → digits_on (suc fuel) n ≡ (48 + n) ∷ []
unfolding digits_on
digits_on-last fuel n h = ground arith

digits_on-more :
    (fuel n : ℕ) → 10 ≤ n → digits_on (suc fuel) n ≡ digits_on fuel (n / 10) ++ (48 + n % 10) ∷ []
unfolding digits_on
digits_on-more fuel n h = elim (Bool-cases (ltb n 10)) [
  | inl small ↦ absurd (ground arith)
  | inr large ↦ rw (digits_on, large) refl
]

four_digits :
    (fuel n : ℕ)
    → 1000 ≤ n
    → n < 10000
    → digits_on (suc (suc (suc (suc fuel)))) n
      ≡ (48 + n / 1000) ∷ (48 + n / 100 % 10) ∷ (48 + n / 10 % 10) ∷ (48 + n % 10) ∷ []
four_digits fuel n h k =
    digits_on-more (suc (suc (suc fuel))) n (omega arith)
    ∙ ap (λ s. s ++ (48 + n % 10) ∷ [])
        (digits_on-more (suc (suc fuel)) (n / 10) (omega arith)
          ∙ ap (λ s. s ++ (48 + n / 10 % 10) ∷ [])
              (digits_on-more (suc fuel) (n / 10 / 10) (omega arith)
                ∙ ap (λ s. s ++ (48 + n / 10 / 10 % 10) ∷ [])
                    (digits_on-last fuel (n / 10 / 10 / 10) (omega arith))
                ∙ ap₂ (λ a b. (48 + a) ∷ (48 + b) ∷ []) (omega arith) (omega arith)))

-- The decimal digits of a number of four digits.
pub decimal-four :
    (n : ℕ)
    → 1000 ≤ n
    → n < 10000
    → decimal n ≡ (48 + n / 1000) ∷ (48 + n / 100 % 10) ∷ (48 + n / 10 % 10) ∷ (48 + n % 10) ∷ []
unfolding decimal
decimal-four n h k =
    let enough : suc n ≡ suc (suc (suc (suc (n - 3)))) = omega arith in
    ap (λ fuel. digits_on fuel n) enough ∙ four_digits (n - 3) n h k
