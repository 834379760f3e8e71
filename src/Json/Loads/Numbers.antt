-- ===== src/Json/Loads/Numbers.antt =====
-- The digits that `str` writes are cut into one integer.
use helix_sdk_py.Base.{
  Bool, Bool-cases, List, Option, Option-cases, [], ap, append_assoc, arith, false, inl, inr, ltb,
  negsuc, none, not, pos, refl, some, suc, true, zero, ℕ, ℤ, ◌%◌, ◌*◌, ◌++◌, ◌+◌, ◌/◌, ◌<◌, ◌||◌,
  ◌∙◌, ◌∷◌, ◌≡◌,
}
use helix_sdk_py.Json.Loads.{
  Place, Token, behind, between, finish, in_digits, is_digit, is_fraction, lex, minus, opening,
  prepend, signed, step, t_int, whole_zero,
}
use helix_sdk_py.Json.Loads.Lexed.{lex-step}
use helix_sdk_py.Text.{Text}
use helix_sdk_py.Text.Decimal.{digits_on, int_text}

-- What a number may stand in front of.
abbrev pub is_loose : Text → Bool
is_loose [] = true
is_loose (c ∷ s) = not (is_digit c || is_fraction c)

prepend-prepend :
    (t : Token) (out : List Token) (r : Option (List Token))
    → prepend (t ∷ out) r ≡ prepend (t ∷ []) (prepend out r)
prepend-prepend t out none = refl
prepend-prepend t out (some ts) = refl

lex-behind :
    (place : Place) (n : ℤ) (c : ℕ) (s : Text)
    → step place c ≡ behind n c
    → is_fraction c ≡ false
    → lex place (c ∷ s) ≡ prepend (t_int n ∷ []) (lex between (c ∷ s))
unfolding lex step
lex-behind place n c s e whole = elim (Option-cases (opening c)) [
  | inl wrong ↦ rw (lex, e, whole, wrong) refl
  | inr ((out, next), found) ↦
      rw (lex, e, whole, found) (prepend-prepend (t_int n) out (lex next s))
]

lex-number_end :
    (sign : Bool) (n : ℕ) (rest : Text)
    → is_loose rest ≡ true
    → lex (in_digits sign n) rest ≡ prepend (t_int (signed sign n) ∷ []) (lex between rest)
unfolding lex finish step
lex-number_end sign n [] h = refl
lex-number_end sign n (c ∷ s) h =
    let no_digit : is_digit c ≡ false = ground arith in
    lex-behind (in_digits sign n) (signed sign n) c s (rw (step, no_digit) refl) (ground arith)

lex-zero_end :
    (rest : Text)
    → is_loose rest ≡ true
    → lex whole_zero rest ≡ prepend (t_int (pos 0) ∷ []) (lex between rest)
unfolding lex finish step
lex-zero_end [] h = refl
lex-zero_end (c ∷ s) h = lex-behind whole_zero (pos 0) c s refl (ground arith)

step-digit :
    (sign : Bool) (n d : ℕ)
    → d < 10
    → step (in_digits sign n) (48 + d) ≡ some ([], in_digits sign (n * 10 + d))
unfolding step
step-digit sign n d h = ground arith

lex-digits :
    (place : Place) (sign : Bool) (fuel n : ℕ) (rest : Text)
    → ((d : ℕ) → 0 < d → d < 10 → step place (48 + d) ≡ some ([], in_digits sign d))
    → 0 < n
    → n < fuel
    → lex place (digits_on fuel n ++ rest) ≡ lex (in_digits sign n) rest
unfolding digits_on
lex-digits place sign zero n rest begins h k = absurd (omega arith)
lex-digits place sign (suc fuel) n rest begins h k = elim (Bool-cases (ltb n 10)) [
  | inl last ↦ rw (digits_on, last) (lex-step _ _ _ _ (begins n h (ground arith)))
  | inr more ↦
      let whole : n / 10 * 10 + n % 10 ≡ n = omega arith in
      let enough : n / 10 < fuel = ground arith in
      let left : 0 < n / 10 = ground arith in
      rw (digits_on, more)
        (ap (lex place) (append_assoc (digits_on fuel (n / 10)) ((48 + n % 10) ∷ []) rest)
          ∙ lex-digits place sign fuel (n / 10) ((48 + n % 10) ∷ rest) begins left enough
          ∙ lex-step _ _ _ _ (step-digit sign (n / 10) (n % 10) (omega arith))
          ∙ ap (λ m. lex (in_digits sign m) rest) whole)
]

between_digit : (d : ℕ) → 0 < d → d < 10 → step between (48 + d) ≡ some ([], in_digits false d)
unfolding step
between_digit d h k = ground arith

minus_digit : (d : ℕ) → 0 < d → d < 10 → step minus (48 + d) ≡ some ([], in_digits true d)
unfolding step
minus_digit d h k = ground arith

pub lex-int_text :
    (n : ℤ) (rest : Text)
    → is_loose rest ≡ true
    → lex between (int_text n ++ rest) ≡ prepend (t_int n ∷ []) (lex between rest)
unfolding int_text step
lex-int_text (pos zero) rest h = lex-step _ _ _ _ refl ∙ lex-zero_end rest h
lex-int_text (pos (suc n)) rest h =
    lex-digits between false (suc (suc n)) (suc n) rest between_digit (omega arith) (omega arith)
    ∙ lex-number_end false (suc n) rest h
lex-int_text (negsuc n) rest h =
    lex-step between minus b'-' _ refl
    ∙ lex-digits minus true (suc (suc n)) (suc n) rest minus_digit (omega arith) (omega arith)
    ∙ lex-number_end true (suc n) rest h
