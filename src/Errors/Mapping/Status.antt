-- ===== src/Errors/Mapping/Status.antt =====
-- The status of an error whose code is not known: what `int(status)` makes of the values of the body.
use helix_sdk_py.Base.{
  All, All-append, Bool, Bool-cases, [], ap, append-nil, append_assoc, arith, false, inl, inr, leb,
  ltb, negsuc, none, pos, refl, some, suc, sym, true, zero, ℕ, ℤ, ◌%◌, ◌&&◌, ◌*◌, ◌++◌, ◌+◌, ◌-◌,
  ◌/◌, ◌<◌, ◌==◌, ◌∙◌, ◌∷◌, ◌≡◌, ◌≤◌,
}
use helix_sdk_py.Errors.Mapping.{
  digits_value, get_or_default, parse_int, status_number, status_of, unsigned_value,
}
use helix_sdk_py.Json.{Items, Json, Members, arr, get, int, null, obj, str}
use helix_sdk_py.Keys.{is_whitespace, strip, strip_left}
use helix_sdk_py.Keys.PrivateKey.{has_no_space, strip-no_space}
use helix_sdk_py.Text.{Text, text}
use helix_sdk_py.Text.Decimal.{decimal, digits_on, int_text}

-- The number that `int` makes of a value, 500 where it fails: of an integer, of its decimal text,
-- and of what is no number at all.
pub data Reads : Json → ℤ → Type 0 where
  number : (n : ℤ) → Reads (int n) n
  numeral : (n : ℤ) → Reads (str (int_text n)) n
  empty_text : Reads (str []) (pos 500)
  nothing : Reads null (pos 500)
  a_list : (vs : Items) → Reads (arr vs) (pos 500)
  a_dict : (ms : Members) → Reads (obj ms) (pos 500)

-- The status that a body has: the value of "statusCode", if it has none that of "status", and 500
-- with neither.
pub data HasStatus (body : Members) : ℤ → Type 0 where
  by_status_code :
      {n : ℤ} (v : Json) → get (text "statusCode") body ≡ some v → Reads v n → HasStatus body n
  by_status :
      {n : ℤ} (v : Json)
      → get (text "statusCode") body ≡ none
      → get (text "status") body ≡ some v
      → Reads v n
      → HasStatus body n
  by_default :
      get (text "statusCode") body ≡ none
      → get (text "status") body ≡ none
      → HasStatus body (pos 500)

IsDigit : ℕ → Type 0
IsDigit c = (48 ≤ c) × (c ≤ 57)

digits_on-IsDigit : (fuel n : ℕ) → All IsDigit (digits_on fuel n)
unfolding digits_on IsDigit
digits_on-IsDigit zero n = tt
digits_on-IsDigit (suc fuel) n = elim (Bool-cases (ltb n 10)) [
  | inl last ↦ rw last ((omega arith, ground arith), tt)
  | inr more ↦ rw more (
      All-append IsDigit (digits_on fuel (n / 10)) ((48 + n % 10) ∷ [])
        (digits_on-IsDigit fuel (n / 10)) ((omega arith, omega arith), tt))
]

digits_value-digit :
    (b : Bool) (acc d m : ℕ) (s : Text)
    → d < 10
    → 10 * acc + d ≡ m
    → digits_value b acc ((48 + d) ∷ s) ≡ digits_value true m s
unfolding digits_value
digits_value-digit b acc d m s h e =
    let is_digit : leb 48 (48 + d) && leb (48 + d) 57 ≡ true = ground arith in
    let next : 10 * acc + (48 + d - 48) ≡ m = omega arith in rw (digits_value, is_digit, next) refl

digits_value-digits_on :
    (b : Bool) (fuel n : ℕ) (s : Text)
    → n < fuel
    → digits_value b 0 (digits_on fuel n ++ s) ≡ digits_value true n s
unfolding digits_on
digits_value-digits_on b zero n s h = absurd (omega arith)
digits_value-digits_on b (suc fuel) n s h = elim (Bool-cases (ltb n 10)) [
  | inl last ↦ rw (digits_on, last) (digits_value-digit b 0 n n s (ground arith) (omega arith))
  | inr more ↦
      let left : n / 10 < fuel = ground arith in
      rw (digits_on, more)
        (ap (digits_value b 0) (append_assoc (digits_on fuel (n / 10)) ((48 + n % 10) ∷ []) s)
          ∙ digits_value-digits_on b fuel (n / 10) ((48 + n % 10) ∷ s) left
          ∙ digits_value-digit true (n / 10) (n % 10) n s (omega arith) (omega arith))
]

unsigned_value-decimal : (n : ℕ) → unsigned_value (decimal n) ≡ some n
unfolding unsigned_value decimal digits_value
unsigned_value-decimal n =
    ap (digits_value false 0) (sym (append-nil (digits_on (suc n) n)))
    ∙ digits_value-digits_on false (suc n) n [] (omega arith)

-- Digits have no sign in front.
parse_int-digits :
    (s : Text) (n : ℕ) → All IsDigit s → unsigned_value s ≡ some n → parse_int s ≡ some (pos n)
unfolding parse_int IsDigit unsigned_value digits_value
parse_int-digits [] n h e = absurd (cc e)
parse_int-digits (c ∷ s) n ((from, to), _) e =
    let no_minus : c == b'-' ≡ false = ground arith in
    let no_plus : c == b'+' ≡ false = ground arith in rw (parse_int, no_minus, no_plus, e) refl

decimal-IsDigit : (n : ℕ) → All IsDigit (decimal n)
unfolding decimal
decimal-IsDigit n = digits_on-IsDigit (suc n) n

parse_int-int_text : (n : ℤ) → parse_int (int_text n) ≡ some n
unfolding int_text parse_int
parse_int-int_text (pos n) =
    parse_int-digits (decimal n) n (decimal-IsDigit n) (unsigned_value-decimal n)
parse_int-int_text (negsuc n) = rw (parse_int, unsigned_value-decimal (suc n)) refl

digits-no_space : (s : Text) → All IsDigit s → has_no_space s ≡ true
unfolding IsDigit is_whitespace
digits-no_space [] h = refl
digits-no_space (c ∷ s) ((from, to), h) =
    let first : is_whitespace c ≡ false = ground arith in rw (first, digits-no_space s h) refl

int_text-no_space : (n : ℤ) → has_no_space (int_text n) ≡ true
unfolding int_text is_whitespace
int_text-no_space (pos n) = digits-no_space (decimal n) (decimal-IsDigit n)
int_text-no_space (negsuc n) = digits-no_space (decimal (suc n)) (decimal-IsDigit (suc n))

status_number-Reads : (v : Json) (n : ℤ) → Reads v n → status_number v ≡ n
unfolding status_number strip strip_left parse_int
status_number-Reads _ _ (number n) = refl
status_number-Reads _ _ (numeral n) =
    rw (status_number, strip-no_space (int_text n) (int_text-no_space n), parse_int-int_text n) refl
status_number-Reads _ _ empty_text = refl
status_number-Reads _ _ nothing = refl
status_number-Reads _ _ (a_list vs) = refl
status_number-Reads _ _ (a_dict ms) = refl

pub get_or_default-some :
    (k : Text) (default : Json) (ms : Members) (v : Json)
    → get k ms ≡ some v
    → get_or_default k default ms ≡ v
get_or_default-some k default ms v e = rw (get_or_default, e) refl

pub get_or_default-none :
    (k : Text) (default : Json) (ms : Members)
    → get k ms ≡ none
    → get_or_default k default ms ≡ default
get_or_default-none k default ms e = rw (get_or_default, e) refl

pub status_of-HasStatus : (body : Members) (n : ℤ) → HasStatus body n → status_of body ≡ n
unfolding status_of
status_of-HasStatus body n (by_status_code v e r) =
    ap status_number (get_or_default-some _ _ body v e) ∙ status_number-Reads v n r
status_of-HasStatus body n (by_status v absent e r) =
    ap status_number (get_or_default-none _ _ body absent ∙ get_or_default-some _ _ body v e)
    ∙ status_number-Reads v n r
status_of-HasStatus body _ (by_default absent absent_too) =
    ap status_number (get_or_default-none _ _ body absent ∙ get_or_default-none _ _ body absent_too)
    ∙ status_number-Reads _ _ (number (pos 500))
