-- ===== src/Keys/PrivateKey.antt =====
-- Normalised private keys.
use mathlib.Core.Bool.{and-eq-true_iff}
use helix_sdk_py.Base.{
  ==_iff, Bool, Bool-cases, [], all, ap, arith, drop, false, inl, inr, leb, length, length-drop,
  not, refl, reverse, reverse-reverse, reverse_aux, some, suc, true, zero, ℕ, ◌&&◌, ◌==◌, ◌||◌, ◌∙◌,
  ◌∷◌, ◌≡◌,
}
use helix_sdk_py.Keys.{
  is_hex, is_pkcs8_hex, is_raw_hex, is_whitespace, lower, lower_char,
  normalize_ed25519_private_key_hex, normalize_stripped, pkcs8_der_prefix, strip, strip_left,
}
use helix_sdk_py.Text.{Text, starts_with}

abbrev pub is_lower_hex : ℕ → Bool
is_lower_hex c = leb b'0' c && leb c b'9' || leb b'a' c && leb c b'f'

lower_char-is_lower_hex : (c : ℕ) → is_hex c ≡ true → is_lower_hex (lower_char c) ≡ true
unfolding is_hex lower_char
lower_char-is_lower_hex c h = ground arith

lower-is_lower_hex : (s : Text) → all is_hex s ≡ true → all is_lower_hex (lower s) ≡ true
unfolding lower
lower-is_lower_hex [] h = refl
lower-is_lower_hex (c ∷ s) h = ground (arith, lower_char-is_lower_hex c, lower-is_lower_hex s)

length-lower : (s : Text) → length (lower s) ≡ length s
unfolding lower
length-lower [] = refl
length-lower (c ∷ s) = ap suc (length-lower s)

all-drop : (p : ℕ → Bool) (n : ℕ) (s : Text) → all p s ≡ true → all p (drop n s) ≡ true
all-drop p zero s h = h
all-drop p (suc n) [] h = refl
all-drop p (suc n) (c ∷ s) h = all-drop p n s (ground arith)

raw_hex-form : (v : Text) → is_raw_hex v ≡ true → (length v ≡ 64) × (all is_hex v ≡ true)
unfolding is_raw_hex
raw_hex-form v h = ground (arith, ==_iff (length v) 64)

pkcs8_hex-form : (v : Text) → is_pkcs8_hex v ≡ true → (length v ≡ 96) × (all is_hex v ≡ true)
unfolding is_pkcs8_hex
pkcs8_hex-form v h =
    let (front, digits) =
      (and-eq-true_iff (length v == 96 && starts_with (lower v) pkcs8_der_prefix) _).0 h in
    ((==_iff (length v) 96).0 ((and-eq-true_iff (length v == 96) _).0 front).0, digits)

-- What both branches return: a lower-case copy of 64 hex digits.
lower-form :
    (s k : Text)
    → length s ≡ 64
    → all is_hex s ≡ true
    → some (lower s) ≡ some k
    → (length k ≡ 64) × (all is_lower_hex k ≡ true)
lower-form s k size digits e =
    let same : lower s ≡ k = cc in rw (← same) (length-lower s ∙ size, lower-is_lower_hex s digits)

normalize_stripped-form :
    (v k : Text) → normalize_stripped v ≡ some k → (length k ≡ 64) × (all is_lower_hex k ≡ true)
unfolding normalize_stripped
normalize_stripped-form v k h = elim (Bool-cases (is_raw_hex v)) [
  | inl raw ↦
      let (size, digits) = raw_hex-form v raw in
      lower-form v k size digits (rw (raw, normalize_stripped) at h)
  | inr not_raw ↦ elim (Bool-cases (is_pkcs8_hex v)) [
    | inl der ↦
        let (size, digits) = pkcs8_hex-form v der in
        lower-form (drop 32 v) k (omega (arith, length-drop 32 v, size))
          (all-drop is_hex 32 v digits) (rw (not_raw, der, normalize_stripped) at h)
    | inr not_der ↦ absurd (cc (rw (not_raw, not_der, normalize_stripped) at h))
  ]
]

lower_hex_char :
    (c : ℕ)
    → is_lower_hex c ≡ true
    → (is_hex c ≡ true) × (lower_char c ≡ c) × (is_whitespace c ≡ false)
unfolding is_hex lower_char is_whitespace
lower_hex_char c h = ground arith

all-lower_hex : (s : Text) → all is_lower_hex s ≡ true → (all is_hex s ≡ true) × (lower s ≡ s)
unfolding lower
all-lower_hex [] h = (refl, refl)
all-lower_hex (c ∷ s) h = ground (arith, lower_hex_char c, all-lower_hex s)

strip_left-lower_hex : (s : Text) → all is_lower_hex s ≡ true → strip_left s ≡ s
unfolding strip_left
strip_left-lower_hex [] h = refl
strip_left-lower_hex (c ∷ s) h = ground (arith, lower_hex_char c)

all-reverse_aux :
    (p : ℕ → Bool) (s t : Text) → all p s ≡ true → all p t ≡ true → all p (reverse_aux s t) ≡ true
all-reverse_aux p [] t h k = k
all-reverse_aux p (c ∷ s) t h k = all-reverse_aux p s (c ∷ t) (ground arith) (ground arith)

strip-lower_hex : (s : Text) → all is_lower_hex s ≡ true → strip s ≡ s
unfolding strip
strip-lower_hex s h = rw (
  strip_left-lower_hex s h,
  strip_left-lower_hex (reverse s) (all-reverse_aux is_lower_hex s [] h refl),
  reverse-reverse,
)

-- 64 lower-case hex digits are their own normal form.
pub normalize-lower_hex :
    (k : Text)
    → length k ≡ 64
    → all is_lower_hex k ≡ true
    → normalize_ed25519_private_key_hex k ≡ some k
unfolding normalize_ed25519_private_key_hex normalize_stripped is_raw_hex
normalize-lower_hex k size digits = rw (strip-lower_hex k digits) (ground (arith, all-lower_hex k))

-- A normalised private key has 64 lower-case hex digits and no others, and is its own normal form.
pub normalize-form :
    (v k : Text)
    → normalize_ed25519_private_key_hex v ≡ some k
    → (length k ≡ 64) × (all is_lower_hex k ≡ true) × (normalize_ed25519_private_key_hex k ≡ some k)
unfolding normalize_ed25519_private_key_hex
normalize-form v k h =
    let (size, digits) = normalize_stripped-form (strip v) k h in
    (size, digits, normalize-lower_hex k size digits)

-- Whether a text has no white space.
abbrev pub has_no_space : Text → Bool
has_no_space s = all (λ c. not (is_whitespace c)) s

strip_left-no_space : (s : Text) → has_no_space s ≡ true → strip_left s ≡ s
unfolding strip_left
strip_left-no_space [] h = refl
strip_left-no_space (c ∷ s) h = ground arith

-- Such a text is stripped of nothing.
pub strip-no_space : (s : Text) → has_no_space s ≡ true → strip s ≡ s
unfolding strip
strip-no_space s h = rw (
  strip_left-no_space s h,
  strip_left-no_space (reverse s) (all-reverse_aux (λ c. not (is_whitespace c)) s [] h refl),
  reverse-reverse,
)
