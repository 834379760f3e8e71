-- ===== src/Base58/RoundTrip.antt =====
-- Decoding what was encoded: exact for data with an octet that is not zero, two octets too long
-- for data of zeros alone.
use helix_sdk_py.Base.{
  ==_iff, All, All-reverse_aux, Bool, Bool-cases, List, [], add_comm, passes, passes-at, any, ap,
  ap₂, arith, false, inl, inr, map, none, not, refl, replicate, reverse, reverse-reverse,
  reverse_aux, some, subst, suc, sym, true, zero, ℕ, ◌%◌, ◌*◌, ◌++◌, ◌+◌, ◌/◌, ◌<◌, ◌==◌, ◌||◌, ◌∎,
  ◌∷◌, ◌≡◌, ◌≡⟨◌⟩◌, ◌≢◌, ◌≤◌,
}
use helix_sdk_py.Base58.{
  alphabet, alphabet_at, base58btc_decode, base58btc_encode, convert, count_ones, indices,
  leading_ones, mul_add,
}
use helix_sdk_py.Base58.Digits.{InRange, IsTrimmed, convert-InRange, horner, value, value-convert}
use helix_sdk_py.Base58.Zeros.{convert-zeros, convert_start-IsTrimmed, trimmed_unique}
use helix_sdk_py.Text.{Bytes, Text, find}
use helix_sdk_py.Text.Hex.{IsByte}

horner-eq-value : (m : ℕ) (ds xs : List ℕ) → horner m (value m ds) xs ≡ value m (reverse_aux xs ds)
unfolding horner value
horner-eq-value m ds [] = refl
horner-eq-value m ds (x ∷ xs) = rw (add_comm (m * value m ds) x) (horner-eq-value m (x ∷ ds) xs)

reverse_aux-IsTrimmed :
    (b : ℕ) (xs ds : List ℕ)
    → 1 ≤ b
    → value b ds ≢ 0
    → IsTrimmed b ds
    → IsTrimmed b (reverse_aux xs ds)
unfolding value
reverse_aux-IsTrimmed b [] ds h n t = t
reverse_aux-IsTrimmed b (x ∷ xs) ds h n t =
    let grown : x + b * value b ds ≢ 0 = grind arith in
    reverse_aux-IsTrimmed b xs (x ∷ ds) h grown (grown, t)

-- Highest first, such a list begins with no zero.
reverse_aux-head :
    (b : ℕ) (ds acc : List ℕ)
    → IsTrimmed b ds
    → ds ≢ []
    → (y : ℕ) × (ys : List ℕ) × (reverse_aux ds acc ≡ y ∷ ys) × (y ≢ 0)
unfolding value
reverse_aux-head b [] acc t h = absurd (h refl)
reverse_aux-head b (d ∷ []) acc (n, _) h = (d, acc, refl, λ e. n (omega arith))
reverse_aux-head b (d ∷ d' ∷ ds) acc (_, t) h = reverse_aux-head b (d' ∷ ds) (d ∷ acc) t (λ e. cc)

alphabet_table :
    passes (λ d. elim (find alphabet (alphabet_at d)) [ none ↦ false | some i ↦ i == d ]) 57 ≡ true
unfolding passes find alphabet_at
alphabet_table = refl

one_table : passes (λ d. d == 0 || not (alphabet_at d == b'1')) 57 ≡ true
unfolding passes alphabet_at
one_table = refl

-- The position of a digit's letter is the digit.
find-alphabet_at : (d : ℕ) → d < 58 → find alphabet (alphabet_at d) ≡ some d
find-alphabet_at d h = ground (
  arith,
  passes-at (λ (d : ℕ). elim (find alphabet (alphabet_at d)) [ none ↦ false | some i ↦ i == d ]) d
      57 (omega arith) alphabet_table,
)

alphabet_at-ne-one : (d : ℕ) → d < 58 → d ≢ 0 → (alphabet_at d == b'1') ≡ false
alphabet_at-ne-one d h n = ground (
  arith,
  passes-at (λ (d : ℕ). d == 0 || not (alphabet_at d == b'1')) d 57 (omega arith) one_table,
)

indices-map : (ds : List ℕ) → InRange 58 ds → indices (map alphabet_at ds) ≡ some ds
unfolding indices
indices-map [] h = refl
indices-map (d ∷ ds) (p, h) = rw (indices, find-alphabet_at d p, indices-map ds h)

indices-ones :
    (n : ℕ) (s : Text) (is : List ℕ)
    → indices s ≡ some is
    → indices (replicate n b'1' ++ s) ≡ some (replicate n 0 ++ is)
unfolding indices find
indices-ones zero s is h = h
indices-ones (suc n) s is h = rw (indices-ones n s is h)

count_ones-ones : (n : ℕ) (s : Text) → count_ones s ≡ 0 → count_ones (replicate n b'1' ++ s) ≡ n
unfolding count_ones
count_ones-ones zero s h = h
count_ones-ones (suc n) s h = ap suc (count_ones-ones n s h)

leading_ones-zeros :
    (n x : ℕ) (xs : Bytes) → x ≢ 0 → leading_ones (replicate n 0 ++ x ∷ xs) ≡ replicate n b'1'
unfolding leading_ones
leading_ones-zeros zero x xs h = ground arith
leading_ones-zeros (suc n) x xs h = ap (λ s. b'1' ∷ s) (leading_ones-zeros n x xs h)

pub base58btc_encode_lem :
    (bs : Bytes)
    → bs ≢ []
    → base58btc_encode bs
      ≡ leading_ones bs ++ map alphabet_at (reverse (convert 256 58 (0 ∷ []) bs))
unfolding base58btc_encode
base58btc_encode_lem [] h = absurd (h refl)
base58btc_encode_lem (b ∷ bs) h = refl

pub base58btc_decode_lem :
    (s : Text) (is : List ℕ)
    → s ≢ []
    → indices s ≡ some is
    → base58btc_decode s ≡ some (replicate (count_ones s) 0 ++ reverse (convert 58 256 (0 ∷ []) is))
unfolding base58btc_decode
base58btc_decode_lem [] is h e = absurd (h refl)
base58btc_decode_lem (c ∷ s) is h e = rw (e, base58btc_decode)

pub append-cons-ne-nil {ℓ} : {A : Type ℓ} (xs : List A) (y : A) (ys : List A) → xs ++ y ∷ ys ≢ []
append-cons-ne-nil [] y ys e = cc
append-cons-ne-nil (x ∷ xs) y ys e = cc

count_ones_head : (y : ℕ) (ys : List ℕ) → y < 58 → y ≢ 0 → count_ones (map alphabet_at (y ∷ ys)) ≡ 0
unfolding count_ones
count_ones_head y ys h n = rw (alphabet_at-ne-one y h n)

same_number :
    (x : ℕ) (xs : Bytes) (y : ℕ) (ys : List ℕ)
    → reverse (convert 256 58 (0 ∷ []) (x ∷ xs)) ≡ y ∷ ys
    → value 256 (convert 58 256 (0 ∷ []) (y ∷ ys)) ≡ value 256 (reverse (x ∷ xs))
unfolding value
same_number x xs y ys e =
    value 256 (convert 58 256 (0 ∷ []) (y ∷ ys))
    ≡⟨ value-convert 58 256 (0 ∷ []) (y ∷ ys) (omega arith) ⟩ horner 58 0 (y ∷ ys)
    ≡⟨ horner-eq-value 58 [] (y ∷ ys) ⟩ value 58 (reverse (y ∷ ys))
    ≡⟨ ap (λ l. value 58 (reverse l)) (sym e) ⟩
      value 58 (reverse (reverse (convert 256 58 (0 ∷ []) (x ∷ xs))))
    ≡⟨ ap (value 58) (reverse-reverse _) ⟩ value 58 (convert 256 58 (0 ∷ []) (x ∷ xs))
    ≡⟨ value-convert 256 58 (0 ∷ []) (x ∷ xs) (omega arith) ⟩ horner 256 0 (x ∷ xs)
    ≡⟨ horner-eq-value 256 [] (x ∷ xs) ⟩ value 256 (reverse (x ∷ xs)) ∎

convert-ne-nil : (d : ℕ) (ds : List ℕ) (xs : Bytes) → convert 256 58 (d ∷ ds) xs ≢ []
unfolding convert
convert-ne-nil d ds [] e = cc
convert-ne-nil d ds (x ∷ xs) e =
    convert-ne-nil ((d * 256 + x) % 58) (mul_add 256 58 ds ((d * 256 + x) / 58)) xs e

-- The encoding of data with `n` leading zeros.
encode-zeros :
    (n x : ℕ) (xs : Bytes)
    → x ≢ 0
    → base58btc_encode (replicate n 0 ++ x ∷ xs)
      ≡ replicate n b'1' ++ map alphabet_at (reverse (convert 256 58 (0 ∷ []) (x ∷ xs)))
encode-zeros n x xs h = rw (
  base58btc_encode_lem (replicate n 0 ++ x ∷ xs) (append-cons-ne-nil (replicate n 0) x xs),
  leading_ones-zeros n x xs h,
  convert-zeros 256 58 n (x ∷ xs) (omega arith),
)

-- The octets that come back behind the leading zeros.
digits_back :
    (x : ℕ) (xs : Bytes) (y : ℕ) (ys : List ℕ)
    → IsByte x
    → All IsByte xs
    → x ≢ 0
    → y ≢ 0
    → reverse (convert 256 58 (0 ∷ []) (x ∷ xs)) ≡ y ∷ ys
    → convert 58 256 (0 ∷ []) (y ∷ ys) ≡ reverse (x ∷ xs)
digits_back x xs y ys bx bxs nx ny e =
    let numbers : value 256 (convert 58 256 (0 ∷ []) (y ∷ ys)) ≡ value 256 (reverse (x ∷ xs)) =
      same_number x xs y ys e in
    trimmed_unique 256 (convert 58 256 (0 ∷ []) (y ∷ ys)) (reverse (x ∷ xs))
      (convert-InRange 58 256 (0 ∷ []) (y ∷ ys) (omega arith) (omega arith))
      (All-reverse_aux IsByte (x ∷ xs) [] (bx, bxs) tt)
      (convert_start-IsTrimmed 58 256 y ys (omega arith) (omega arith) ny)
      (reverse_aux-IsTrimmed 256 xs (x ∷ []) (omega arith) (unfold value in λ q. nx (omega arith))
        (unfold value in (λ q. nx (omega arith), tt)))
      numbers

round_trip_split :
    (n x : ℕ) (xs : Bytes)
    → IsByte x
    → All IsByte xs
    → x ≢ 0
    → base58btc_decode (base58btc_encode (replicate n 0 ++ x ∷ xs)) ≡ some (replicate n 0 ++ x ∷ xs)
round_trip_split n x xs bx bxs nx =
    let ds = convert 256 58 (0 ∷ []) (x ∷ xs) in
    let range : InRange 58 ds =
      convert-InRange 256 58 (0 ∷ []) (x ∷ xs) (omega arith) (omega arith) in
    let trimmed : IsTrimmed 58 ds =
      convert_start-IsTrimmed 256 58 x xs (omega arith) (omega arith) nx in
    let (y, ys, e, ny) = reverse_aux-head 58 ds [] trimmed (convert-ne-nil 0 [] (x ∷ xs)) in
    let turned : InRange 58 (y ∷ ys) =
      subst (λ l. InRange 58 l) e (All-reverse_aux (λ d. d < 58) ds [] range tt) in
    rw (
      encode-zeros n x xs nx,
      e,
      base58btc_decode_lem (replicate n b'1' ++ map alphabet_at (y ∷ ys)) (replicate n 0 ++ y ∷ ys)
          (append-cons-ne-nil (replicate n b'1') (alphabet_at y) (map alphabet_at ys))
          (indices-ones n (map alphabet_at (y ∷ ys)) (y ∷ ys) (indices-map (y ∷ ys) turned)),
      count_ones-ones n (map alphabet_at (y ∷ ys)) (count_ones_head y ys turned.0 ny),
      convert-zeros 58 256 n (y ∷ ys) (omega arith),
      digits_back x xs y ys bx bxs nx ny e,
      reverse-reverse,
    )

-- Some octet is not zero.
abbrev pub has_nonzero : Bytes → Bool
has_nonzero bs = any (λ b. not (b == 0)) bs

-- The leading zeros of such data, and what follows them.
zeros_split :
    (bs : Bytes)
    → All IsByte bs
    → has_nonzero bs ≡ true
    → (n : ℕ) × (x : ℕ) × (xs : Bytes) × (bs ≡ replicate n 0 ++ x ∷ xs)
      × IsByte x
      × All IsByte xs
      × (x ≢ 0)
zeros_split [] h e = cc
zeros_split (b ∷ bs) (p, h) e = elim (Bool-cases (b == 0)) [
  | inl zero_octet ↦
      let (n, x, xs, split, bx, bxs, nx) = zeros_split bs h (ground arith) in
      (suc n, x, xs, ap₂ ◌∷◌ ((==_iff b 0).0 zero_octet) split, bx, bxs, nx)
  | inr other ↦ (0, b, bs, refl, p, h, ground arith)
]

-- Decoding the encoding of octets, at least one of which is not zero, gives the octets back.
pub base58btc_decode-encode :
    (bs : Bytes)
    → All IsByte bs
    → has_nonzero bs ≡ true
    → base58btc_decode (base58btc_encode bs) ≡ some bs
base58btc_decode-encode bs h e =
    let (n, x, xs, split, bx, bxs, nx) = zeros_split bs h e in
    rw split (round_trip_split n x xs bx bxs nx)
