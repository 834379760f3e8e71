-- ===== src/Base58/AllZeros.antt =====
-- Data of zero octets only.
use helix_sdk_py.Base.{
  [], ap, append-nil, arith, refl, replicate, some, subst, suc, zero, ℕ, ◌++◌, ◌∷◌, ◌≡◌, ◌≤◌,
}
use helix_sdk_py.Base58.{
  alphabet_at, base58btc_decode, base58btc_encode, convert, count_ones, indices, leading_ones,
}
use helix_sdk_py.Base58.RoundTrip.{base58btc_decode_lem, base58btc_encode_lem}
use helix_sdk_py.Base58.Zeros.{convert-zeros}
use helix_sdk_py.Text.{find}

replicate-snoc {ℓ} : {A : Type ℓ} (n : ℕ) (a : A) → replicate n a ++ a ∷ [] ≡ a ∷ replicate n a
replicate-snoc zero a = refl
replicate-snoc (suc n) a = ap (λ xs. a ∷ xs) (replicate-snoc n a)

leading_ones-all : (n : ℕ) → leading_ones (replicate n 0) ≡ replicate n b'1'
unfolding leading_ones
leading_ones-all zero = refl
leading_ones-all (suc n) = ap (λ s. b'1' ∷ s) (leading_ones-all n)

count_ones-all : (n : ℕ) → count_ones (replicate n b'1') ≡ n
unfolding count_ones
count_ones-all zero = refl
count_ones-all (suc n) = ap suc (count_ones-all n)

indices-all : (n : ℕ) → indices (replicate n b'1') ≡ some (replicate n 0)
unfolding indices find
indices-all zero = refl
indices-all (suc n) = rw (indices-all n)

convert-all : (m b n : ℕ) → 2 ≤ b → convert m b (0 ∷ []) (replicate n 0) ≡ 0 ∷ []
unfolding convert
convert-all m b n h =
    subst (λ xs. convert m b (0 ∷ []) xs ≡ 0 ∷ []) (append-nil (replicate n 0))
      (convert-zeros m b n [] h)

encode_all_zeros : (n : ℕ) → base58btc_encode (replicate (suc n) 0) ≡ replicate (suc (suc n)) b'1'
unfolding alphabet_at
encode_all_zeros n =
    rw
      (
        base58btc_encode_lem (replicate (suc n) 0) (λ e. cc),
        leading_ones-all (suc n),
        convert-all 256 58 (suc n) (omega arith),
      )
      (replicate-snoc (suc n) b'1')

-- One or more octets that are all zero come back with two zero octets too many.
pub base58btc_decode-encode_zeros :
    (n : ℕ)
    → base58btc_decode (base58btc_encode (replicate (suc n) 0))
      ≡ some (replicate (suc (suc (suc n))) 0)
base58btc_decode-encode_zeros n =
    rw
      (
        encode_all_zeros n,
        base58btc_decode_lem (replicate (suc (suc n)) b'1') (replicate (suc (suc n)) 0) (λ e. cc)
            (indices-all (suc (suc n))),
        count_ones-all (suc (suc n)),
        convert-all 58 256 (suc (suc n)) (omega arith),
      )
      (ap some (replicate-snoc (suc (suc n)) 0))
