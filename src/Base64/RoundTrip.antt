-- ===== src/Base64/RoundTrip.antt =====
-- Decoding what was encoded gives the octets back.
use helix_sdk_py.Base.{
  All, Bool, [], all, ap, ap₂, arith, false, ltb, refl, replicate, some, true, ℕ, ◌%◌, ◌*◌, ◌++◌,
  ◌+◌, ◌/◌, ◌<◌, ◌==◌, ◌∙◌, ◌∷◌, ◌≡◌,
}
use helix_sdk_py.Base64.{
  a2b, b64url_decode, b64url_encode, cons_octet, letter, padding, rstrip_pads, sextet,
  urlsafe_b64decode, urlsafe_b64encode,
}
use helix_sdk_py.Text.{Bytes, Text}
use helix_sdk_py.Text.Hex.{IsByte}

module _ (v : ℕ) (h : v < 64) where
  sextet-letter : sextet (letter v) ≡ some v
  unfolding letter sextet
  sextet-letter = ground arith

  letter-ne-pad : (letter v == b'=') ≡ false
  unfolding letter
  letter-ne-pad = ground arith

  letter-ascii : ltb (letter v) 128 ≡ true
  unfolding letter
  letter-ascii = ground arith

  a2b-first : (s : Text) → a2b 0 0 0 (letter v ∷ s) ≡ a2b 1 v 0 s
  unfolding a2b
  a2b-first s = rw (a2b, letter-ne-pad, sextet-letter)

  a2b-second :
      (left : ℕ) (s : Text)
      → a2b 1 left 0 (letter v ∷ s) ≡ cons_octet (left * 4 + v / 16) (a2b 2 (v % 16) 0 s)
  unfolding a2b
  a2b-second left s = rw (a2b, letter-ne-pad, sextet-letter)

  a2b-third :
      (left : ℕ) (s : Text)
      → a2b 2 left 0 (letter v ∷ s) ≡ cons_octet (left * 16 + v / 4) (a2b 3 (v % 4) 0 s)
  unfolding a2b
  a2b-third left s = rw (a2b, letter-ne-pad, sextet-letter)

  a2b-fourth :
      (left : ℕ) (s : Text) → a2b 3 left 0 (letter v ∷ s) ≡ cons_octet (left * 64 + v) (a2b 0 0 0 s)
  unfolding a2b
  a2b-fourth left s = rw (a2b, letter-ne-pad, sextet-letter)

three_octets :
    {m n k x y z : ℕ} (bs : Bytes)
    → m ≡ x
    → n ≡ y
    → k ≡ z
    → some (m ∷ n ∷ k ∷ bs) ≡ some (x ∷ y ∷ z ∷ bs)
three_octets bs p q r = cc

a2b-urlsafe : (bs : Bytes) → All IsByte bs → a2b 0 0 0 (urlsafe_b64encode bs) ≡ some bs
unfolding urlsafe_b64encode a2b
a2b-urlsafe [] h = refl
a2b-urlsafe (x ∷ []) (p, _) =
    rw
      (
        a2b-first (x / 4) (omega arith),
        a2b-second (x % 4 * 16) (omega arith) (x / 4) (b'=' ∷ b'=' ∷ []),
      )
      (ap (λ (n : ℕ). some (n ∷ [])) (omega arith))
a2b-urlsafe (x ∷ y ∷ []) (p, (q, _)) =
    rw
      (
        a2b-first (x / 4) (omega arith),
        a2b-second (x % 4 * 16 + y / 16) (omega arith) (x / 4),
        a2b-third (y % 16 * 4) (omega arith) ((x % 4 * 16 + y / 16) % 16) (b'=' ∷ []),
      )
      (ap₂ (λ (m n : ℕ). some (m ∷ n ∷ [])) (omega arith) (omega arith))
a2b-urlsafe (x ∷ y ∷ z ∷ bs) (p, (q, (r, h))) =
    rw
      (
        a2b-first (x / 4) (omega arith),
        a2b-second (x % 4 * 16 + y / 16) (omega arith) (x / 4),
        a2b-third (y % 16 * 4 + z / 64) (omega arith) ((x % 4 * 16 + y / 16) % 16),
        a2b-fourth (z % 64) (omega arith) ((y % 16 * 4 + z / 64) % 4) (urlsafe_b64encode bs),
        a2b-urlsafe bs h,
      )
      (three_octets bs (omega arith) (omega arith) (omega arith))

urlsafe-ascii : (bs : Bytes) → All IsByte bs → all (λ c. ltb c 128) (urlsafe_b64encode bs) ≡ true
unfolding urlsafe_b64encode
urlsafe-ascii [] h = refl
urlsafe-ascii (x ∷ []) (p, _) =
    rw (letter-ascii (x / 4) (omega arith), letter-ascii (x % 4 * 16) (omega arith))
urlsafe-ascii (x ∷ y ∷ []) (p, (q, _)) = rw (
  letter-ascii (x / 4) (omega arith),
  letter-ascii (x % 4 * 16 + y / 16) (omega arith),
  letter-ascii (y % 16 * 4) (omega arith),
)
urlsafe-ascii (x ∷ y ∷ z ∷ bs) (p, (q, (r, h))) = rw (
  letter-ascii (x / 4) (omega arith),
  letter-ascii (x % 4 * 16 + y / 16) (omega arith),
  letter-ascii (y % 16 * 4 + z / 64) (omega arith),
  letter-ascii (z % 64) (omega arith),
  urlsafe-ascii bs h,
)

rstrip-keep : (c : ℕ) (s : Text) → (c == b'=') ≡ false → rstrip_pads (c ∷ s) ≡ c ∷ rstrip_pads s
unfolding rstrip_pads
rstrip-keep c s h = rstrip_cases (rstrip_pads s) refl
  where
    rstrip_cases : (t : Text) → rstrip_pads s ≡ t → rstrip_pads (c ∷ s) ≡ c ∷ rstrip_pads s
    rstrip_cases [] e = rw (rstrip_pads, e, h)
    rstrip_cases (d ∷ t) e = rw (rstrip_pads, e)

-- The letters without the pads.
unpadded : Bytes → Text
unpadded [] = []
unpadded (x ∷ []) = letter (x / 4) ∷ letter (x % 4 * 16) ∷ []
unpadded (x ∷ y ∷ []) = letter (x / 4) ∷ letter (x % 4 * 16 + y / 16) ∷ letter (y % 16 * 4) ∷ []
unpadded (x ∷ y ∷ z ∷ bs) =
    letter (x / 4)
    ∷ letter (x % 4 * 16 + y / 16)
    ∷ letter (y % 16 * 4 + z / 64)
    ∷ letter (z % 64)
    ∷ unpadded bs

rstrip-letter :
    (v : ℕ) (s t : Text) → v < 64 → rstrip_pads s ≡ t → rstrip_pads (letter v ∷ s) ≡ letter v ∷ t
rstrip-letter v s t h e = rstrip-keep (letter v) s (letter-ne-pad v h) ∙ ap (λ r. letter v ∷ r) e

one_pad : rstrip_pads (b'=' ∷ []) ≡ []
unfolding rstrip_pads
one_pad = refl

two_pads : rstrip_pads (b'=' ∷ b'=' ∷ []) ≡ []
unfolding rstrip_pads
two_pads = refl

stripped : (bs : Bytes) → All IsByte bs → b64url_encode bs ≡ unpadded bs
unfolding urlsafe_b64encode b64url_encode unpadded
stripped [] h = unfold rstrip_pads in refl
stripped (x ∷ []) (p, _) =
    rstrip-letter (x / 4) _ _ (omega arith) (rstrip-letter (x % 4 * 16) _ _ (omega arith) two_pads)
stripped (x ∷ y ∷ []) (p, (q, _)) = rstrip-letter (x / 4) _ _ (omega arith) (
    rstrip-letter (x % 4 * 16 + y / 16) _ _ (omega arith)
      (rstrip-letter (y % 16 * 4) _ _ (omega arith) one_pad))
stripped (x ∷ y ∷ z ∷ bs) (p, (q, (r, h))) = rstrip-letter (x / 4) _ _ (omega arith) (
    rstrip-letter (x % 4 * 16 + y / 16) _ _ (omega arith) (
      rstrip-letter (y % 16 * 4 + z / 64) _ _ (omega arith)
        (rstrip-letter (z % 64) _ _ (omega arith) (stripped bs h))))

unpadded-all :
    (p : ℕ → Bool) (bs : Bytes)
    → ((v : ℕ) → v < 64 → p (letter v) ≡ true)
    → All IsByte bs
    → all p (unpadded bs) ≡ true
unfolding unpadded
unpadded-all p [] good h = refl
unpadded-all p (x ∷ []) good (b, _) =
    rw (good (x / 4) (omega arith), good (x % 4 * 16) (omega arith))
unpadded-all p (x ∷ y ∷ []) good (b, (c, _)) = rw (
  good (x / 4) (omega arith),
  good (x % 4 * 16 + y / 16) (omega arith),
  good (y % 16 * 4) (omega arith),
)
unpadded-all p (x ∷ y ∷ z ∷ bs) good (b, (c, (d, h))) = rw (
  good (x / 4) (omega arith),
  good (x % 4 * 16 + y / 16) (omega arith),
  good (y % 16 * 4 + z / 64) (omega arith),
  good (z % 64) (omega arith),
  unpadded-all p bs good h,
)

-- Every character of an unpadded text is a letter.
pub b64url_encode-all :
    (p : ℕ → Bool) (bs : Bytes)
    → ((v : ℕ) → v < 64 → p (letter v) ≡ true)
    → All IsByte bs
    → all p (b64url_encode bs) ≡ true
b64url_encode-all p bs good h = rw (stripped bs h) (unpadded-all p bs good h)

padding-group : (a b c d : ℕ) (s : Text) → padding (a ∷ b ∷ c ∷ d ∷ s) ≡ padding s
unfolding padding
padding-group a b c d s = ap (λ (n : ℕ). replicate n b'=') (omega arith)

unpadded-padding : (bs : Bytes) → unpadded bs ++ padding (unpadded bs) ≡ urlsafe_b64encode bs
unfolding urlsafe_b64encode unpadded
unpadded-padding [] = unfold padding in refl
unpadded-padding (x ∷ []) = unfold padding in refl
unpadded-padding (x ∷ y ∷ []) = unfold padding in refl
unpadded-padding (x ∷ y ∷ z ∷ bs) = rw (
  padding-group (letter (x / 4)) (letter (x % 4 * 16 + y / 16)) (letter (y % 16 * 4 + z / 64))
      (letter (z % 64)) (unpadded bs),
  unpadded-padding bs,
)

-- Decoding the unpadded base64url of octets, with the padding put back, gives the octets.
pub b64url_decode-encode : (bs : Bytes) → All IsByte bs → b64url_decode (b64url_encode bs) ≡ some bs
unfolding b64url_decode urlsafe_b64decode
b64url_decode-encode bs h =
    rw (stripped bs h, unpadded-padding bs, urlsafe_b64decode, urlsafe-ascii bs h)
      (a2b-urlsafe bs h)
