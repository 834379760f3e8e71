-- ===== src/Http/Url/Utf8.antt =====
-- `bytes.decode("utf-8")`, and that it reads what `str.encode` writes.
use helix_sdk_py.Base.{
  Bool, Bool-cases, Option, [], all, arith, if◌then◌else◌, inl, inr, leb, ltb, none, refl, some,
  suc, true, zero, ℕ, ◌%◌, ◌&&◌, ◌*◌, ◌++◌, ◌+◌, ◌-◌, ◌/◌, ◌<◌, ◌||◌, ◌∷◌, ◌≡◌,
}
use helix_sdk_py.Http.Url.{utf8_encode, utf8_octets}
use helix_sdk_py.Text.{Bytes, Text}

-- A code point that is no surrogate.
abbrev pub is_scalar : ℕ → Bool
is_scalar c = ltb c 0xD800 || leb 0xE000 c && ltb c 0x110000

abbrev cons_char : ℕ → Option Text → Option Text
cons_char c none = none
cons_char c (some s) = some (c ∷ s)

-- What the first octet of a character says: a whole character, or the least character that may stand
-- in so many octets more, with the bits so far.
pub data Lead : Type 0 where
  whole : Lead
  begun : (least missing acc : ℕ) → Lead
  stray : Lead

lead_of : ℕ → Lead
lead_of b =
    if ltb b 0x80
    then whole
    else if ltb b 0xC0
    then stray
    else if ltb b 0xE0
    then begun 0x80 0 (b - 0xC0)
    else if ltb b 0xF0
    then begun 0x800 1 (b - 0xE0)
    else if ltb b 0xF8
    then begun 0x10000 2 (b - 0xF0)
    else stray

is_continuation : ℕ → Bool
is_continuation b = leb 0x80 b && ltb b 0xC0

mutual
  unfolding lead_of is_continuation

  decode_start : Bytes → Option Text
  decode_start [] = some []
  decode_start (b ∷ bs) = elim (lead_of b) [
    | whole ↦ cons_char b (decode_start bs)
    | begun least missing acc ↦ decode_rest least missing acc bs
    | stray ↦ none
  ]

  -- `missing` octets more after the next one.
  decode_rest : (least missing acc : ℕ) → Bytes → Option Text
  decode_rest least missing acc [] = none
  decode_rest least zero acc (b ∷ bs) =
      let char = acc * 64 + (b - 0x80) in
      let next = cons_char char (decode_start bs) in
      if is_continuation b then if leb least char && is_scalar char then next else none else none
  decode_rest least (suc n) acc (b ∷ bs) =
      let next = decode_rest least n (acc * 64 + (b - 0x80)) bs in
      if is_continuation b then next else none

-- `octets.decode("utf-8")`, with `none` for its UnicodeDecodeError.
unfoldable pub utf8_decode : Bytes → Option Text
unfolding decode_start
utf8_decode octets = decode_start octets

minus_128 : (b : ℕ) → 128 + b - 0x80 ≡ b
minus_128 b = omega arith

continuation_lem : (b : ℕ) → b < 64 → is_continuation (128 + b) ≡ true
unfolding is_continuation
continuation_lem b h = ground arith

lead_one : (c : ℕ) → c < 0x80 → lead_of c ≡ whole
unfolding lead_of
lead_one c h = ground arith

lead_two : (b : ℕ) → b < 32 → lead_of (192 + b) ≡ begun 0x80 0 b
unfolding lead_of
lead_two b h = ground arith

lead_three : (b : ℕ) → b < 16 → lead_of (224 + b) ≡ begun 0x800 1 b
unfolding lead_of
lead_three b h = ground arith

lead_four : (b : ℕ) → b < 8 → lead_of (240 + b) ≡ begun 0x10000 2 b
unfolding lead_of
lead_four b h = ground arith

middle :
    (bs : Bytes) (least n acc b : ℕ)
    → b < 64
    → decode_rest least (suc n) acc ((128 + b) ∷ bs) ≡ decode_rest least n (acc * 64 + b) bs
unfolding decode_start
middle bs least n acc b h = rw (decode_rest, continuation_lem b h, minus_128 b)

last :
    (bs : Bytes) (least acc b c : ℕ)
    → b < 64
    → acc * 64 + b ≡ c
    → leb least c ≡ true
    → is_scalar c ≡ true
    → decode_rest least 0 acc ((128 + b) ∷ bs) ≡ cons_char c (decode_start bs)
unfolding decode_start
last bs least acc b c h e l s = rw (decode_rest, continuation_lem b h, minus_128 b, e, l, s)

decode_octets :
    (c : ℕ) (rest : Bytes)
    → is_scalar c ≡ true
    → decode_start (utf8_octets c ++ rest) ≡ cons_char c (decode_start rest)
unfolding decode_start utf8_octets
decode_octets c rest h = elim (Bool-cases (ltb c 0x80)) [
  | inl one ↦ rw (one, decode_start, lead_one c (ground arith))
  | inr more ↦ elim (Bool-cases (ltb c 0x800)) [
    | inl two ↦
        rw (more, two, decode_start, lead_two (c / 64) (ground arith))
          (last rest 0x80 (c / 64) (c % 64) c (omega arith) (omega arith) (ground arith) h)
    | inr more2 ↦ elim (Bool-cases (ltb c 0x10000)) [
      | inl three ↦
          rw
            (
              more,
              more2,
              three,
              decode_start,
              lead_three (c / 4096) (ground arith),
              middle ((128 + c % 64) ∷ rest) 0x800 0 (c / 4096) (c / 64 % 64) (omega arith),
            )
            (last rest 0x800 (c / 4096 * 64 + c / 64 % 64) (c % 64) c (omega arith) (omega arith)
              (ground arith) h)
      | inr four ↦
          rw
            (
              more,
              more2,
              four,
              decode_start,
              lead_four (c / 262144) (ground arith),
              middle ((128 + c / 64 % 64) ∷ (128 + c % 64) ∷ rest) 0x10000 1 (c / 262144)
                  (c / 4096 % 64) (omega arith),
              middle ((128 + c % 64) ∷ rest) 0x10000 0 (c / 262144 * 64 + c / 4096 % 64)
                  (c / 64 % 64) (omega arith),
            )
            (last rest 0x10000 ((c / 262144 * 64 + c / 4096 % 64) * 64 + c / 64 % 64) (c % 64) c
              (omega arith) (omega arith) (ground arith) h)
    ]
  ]
]

-- Decoding the UTF-8 of a text without surrogates gives the text.
pub utf8_decode-encode : (s : Text) → all is_scalar s ≡ true → utf8_decode (utf8_encode s) ≡ some s
unfolding utf8_decode utf8_encode
utf8_decode-encode [] h = refl
utf8_decode-encode (c ∷ s) h =
    rw (decode_octets c (utf8_encode s) (ground arith), utf8_decode-encode s (ground arith))
