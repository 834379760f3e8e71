-- ===== src/Http/Url/Segment.antt =====
-- A quoted text is one segment of a path, and says what was quoted.
use helix_sdk_py.Base.{
  ◌≢◌, All, All-append, Bool, Bool-cases, [], ap, arith, false, if◌then◌else◌, inl, inr, leb, refl,
  true, ℕ, ◌%◌, ◌*◌, ◌+◌, ◌-◌, ◌/◌, ◌<◌, ◌==◌, ◌||◌, ◌∙◌, ◌∷◌, ◌≡◌,
}
use helix_sdk_py.Http.Url.{
  is_unreserved, quote, quote_octet, quote_octets, upper_hex, utf8_encode, utf8_octets,
}
use helix_sdk_py.Text.{Bytes, Text}
use helix_sdk_py.Text.Hex.{IsByte}

-- The characters of a quoted text: none of them ends a segment, a path or a query.
abbrev pub is_segment_char : ℕ → Bool
is_segment_char c = is_unreserved c || c == b'%'

upper_hex-unreserved : (d : ℕ) → d < 16 → is_unreserved (upper_hex d) ≡ true
unfolding upper_hex is_unreserved
upper_hex-unreserved d h = ground arith

abbrev pub IsSegment : Text → Type 0
IsSegment s = All (λ c. is_segment_char c ≡ true) s

quote_octet-IsSegment : (b : ℕ) → b < 256 → IsSegment (quote_octet b)
unfolding quote_octet
quote_octet-IsSegment b h = elim (Bool-cases (is_unreserved b)) [
  | inl plain ↦ rw plain (rw plain refl, tt)
  | inr other ↦ rw other (
    refl,
    (
      rw (upper_hex-unreserved (b / 16) (omega arith)) refl,
      (rw (upper_hex-unreserved (b % 16) (omega arith)) refl, tt),
    ),
  )
]

utf8_octets-IsByte : (c : ℕ) → c < 0x110000 → All IsByte (utf8_octets c)
unfolding utf8_octets
utf8_octets-IsByte c h = ground arith

pub utf8_encode-IsByte : (s : Text) → All (λ c. c < 0x110000) s → All IsByte (utf8_encode s)
unfolding utf8_encode
utf8_encode-IsByte [] h = tt
utf8_encode-IsByte (c ∷ s) (p, h) =
    All-append IsByte (utf8_octets c) (utf8_encode s) (utf8_octets-IsByte c p)
      (utf8_encode-IsByte s h)

quote_octets-IsSegment : (bs : Bytes) → All IsByte bs → IsSegment (quote_octets bs)
unfolding quote_octets
quote_octets-IsSegment [] h = tt
quote_octets-IsSegment (b ∷ bs) (p, h) =
    All-append (λ c. is_segment_char c ≡ true) (quote_octet b) (quote_octets bs)
      (quote_octet-IsSegment b p) (quote_octets-IsSegment bs h)

upper_hex_value : ℕ → ℕ
upper_hex_value c = if leb c b'9' then c - 48 else c - 55

-- Percent-decoding, as a server reads a segment: `%XX` is the octet, all else stands for itself.
unfoldable pub unquote : Text → Bytes
unfolding upper_hex_value
unquote [] = []
unquote (c ∷ []) = c ∷ []
unquote (c ∷ d ∷ []) = c ∷ d ∷ []
unquote (c ∷ d ∷ e ∷ s) =
    let plain = unquote (d ∷ e ∷ s) in
    let escaped = unquote s in
    if c == b'%' then (upper_hex_value d * 16 + upper_hex_value e) ∷ escaped else c ∷ plain

upper_hex_value-upper_hex : (d : ℕ) → d < 16 → upper_hex_value (upper_hex d) ≡ d
unfolding upper_hex_value upper_hex
upper_hex_value-upper_hex d h = ground arith

percent-reserved : (b : ℕ) → is_unreserved b ≡ true → (b == b'%') ≡ false
unfolding is_unreserved
percent-reserved b h = ground arith

unquote-plain : (c : ℕ) (s : Text) → (c == b'%') ≡ false → unquote (c ∷ s) ≡ c ∷ unquote s
unfolding unquote
unquote-plain c [] h = refl
unquote-plain c (d ∷ []) h = refl
unquote-plain c (d ∷ e ∷ s) h = rw h

unquote-escaped :
    (b : ℕ) (s : Text)
    → b < 256
    → unquote (b'%' ∷ upper_hex (b / 16) ∷ upper_hex (b % 16) ∷ s) ≡ b ∷ unquote s
unfolding unquote
unquote-escaped b s h =
    rw
      (
        upper_hex_value-upper_hex (b / 16) (omega arith),
        upper_hex_value-upper_hex (b % 16) (omega arith),
      )
      (ap (λ (n : ℕ). n ∷ unquote s) (omega arith))

unquote-quote_octets : (bs : Bytes) → All IsByte bs → unquote (quote_octets bs) ≡ bs
unfolding quote_octets quote_octet
unquote-quote_octets [] h = unfold unquote in refl
unquote-quote_octets (b ∷ bs) (p, h) = elim (Bool-cases (is_unreserved b)) [
  | inl plain ↦ rw plain (
      unquote-plain b (quote_octets bs) (percent-reserved b plain)
      ∙ ap (λ l. b ∷ l) (unquote-quote_octets bs h))
  | inr other ↦
      rw other (unquote-escaped b (quote_octets bs) p ∙ ap (λ l. b ∷ l) (unquote-quote_octets bs h))
]

-- A quoted text has no character that ends a segment, a path or a query (only letters, digits,
-- `_.-~` and `%`), and percent-decoding gives the UTF-8 of the text that was quoted.
pub quote-IsSegment :
    (s : Text)
    → All (λ c. c < 0x110000) s
    → IsSegment (quote s) × (unquote (quote s) ≡ utf8_encode s)
unfolding quote
quote-IsSegment s h =
    let octets = utf8_encode-IsByte s h in
    (quote_octets-IsSegment (utf8_encode s) octets, unquote-quote_octets (utf8_encode s) octets)

pub utf8_encode-ne : (c : ℕ) (s : Text) → utf8_encode (c ∷ s) ≢ []
unfolding utf8_encode utf8_octets
utf8_encode-ne c s e = ground arith
