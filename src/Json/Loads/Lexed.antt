-- ===== src/Json/Loads/Lexed.antt =====
-- A string that `json.dumps` writes is cut into one token.
use helix_sdk_py.Base.{
  Bool-cases, List, Option, Option-cases, [], all, ap, append_assoc, arith, false, inl, inr, leb,
  ltb, none, refl, reverse, reverse_aux, some, suc, true, ℕ, ◌%◌, ◌&&◌, ◌*◌, ◌++◌, ◌+◌, ◌-◌, ◌/◌,
  ◌<◌, ◌==◌, ◌∙◌, ◌∷◌, ◌≡◌,
}
use helix_sdk_py.Base64.{letter}
use helix_sdk_py.Http.Url.Utf8.{is_scalar}
use helix_sdk_py.Json.Dumps.{
  Format, escape_ascii, escape_text, hex_of, long_escape, quoted, short_escape, u_escape,
}
use helix_sdk_py.Json.Loads.{
  Place, Token, between, escaped, in_hex, in_string, is_low, lex, prepend, push_char, short_letter,
  step, t_str,
}
use helix_sdk_py.Text.{Text}
use helix_sdk_py.Text.Hex.{hex_value}

prepend-nothing : (r : Option (List Token)) → prepend [] r ≡ r
prepend-nothing none = refl
prepend-nothing (some ts) = refl

lex-out :
    (place next : Place) (out : List Token) (c : ℕ) (s : Text)
    → step place c ≡ some (out, next)
    → lex place (c ∷ s) ≡ prepend out (lex next s)
unfolding lex
lex-out place next out c s e = rw (lex, e) refl

pub lex-step :
    (place next : Place) (c : ℕ) (s : Text)
    → step place c ≡ some ([], next)
    → lex place (c ∷ s) ≡ lex next s
lex-step place next c s e = lex-out place next [] c s e ∙ prepend-nothing (lex next s)

push_char-plain : (c : ℕ) (s : Text) → is_low c ≡ false → push_char c s ≡ c ∷ s
unfolding push_char
push_char-plain c [] h = refl
push_char-plain c (d ∷ s) h = ground arith

push_char-pair :
    (c : ℕ) (s : Text)
    → leb 0x10000 c ≡ true
    → ltb c 0x110000 ≡ true
    → push_char (0xDC00 + (c - 0x10000) % 1024) ((0xD800 + (c - 0x10000) / 1024 % 1024) ∷ s) ≡ c ∷ s
unfolding push_char
push_char-pair c s h k = ground arith

hex_value-hex_of : (d : ℕ) → d < 16 → hex_value (hex_of d) ≡ some d
unfolding hex_value hex_of
hex_value-hex_of d h = ground arith

step-hex :
    (s : Text) (n v d : ℕ)
    → d < 16
    → step (in_hex s (suc n) v) (hex_of d) ≡ some ([], in_hex s n (v * 16 + d))
unfolding step
step-hex s n v d h = rw (step, hex_value-hex_of d h) refl

step-last_hex :
    (s : Text) (v d : ℕ)
    → d < 16
    → step (in_hex s 0 v) (hex_of d) ≡ some ([], in_string (push_char (v * 16 + d) s))
unfolding step
step-last_hex s v d h = rw (step, hex_value-hex_of d h) refl

lex-u_escape :
    (c : ℕ) (s rest : Text)
    → c < 0x10000
    → lex (in_string s) (u_escape c ++ rest) ≡ lex (in_string (push_char c s)) rest
unfolding u_escape step
lex-u_escape c s rest h =
    let value : (((0 * 16 + c / 4096 % 16) * 16 + c / 256 % 16) * 16 + c / 16 % 16) * 16 + c % 16
        ≡ c =
      omega arith in
    lex-step _ _ _ _ refl
    ∙ lex-step _ _ _ _ refl
    ∙ lex-step _ _ _ _ (step-hex s 2 0 (c / 4096 % 16) (omega arith))
    ∙ lex-step _ _ _ _ (step-hex s 1 _ (c / 256 % 16) (omega arith))
    ∙ lex-step _ _ _ _ (step-hex s 0 _ (c / 16 % 16) (omega arith))
    ∙ lex-step _ _ _ _ (step-last_hex s _ (c % 16) (omega arith))
    ∙ ap (λ d. lex (in_string (push_char d s)) rest) value

-- The letter of a short escape.
abbrev letter_of : Text → ℕ
letter_of (b ∷ c ∷ []) = c
letter_of _ = 0

short_escape-letter :
    (c : ℕ) (e : Text)
    → short_escape c ≡ some e
    → (e ≡ 92 ∷ letter_of e ∷ [])
      × ((letter_of e == b'u') ≡ false)
      × (short_letter (letter_of e) ≡ some c)
unfolding short_escape short_letter
short_escape-letter c e h = ground arith

not_low : (c : ℕ) → is_scalar c ≡ true → is_low c ≡ false
not_low c h = ground arith

lex-short :
    (c : ℕ) (e s rest : Text)
    → is_scalar c ≡ true
    → short_escape c ≡ some e
    → lex (in_string s) (e ++ rest) ≡ lex (in_string (c ∷ s)) rest
unfolding step
lex-short c e s rest h found =
    let (letters, not_u, letter) = short_escape-letter c e found in
    ap (λ t. lex (in_string s) (t ++ rest)) letters
    ∙ lex-step _ _ _ _ refl
    ∙ lex-step (escaped s) (in_string (push_char c s)) (letter_of e) rest
        (rw (step, not_u, letter) refl)
    ∙ ap (λ t. lex (in_string t) rest) (push_char-plain c s (not_low c h))

step-plain :
    (c : ℕ) (s : Text)
    → short_escape c ≡ none
    → leb 32 c ≡ true
    → step (in_string s) c ≡ some ([], in_string (push_char c s))
unfolding step short_escape
step-plain c s h k = ground arith

lex-long :
    (c : ℕ) (s rest : Text)
    → is_scalar c ≡ true
    → short_escape c ≡ none
    → lex (in_string s) (long_escape c ++ rest) ≡ lex (in_string (c ∷ s)) rest
unfolding long_escape
lex-long c s rest h missing = elim (Bool-cases (leb 32 c && leb c 126)) [
  | inl plain ↦
      rw (long_escape, plain)
        (lex-step _ _ _ _ (step-plain c s missing (ground arith))
          ∙ ap (λ t. lex (in_string t) rest) (push_char-plain c s (not_low c h)))
  | inr other ↦ elim (Bool-cases (ltb c 0x10000)) [
    | inl narrow ↦
        rw (long_escape, other, narrow)
          (lex-u_escape c s rest (ground arith)
            ∙ ap (λ t. lex (in_string t) rest) (push_char-plain c s (not_low c h)))
    | inr wide ↦
        let high = 0xD800 + (c - 0x10000) / 1024 % 1024 in
        let low = 0xDC00 + (c - 0x10000) % 1024 in
        rw (long_escape, other, wide)
          (ap (lex (in_string s)) (append_assoc (u_escape high) (u_escape low) rest)
            ∙ lex-u_escape high s (u_escape low ++ rest) (omega arith)
            ∙ ap (λ t. lex (in_string t) (u_escape low ++ rest))
                (push_char-plain high s (ground arith))
            ∙ lex-u_escape low (high ∷ s) rest (omega arith)
            ∙ ap (λ t. lex (in_string t) rest) (push_char-pair c s (ground arith) (ground arith)))
  ]
]

pub lex-escape :
    (c : ℕ) (s rest : Text)
    → is_scalar c ≡ true
    → lex (in_string s) (escape_ascii c ++ rest) ≡ lex (in_string (c ∷ s)) rest
unfolding escape_ascii
lex-escape c s rest h = elim (Option-cases (short_escape c)) [
  | inl missing ↦ rw (escape_ascii, missing) (lex-long c s rest h missing)
  | inr (e, found) ↦ rw (escape_ascii, found) (lex-short c e s rest h found)
]

-- The strings of a format whose escapes are read back.
module _ (f : Format)
    (reads : (c : ℕ) (s rest : Text)
      → is_scalar c ≡ true
      → lex (in_string s) (f.escape c ++ rest) ≡ lex (in_string (c ∷ s)) rest) where
  lex-escape_text :
      (t s rest : Text)
      → all is_scalar t ≡ true
      → lex (in_string s) (escape_text f t ++ 34 ∷ rest)
        ≡ prepend (t_str (reverse_aux s t) ∷ []) (lex between rest)
  unfolding escape_text step
  lex-escape_text [] s rest h = lex-out (in_string s) between (t_str (reverse s) ∷ []) 34 rest refl
  lex-escape_text (c ∷ t) s rest h =
      ap (lex (in_string s)) (append_assoc (f.escape c) (escape_text f t) (34 ∷ rest))
      ∙ reads c s _ (ground arith)
      ∙ lex-escape_text t (c ∷ s) rest (ground arith)

  pub lex-quoted :
      (t rest : Text)
      → all is_scalar t ≡ true
      → lex between (quoted f t ++ rest) ≡ prepend (t_str t ∷ []) (lex between rest)
  unfolding quoted step
  lex-quoted t rest h =
      lex-step _ _ _ _ refl
      ∙ ap (lex (in_string [])) (append_assoc (escape_text f t) (34 ∷ []) rest)
      ∙ lex-escape_text t [] rest h
