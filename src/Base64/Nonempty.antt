-- ===== src/Base64/Nonempty.antt =====
-- The text of one octet or more is not empty.
use helix_sdk_py.Base.{All, [], ap, inl, inr, refl, some, sym, true, ◌∙◌, ◌∷◌, ◌≡◌, ◌≢◌, ◌⊎◌}
use helix_sdk_py.Base64.{a2b, b64url_decode, b64url_encode, padding, urlsafe_b64decode}
use helix_sdk_py.Base64.RoundTrip.{b64url_decode-encode}
use helix_sdk_py.Text.{Bytes, Text, nonempty}
use helix_sdk_py.Text.Hex.{IsByte}

nonempty-cases : (s : Text) → (s ≡ []) ⊎ (nonempty s ≡ true)
nonempty-cases [] = inl refl
nonempty-cases (c ∷ s) = inr refl

decode_nothing : b64url_decode [] ≡ some []
unfolding b64url_decode urlsafe_b64decode padding a2b
decode_nothing = refl

some_injective : {xs ys : Bytes} → some xs ≡ some ys → xs ≡ ys
some_injective e = cc e

-- The base64url of one octet or more has a letter.
pub b64url_encode-nonempty :
    (bs : Bytes) → All IsByte bs → bs ≢ [] → nonempty (b64url_encode bs) ≡ true
b64url_encode-nonempty bs h n = elim (nonempty-cases (b64url_encode bs)) [
  | inl none_there ↦ absurd (
      n (
        some_injective
          (sym (b64url_decode-encode bs h) ∙ ap b64url_decode none_there ∙ decode_nothing)))
  | inr full ↦ full
]
