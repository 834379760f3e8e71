-- ===== src/Text.antt =====
-- Python's `str` as the list of its code points, and `bytes` as the list of its octets, with the
-- operations of both that the SDK calls: literals, equality, `startswith`, `endswith`, `find`.
pub mod Hex
pub mod Order
pub mod Decimal
use Prim.Native.Char.{code}
use helix_sdk_py.Base.{
  Bool, List, Option, String, [], arith, false, if◌then◌else◌, none, refl, some, suc, true, ℕ, ◌&&◌,
  ◌==◌, ◌↔◌, ◌∷◌, ◌≡◌,
}

abbrev pub Text : Type 0
Text = List ℕ

abbrev pub Bytes : Type 0
Bytes = List ℕ

-- The code points of a literal.
abbrev pub text : String → Text
text String.[] = []
text (String.◌∷◌ c s) = code c ∷ text s

unfoldable pub text_eq : Text → Text → Bool
text_eq [] [] = true
text_eq [] (d ∷ t) = false
text_eq (c ∷ s) [] = false
text_eq (c ∷ s) (d ∷ t) = c == d && text_eq s t

pub text_eq_iff : (s t : Text) → (text_eq s t ≡ true) ↔ (s ≡ t)
unfolding text_eq
text_eq_iff [] [] = ground arith
text_eq_iff [] (d ∷ t) = ground arith
text_eq_iff (c ∷ s) [] = ground arith
text_eq_iff (c ∷ s) (d ∷ t) = ground (arith, text_eq_iff s t)

pub text_eq_refl : (s : Text) → text_eq s s ≡ true
text_eq_refl s = (text_eq_iff s s).1 refl

-- `t in xs`
unfoldable pub text_in : Text → List Text → Bool
unfolding text_eq
text_in t [] = false
text_in t (x ∷ xs) = if text_eq x t then true else text_in t xs

-- `s.startswith(t)`
unfoldable pub starts_with : Text → Text → Bool
starts_with s [] = true
starts_with [] (d ∷ t) = false
starts_with (c ∷ s) (d ∷ t) = c == d && starts_with s t

-- `s.endswith(c)` for one character.
unfoldable pub ends_with : Text → ℕ → Bool
ends_with [] d = false
ends_with (c ∷ []) d = c == d
ends_with (c ∷ c' ∷ s) d = ends_with (c' ∷ s) d

-- `s[:-1]`
unfoldable pub drop_last : Text → Text
drop_last [] = []
drop_last (c ∷ []) = []
drop_last (c ∷ c' ∷ s) = c ∷ drop_last (c' ∷ s)

-- `s.find(c)`, with `none` for -1.
unfoldable pub find : Text → ℕ → Option ℕ
find [] d = none
find (c ∷ s) d = if c == d then some 0 else elim (find s d) [ none ↦ none | some i ↦ some (suc i) ]

-- The truth value of a `str`: false when it is empty.
abbrev pub nonempty : Text → Bool
nonempty [] = false
nonempty (c ∷ s) = true
