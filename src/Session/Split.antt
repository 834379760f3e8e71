-- ===== src/Session/Split.antt =====
-- `token.split(".")`.
use helix_sdk_py.Base.{
  ==_iff, Bool, Bool-cases, List, [], all, ap, ap₂, arith, if◌then◌else◌, inl, inr, not, refl, sym,
  true, ℕ, ◌++◌, ◌==◌, ◌∙◌, ◌∷◌, ◌≡◌,
}
use helix_sdk_py.Text.{Text}

abbrev put_first : ℕ → List Text → List Text
put_first c [] = (c ∷ []) ∷ []
put_first c (p ∷ ps) = (c ∷ p) ∷ ps

unfoldable pub split_dots : Text → List Text
split_dots [] = [] ∷ []
split_dots (c ∷ s) = if c == b'.' then [] ∷ split_dots s else put_first c (split_dots s)

-- `".".join(parts)`
unfoldable pub join_dots : List Text → Text
join_dots [] = []
join_dots (p ∷ []) = p
join_dots (p ∷ q ∷ ps) = p ++ b'.' ∷ join_dots (q ∷ ps)

abbrev pub has_no_dot : Text → Bool
has_no_dot s = all (λ c. not (c == b'.')) s

join-put_first : (c : ℕ) (ps : List Text) → join_dots (put_first c ps) ≡ c ∷ join_dots ps
unfolding join_dots
join-put_first c [] = refl
join-put_first c (p ∷ []) = refl
join-put_first c (p ∷ q ∷ ps) = refl

join-empty : (s : Text) → join_dots ([] ∷ split_dots s) ≡ b'.' ∷ join_dots (split_dots s)
unfolding join_dots split_dots
join-empty [] = refl
join-empty (c ∷ s) = elim (Bool-cases (c == b'.')) [
  | inl dot ↦ rw dot refl
  | inr other ↦ rw other (empty_put c (split_dots s))
]
  where
    empty_put :
        (c : ℕ) (ps : List Text)
        → join_dots ([] ∷ put_first c ps) ≡ b'.' ∷ join_dots (put_first c ps)
    empty_put c [] = refl
    empty_put c (p ∷ ps) = refl

pub join-split : (s : Text) → join_dots (split_dots s) ≡ s
unfolding split_dots
join-split [] = unfold join_dots in refl
join-split (c ∷ s) = elim (Bool-cases (c == b'.')) [
  | inl dot ↦ rw dot (join-empty s ∙ ap₂ ◌∷◌ (sym ((==_iff c b'.').0 dot)) (join-split s))
  | inr other ↦ rw other (join-put_first c (split_dots s) ∙ ap (λ t. c ∷ t) (join-split s))
]

pub split-no_dot : (s : Text) → has_no_dot s ≡ true → split_dots s ≡ s ∷ []
unfolding split_dots
split-no_dot [] h = refl
split-no_dot (c ∷ s) h = ground (arith, split-no_dot s)

pub split-dot : (s t : Text) → has_no_dot s ≡ true → split_dots (s ++ b'.' ∷ t) ≡ s ∷ split_dots t
unfolding split_dots
split-dot [] t h = refl
split-dot (c ∷ s) t h = ground (arith, split-dot s t)
