-- ===== src/Errors.antt =====
-- src/helix_sdk/errors.py: `HelixError`, the other exceptions that the SDK raises, and calls that
-- may raise.
pub mod Codes
pub mod Did
pub mod Credential
pub mod Presentation
pub mod Agent
pub mod Account
pub mod Mapping
use helix_sdk_py.Base.{
  All, Bool, Bool-cases, List, Option, [], if◌then◌else◌, inl, inr, keep, none, pos, refl, some, ℕ,
  ℤ, ◌∷◌, ◌≡◌, ◌⊎◌,
}
use helix_sdk_py.Json.{Json, Members, arr, get, null, obj, str}
use helix_sdk_py.Text.{Text, text}

-- An error of the SDK: its class, and the attributes that `HelixError.__init__` sets.
pub record HelixError : Type 0 where
  pub class_name : Text
  pub code : Json
  pub message : Json
  pub http_status : ℤ
  pub details : Option Members

abbrev pub helix_error : Text → Text → Json → ℕ → Option Members → HelixError
helix_error class_name code message http_status details = record {
  class_name = class_name;
  code = str code;
  message = message;
  http_status = pos http_status;
  details = details;
}

-- A default argument.
abbrev pub given : Option Json → Text → Json
given none default = str default
given (some v) default = v

-- What a `raise` raises: an error of the SDK, or an exception of Python or of a library, by class
-- and message.
pub data Exception : Type 0 where
  helix : HelixError → Exception
  builtin : Text → Text → Exception

pub data Result {ℓ} (A : Type ℓ) : Type ℓ where
  ok : A → Result A
  raised : Exception → Result A

infixl 5 ◌>>=◌
abbrev pub ◌>>=◌ {ℓ κ} : {A : Type ℓ} {B : Type κ} → Result A → (A → Result B) → Result B
ok a >>= f = f a
raised e >>= f = raised e

-- `v[k]` of a dict; `v` must be one.
unfoldable pub subscript : Text → Json → Result Json
unfolding get
subscript k (obj ms) = elim (get k ms) [
  | none ↦ raised (builtin (text "KeyError") k)
  | some v ↦ ok v
]
subscript k (arr xs) = raised (builtin (text "TypeError") (text "list indices must be integers"))
subscript k (str s) = raised (builtin (text "TypeError") (text "string indices must be integers"))
subscript k v = raised (builtin (text "TypeError") (text "object is not subscriptable"))

-- `v.get(k)`; only a dict has the method.
unfoldable pub get_of : Text → Json → Result Json
unfolding get
get_of k (obj ms) = ok (elim (get k ms) [ none ↦ null | some v ↦ v ])
get_of k v = raised (builtin (text "AttributeError") (text "get"))

-- A chain that succeeds: its first step did, and then the rest.
pub bind_inversion :
    {A B : Type 0} (r : Result A) (f : A → Result B) {b : B}
    → r >>= f ≡ ok b
    → (a : A) × (r ≡ ok a) × (f a ≡ ok b)
bind_inversion (ok a) f e = (a, refl, e)
bind_inversion (raised x) f e = absurd (cc e)

pub Result-cases :
    {A : Type 0} (r : Result A) → ((a : A) × (r ≡ ok a)) ⊎ ((x : Exception) × (r ≡ raised x))
Result-cases (ok a) = inl (a, refl)
Result-cases (raised x) = inr (x, refl)

module _ {A : Type 0} (test : A → Result Bool) where
  -- `[x for x in xs if test(x)]`
  unfoldable pub filtered : List A → Result (List A)
  filtered [] = ok []
  filtered (x ∷ xs) =
      test x >>= λ found. filtered xs >>= λ rest. ok (if found then x ∷ rest else rest)

  -- A test that raises nothing keeps what it holds of.
  pub filtered-keep :
      (p : A → Bool) (xs : List A) → All (λ x. test x ≡ ok (p x)) xs → filtered xs ≡ ok (keep p xs)
  unfolding filtered
  filtered-keep p [] h = refl
  filtered-keep p (x ∷ xs) (e, h) = elim (Bool-cases (p x)) [
    | inl held ↦ rw (filtered, e, filtered-keep p xs h, keep, held) refl
    | inr other ↦ rw (filtered, e, filtered-keep p xs h, keep, other) refl
  ]
