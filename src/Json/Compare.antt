-- ===== src/Json/Compare.antt =====
-- `==` and `>` of the values of `json.loads`, as Python compares them: a bool is a number, dicts are
-- equal if they have the same keys with equal values, lists compare item by item.
use helix_sdk_py.Base.{
  Bool, Option, ap, false, if◌then◌else◌, ltb, negsuc, none, not, pos, some, suc, sym, true, ℕ, ℤ,
  ◌&&◌, ◌==◌, ◌≡◌,
}
use helix_sdk_py.Errors.{Result, builtin, ok, raised}
use helix_sdk_py.Json.{
  Items, Json, Members, arr, bool, cons, end, get, int, member, nil, null, obj, str,
}
use helix_sdk_py.Text.{Text, text, text_eq, text_eq_iff}
use helix_sdk_py.Text.Order.{text_le}

abbrev pub size : Members → ℕ
size end = 0
size (member k v ms) = suc (size ms)

-- The number that a bool or an int is.
abbrev number : Json → Option ℤ
number (bool true) = some (pos 1)
number (bool false) = some (pos 0)
number (int n) = some n
number _ = none

unfoldable pub int_eq : ℤ → ℤ → Bool
int_eq (pos m) (pos n) = m == n
int_eq (negsuc m) (negsuc n) = m == n
int_eq _ _ = false

unfoldable pub int_gt : ℤ → ℤ → Bool
int_gt (pos m) (pos n) = ltb n m
int_gt (pos m) (negsuc n) = true
int_gt (negsuc m) (pos n) = false
int_gt (negsuc m) (negsuc n) = ltb m n

abbrev both_numbers : (ℤ → ℤ → Bool) → Option ℤ → Option ℤ → Bool
both_numbers test (some m) (some n) = test m n
both_numbers test _ _ = false

unfoldable mutual
  unfolding int_eq get text_eq

  pub json_eq : Json → Json → Bool
  json_eq null null = true
  json_eq null _ = false
  json_eq (bool b) w = both_numbers int_eq (number (bool b)) (number w)
  json_eq (int n) w = both_numbers int_eq (some n) (number w)
  json_eq (str s) (str t) = text_eq s t
  json_eq (str s) _ = false
  json_eq (arr xs) (arr ys) = items_eq xs ys
  json_eq (arr xs) _ = false
  json_eq (obj ms) (obj ns) = size ms == size ns && members_in ms ns
  json_eq (obj ms) _ = false

  pub items_eq : Items → Items → Bool
  items_eq nil nil = true
  items_eq nil (cons y ys) = false
  items_eq (cons x xs) nil = false
  items_eq (cons x xs) (cons y ys) = json_eq x y && items_eq xs ys

  pub members_in : Members → Members → Bool
  members_in end ns = true
  members_in (member k v ms) ns =
      elim (get k ns) [ none ↦ false | some w ↦ json_eq v w ] && members_in ms ns

abbrev not_ordered : Result Bool
not_ordered = raised (builtin (text "TypeError") (text "'>' not supported"))

abbrev number_gt : Option ℤ → Option ℤ → Result Bool
number_gt (some m) (some n) = ok (int_gt m n)
number_gt _ _ = not_ordered

-- `v > w`
unfoldable mutual
  unfolding json_eq text_le

  pub json_gt : Json → Json → Result Bool
  json_gt null w = not_ordered
  json_gt (bool b) w = number_gt (number (bool b)) (number w)
  json_gt (int n) w = number_gt (some n) (number w)
  json_gt (str s) (str t) = ok (not (text_le s t))
  json_gt (str s) _ = not_ordered
  json_gt (arr xs) (arr ys) = items_gt xs ys
  json_gt (arr xs) _ = not_ordered
  json_gt (obj ms) w = not_ordered

  pub items_gt : Items → Items → Result Bool
  items_gt nil ys = ok false
  items_gt (cons x xs) nil = ok true
  items_gt (cons x xs) (cons y ys) =
      let rest = items_gt xs ys in let here = json_gt x y in if json_eq x y then rest else here

-- A text equals only itself.
pub json_eq-str : (s : Text) (v : Json) → json_eq (str s) v ≡ true → v ≡ str s
unfolding json_eq
json_eq-str s (str t) h = ap str (sym ((text_eq_iff s t).0 h))
json_eq-str s null h = cc
json_eq-str s (bool b) h = cc
json_eq-str s (int n) h = cc
json_eq-str s (arr xs) h = cc
json_eq-str s (obj ms) h = cc

pub json_eq-str_right : (v : Json) (s : Text) → json_eq v (str s) ≡ true → v ≡ str s
unfolding json_eq
json_eq-str_right (str t) s h = ap str ((text_eq_iff t s).0 h)
json_eq-str_right null s h = cc
json_eq-str_right (bool true) s h = cc
json_eq-str_right (bool false) s h = cc
json_eq-str_right (int n) s h = cc
json_eq-str_right (arr xs) s h = cc
json_eq-str_right (obj ms) s h = cc
