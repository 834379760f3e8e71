-- ===== src/Json.antt =====
-- The values that `json.loads` returns and `json.dumps` takes: None, bool, int, str, list and dict.
-- A dict keeps its insertion order. Floats are left out.
pub mod Dumps
pub mod Compare
pub mod Loads
use helix_sdk_py.Base.{
  Bool, List, Option, [], arith, false, if◌then◌else◌, none, pos, refl, some, true, zero, ℤ, ◌∷◌,
  ◌≡◌,
}
use helix_sdk_py.Text.{Text, nonempty, text_eq, text_eq_iff}

mutual
  pub data Json : Type 0 where
    null : Json
    bool : Bool → Json
    int : ℤ → Json
    str : Text → Json
    arr : Items → Json
    obj : Members → Json

  pub data Items : Type 0 where
    nil : Items
    cons : Json → Items → Items

  pub data Members : Type 0 where
    end : Members
    member : Text → Json → Members → Members

-- `d.get(k)`
unfoldable pub get : Text → Members → Option Json
unfolding text_eq
get k end = none
get k (member j v ms) = if text_eq j k then some v else get k ms

-- `d[k] = v`: in place, or at the end.
unfoldable pub put : Text → Json → Members → Members
unfolding text_eq
put k v end = member k v end
put k v (member j w ms) = if text_eq j k then member j v ms else member j w (put k v ms)

-- `{**d, **e}`
unfoldable pub merge : Members → Members → Members
unfolding put
merge d end = d
merge d (member k v ms) = merge (put k v d) ms

-- The truth value of a Python object.
unfoldable pub truthy : Json → Bool
truthy null = false
truthy (bool b) = b
truthy (int (pos zero)) = false
truthy (int _) = true
truthy (str s) = nonempty s
truthy (arr nil) = false
truthy (arr _) = true
truthy (obj end) = false
truthy (obj _) = true

unfoldable pub items : List Json → Items
items [] = nil
items (x ∷ xs) = cons x (items xs)

-- A list of `str`.
unfoldable pub texts : List Text → Items
texts [] = nil
texts (x ∷ xs) = cons (str x) (texts xs)

-- `s in v` for a list `v`.
unfoldable pub item_in : Text → Items → Bool
unfolding text_eq
item_in s nil = false
item_in s (cons (str t) xs) = if text_eq t s then true else item_in s xs
item_in s (cons _ xs) = item_in s xs

pub get-put :
    (j k : Text) (v : Json) (ms : Members)
    → get j (put k v ms) ≡ (if text_eq k j then some v else get j ms)
unfolding get put
get-put j k v end = refl
get-put j k v (member i w ms) =
    ground (arith, text_eq_iff i k, text_eq_iff i j, text_eq_iff k j, get-put j k v ms)
