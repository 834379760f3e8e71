-- ===== src/Canonical/Sorting.antt =====
-- Sorting puts the keys of every dict in order, and changes nothing that is in order.
use helix_sdk_py.Base.{Bool-cases, ap, ap₂, inl, inr, refl, true, ◌≡◌}
use helix_sdk_py.Canonical.{insert_member, sort_items, sort_members, sort_value}
use helix_sdk_py.Json.{Items, Json, Members, arr, bool, cons, end, int, member, nil, null, obj, str}
use helix_sdk_py.Text.{Text}
use helix_sdk_py.Text.Order.{text_le, text_le_total, text_le_trans}

-- The key is below every key of the dict.
abbrev pub Below : Text → Members → Type 0
Below k end = Unit
Below k (member j w ms) = (text_le k j ≡ true) × Below k ms

-- Every dict, at any depth, has its keys in order.
abbrev mutual
  pub IsSorted : Json → Type 0
  IsSorted (arr xs) = AreSorted xs
  IsSorted (obj ms) = HasSorted ms
  IsSorted _ = Unit

  pub AreSorted : Items → Type 0
  AreSorted nil = Unit
  AreSorted (cons x xs) = IsSorted x × AreSorted xs

  pub HasSorted : Members → Type 0
  HasSorted end = Unit
  HasSorted (member k v ms) = Below k ms × IsSorted v × HasSorted ms

Below-trans : (k j : Text) (ms : Members) → text_le k j ≡ true → Below j ms → Below k ms
Below-trans k j end h b = tt
Below-trans k j (member i w ms) h (p, b) = (text_le_trans k j i h p, Below-trans k j ms h b)

Below-insert :
    (i k : Text) (v : Json) (ms : Members)
    → text_le i k ≡ true
    → Below i ms
    → Below i (insert_member k v ms)
unfolding insert_member
Below-insert i k v end h b = (h, tt)
Below-insert i k v (member j w ms) h (p, b) = elim (Bool-cases (text_le k j)) [
  | inl first ↦ rw first (h, (p, b))
  | inr later ↦ rw later (p, Below-insert i k v ms h b)
]

insert-HasSorted :
    (k : Text) (v : Json) (ms : Members)
    → IsSorted v
    → HasSorted ms
    → HasSorted (insert_member k v ms)
unfolding insert_member
insert-HasSorted k v end s h = (tt, s, tt)
insert-HasSorted k v (member j w ms) s (b, sw, h) = elim (Bool-cases (text_le k j)) [
  | inl first ↦ rw first ((first, Below-trans k j ms first b), s, (b, sw, h))
  | inr later ↦
      rw later (Below-insert j k v ms (text_le_total k j later) b, sw, insert-HasSorted k v ms s h)
]

mutual
  unfolding sort_value

  sort-IsSorted : (v : Json) → IsSorted (sort_value v)
  sort-IsSorted null = tt
  sort-IsSorted (bool b) = tt
  sort-IsSorted (int n) = tt
  sort-IsSorted (str s) = tt
  sort-IsSorted (arr xs) = sort_items-AreSorted xs
  sort-IsSorted (obj ms) = sort_members-HasSorted ms

  sort_items-AreSorted : (xs : Items) → AreSorted (sort_items xs)
  sort_items-AreSorted nil = tt
  sort_items-AreSorted (cons x xs) = (sort-IsSorted x, sort_items-AreSorted xs)

  sort_members-HasSorted : (ms : Members) → HasSorted (sort_members ms)
  sort_members-HasSorted end = tt
  sort_members-HasSorted (member k v ms) =
      insert-HasSorted k (sort_value v) (sort_members ms) (sort-IsSorted v)
        (sort_members-HasSorted ms)

insert_first :
    (k : Text) (v : Json) (ms : Members) → Below k ms → insert_member k v ms ≡ member k v ms
unfolding insert_member
insert_first k v end b = refl
insert_first k v (member j w ms) (p, b) = rw p

mutual
  unfolding sort_value

  sort_fixed : (v : Json) → IsSorted v → sort_value v ≡ v
  sort_fixed null h = refl
  sort_fixed (bool b) h = refl
  sort_fixed (int n) h = refl
  sort_fixed (str s) h = refl
  sort_fixed (arr xs) h = ap arr (sort_items_fixed xs h)
  sort_fixed (obj ms) h = ap obj (sort_members_fixed ms h)

  sort_items_fixed : (xs : Items) → AreSorted xs → sort_items xs ≡ xs
  sort_items_fixed nil h = refl
  sort_items_fixed (cons x xs) (p, h) = ap₂ cons (sort_fixed x p) (sort_items_fixed xs h)

  sort_members_fixed : (ms : Members) → HasSorted ms → sort_members ms ≡ ms
  sort_members_fixed end h = refl
  sort_members_fixed (member k v ms) (b, p, h) =
      rw (sort_fixed v p, sort_members_fixed ms h, sort_members) (insert_first k v ms b)

-- Every dict of a sorted value, at any depth, has its keys in order, and sorting it again changes
-- nothing.
pub sort_value-IsSorted :
    (v : Json) → IsSorted (sort_value v) × (sort_value (sort_value v) ≡ sort_value v)
sort_value-IsSorted v = (sort-IsSorted v, sort_fixed (sort_value v) (sort-IsSorted v))
