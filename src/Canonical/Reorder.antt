-- ===== src/Canonical/Reorder.antt =====
-- The canonical text does not depend on the order of the keys.
use helix_sdk_py.Base.{Bool-cases, ap, ap₂, arith, false, inl, inr, refl, true, ◌∙◌, ◌≡◌, ◌≢◌}
use helix_sdk_py.Canonical.{
  compact_raw, insert_member, sort_items, sort_members, sort_value, to_canonical_json,
}
use helix_sdk_py.Json.{Items, Json, Members, arr, cons, end, member, nil, obj}
use helix_sdk_py.Json.Dumps.{dumps}
use helix_sdk_py.Text.{Text}
use helix_sdk_py.Text.Order.{text_le, text_le_antisymm, text_le_total, text_le_trans}

-- Two values that differ at most in the order in which their dicts, at any depth, hold their keys.
mutual
  pub data Reordered : Json → Json → Type 0 where
    unchanged : (v : Json) → Reordered v v
    in_arr : {xs ys : Items} → ReorderedItems xs ys → Reordered (arr xs) (arr ys)
    in_obj : {ms ns : Members} → ReorderedMembers ms ns → Reordered (obj ms) (obj ns)

  pub data ReorderedItems : Items → Items → Type 0 where
    no_items : ReorderedItems nil nil
    item :
        {v w : Json} {xs ys : Items}
        → Reordered v w
        → ReorderedItems xs ys
        → ReorderedItems (cons v xs) (cons w ys)

  pub data ReorderedMembers : Members → Members → Type 0 where
    no_members : ReorderedMembers end end
    keep :
        (k : Text) {v w : Json} {ms ns : Members}
        → Reordered v w
        → ReorderedMembers ms ns
        → ReorderedMembers (member k v ms) (member k w ns)
    exchange :
        (k j : Text) (v w : Json) (ms : Members)
        → k ≢ j
        → ReorderedMembers (member k v (member j w ms)) (member j w (member k v ms))
    followed_by :
        {ms ns os : Members}
        → ReorderedMembers ms ns
        → ReorderedMembers ns os
        → ReorderedMembers ms os

text_le_strict : (k j : Text) → k ≢ j → text_le k j ≡ true → text_le j k ≡ false
text_le_strict k j n h = elim (Bool-cases (text_le j k)) [
  | inl back ↦ absurd (n (text_le_antisymm k j h back))
  | inr strict ↦ strict
]

insert_comm :
    (k j : Text) (v w : Json) (ms : Members)
    → k ≢ j
    → insert_member k v (insert_member j w ms) ≡ insert_member j w (insert_member k v ms)
unfolding insert_member
insert_comm k j v w end n = ground (arith, text_le_strict k j n, text_le_total k j)
insert_comm k j v w (member i x ms) n = ground (
  arith,
  text_le_strict k j n,
  text_le_total k j,
  text_le_total k i,
  text_le_total j i,
  text_le_trans k j i,
  text_le_trans j k i,
  insert_comm k j v w ms n,
)

mutual
  unfolding sort_value

  sort-Reordered : {v w : Json} → Reordered v w → sort_value v ≡ sort_value w
  sort-Reordered (unchanged v) = refl
  sort-Reordered (in_arr r) = ap arr (sort_items-Reordered r)
  sort-Reordered (in_obj r) = ap obj (sort_members-Reordered r)

  sort_items-Reordered : {xs ys : Items} → ReorderedItems xs ys → sort_items xs ≡ sort_items ys
  sort_items-Reordered no_items = refl
  sort_items-Reordered (item p r) = ap₂ cons (sort-Reordered p) (sort_items-Reordered r)

  sort_members-Reordered :
      {ms ns : Members} → ReorderedMembers ms ns → sort_members ms ≡ sort_members ns
  sort_members-Reordered no_members = refl
  sort_members-Reordered (keep k p r) =
      ap₂ (insert_member k) (sort-Reordered p) (sort_members-Reordered r)
  sort_members-Reordered (exchange k j v w ms n) =
      insert_comm k j (sort_value v) (sort_value w) (sort_members ms) n
  sort_members-Reordered (followed_by p q) = sort_members-Reordered p ∙ sort_members-Reordered q

-- Values that differ only in the order of the keys of their dicts have one canonical text.
pub to_canonical_json-Reordered :
    {v w : Json} → Reordered v w → to_canonical_json v ≡ to_canonical_json w
unfolding to_canonical_json
to_canonical_json-Reordered r = ap (dumps compact_raw) (sort-Reordered r)
