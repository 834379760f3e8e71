-- ===== src/Canonical.antt =====
-- Canonical JSON, src/helix_sdk/vp_crypto.py lines 36-51.
pub mod Sorting
pub mod Reorder
use helix_sdk_py.Base.{if◌then◌else◌}
use helix_sdk_py.Base58.Digits.{value}
use helix_sdk_py.Json.{Items, Json, Members, arr, bool, cons, end, int, member, nil, null, obj, str}
use helix_sdk_py.Json.Dumps.{Format, dumps, escape_raw}
use helix_sdk_py.Text.{Text, text}
use helix_sdk_py.Text.Order.{text_le}

-- Where `sorted` puts a key.
unfoldable pub insert_member : Text → Json → Members → Members
unfolding text_le
insert_member k v end = member k v end
insert_member k v (member j w ms) =
    if text_le k j then member k v (member j w ms) else member j w (insert_member k v ms)

-- `_sort_value`: lists item by item, dicts by sorted key, and all else as it is.
unfoldable mutual
  unfolding insert_member

  pub sort_value : Json → Json
  sort_value (arr xs) = arr (sort_items xs)
  sort_value (obj ms) = obj (sort_members ms)
  sort_value null = null
  sort_value (bool b) = bool b
  sort_value (int n) = int n
  sort_value (str s) = str s

  pub sort_items : Items → Items
  sort_items nil = nil
  sort_items (cons x xs) = cons (sort_value x) (sort_items xs)

  pub sort_members : Members → Members
  sort_members end = end
  sort_members (member k v ms) = insert_member k (sort_value v) (sort_members ms)

-- `separators=(",", ":"), ensure_ascii=False`
abbrev pub compact_raw : Format
compact_raw = record { escape = escape_raw; comma = text ","; colon = text ":" }

unfoldable pub to_canonical_json : Json → Text
unfolding sort_value dumps escape_raw
to_canonical_json value = dumps compact_raw (sort_value value)
