-- ===== src/Json/Dumps/Indented.antt =====
-- `json.dumps(v, indent=2)`: a line for each item and member, and an empty list or dict on one line.
use helix_sdk_py.Base.{[], refl, replicate, suc, true, ℕ, ◌*◌, ◌++◌, ◌∷◌, ◌≡◌}
use helix_sdk_py.Json.{Items, Json, Members, arr, bool, cons, end, int, member, nil, null, obj, str}
use helix_sdk_py.Json.Dumps.{Format, dumps, escape_ascii}
use helix_sdk_py.Text.{Text, text}

-- A line break, and two spaces for each level.
unfoldable pub new_line : ℕ → Text
new_line level = 10 ∷ replicate (2 * level) 32

abbrev pub ascii_format : Format
ascii_format = record { escape = escape_ascii; comma = text ", "; colon = text ": " }

unfoldable mutual
  unfolding new_line dumps escape_ascii

  pub dumps_indented : ℕ → Json → Text
  dumps_indented level (arr nil) = text "[]"
  dumps_indented level (arr (cons x xs)) =
      b'[' ∷ new_line (suc level)
      ++ (dumps_indented (suc level) x
          ++ indented_items (suc level) xs
          ++ (new_line level ++ text "]"))
  dumps_indented level (obj end) = text "{}"
  dumps_indented level (obj (member k v ms)) =
      b'{' ∷ new_line (suc level)
      ++ (dumps ascii_format (str k)
          ++ text ": "
          ++ dumps_indented (suc level) v
          ++ indented_members (suc level) ms
          ++ (new_line level ++ text "}"))
  dumps_indented level null = dumps ascii_format null
  dumps_indented level (bool b) = dumps ascii_format (bool b)
  dumps_indented level (int n) = dumps ascii_format (int n)
  dumps_indented level (str s) = dumps ascii_format (str s)

  pub indented_items : ℕ → Items → Text
  indented_items level nil = []
  indented_items level (cons x xs) =
      b',' ∷ new_line level ++ (dumps_indented level x ++ indented_items level xs)

  pub indented_members : ℕ → Members → Text
  indented_members level end = []
  indented_members level (member k v ms) =
      b',' ∷ new_line level
      ++ (dumps ascii_format (str k)
          ++ text ": "
          ++ dumps_indented level v
          ++ indented_members level ms)

indented_sample :
    dumps_indented 0 (
      obj (
        member
          (text "a")
          (arr (cons (bool true) (cons null nil)))
          (member (text "b") (obj end) end)))
    ≡ text "{\n  \"a\": [\n    true,\n    null\n  ],\n  \"b\": {}\n}"
unfolding dumps_indented
indented_sample = refl
