-- ===== src/Json/Dumps.antt =====
-- `json.dumps`, by its string escapes and its separators.
pub mod Ascii
pub mod Indented
use helix_sdk_py.Base.{
  Option, [], false, if◌then◌else◌, leb, ltb, none, some, true, ℕ, ◌%◌, ◌&&◌, ◌++◌, ◌+◌, ◌-◌, ◌/◌,
  ◌==◌, ◌∷◌,
}
use helix_sdk_py.Json.{Items, Json, Members, arr, bool, cons, end, int, member, nil, null, obj, str}
use helix_sdk_py.Text.{Text, text}
use helix_sdk_py.Text.Decimal.{int_text}

unfoldable pub hex_of : ℕ → ℕ
hex_of d = if ltb d 10 then 48 + d else 87 + d

-- `\uXXXX`
unfoldable pub u_escape : ℕ → Text
unfolding hex_of
u_escape c =
    92
    ∷ b'u'
    ∷ hex_of (c / 4096 % 16)
    ∷ hex_of (c / 256 % 16)
    ∷ hex_of (c / 16 % 16)
    ∷ hex_of (c % 16)
    ∷ []

-- The escapes with a letter of their own; `none` for the rest.
unfoldable pub short_escape : ℕ → Option Text
short_escape c =
    if c == 34
    then some (92 ∷ 34 ∷ [])
    else if c == 92
    then some (92 ∷ 92 ∷ [])
    else if c == 10
    then some (92 ∷ b'n' ∷ [])
    else if c == 13
    then some (92 ∷ b'r' ∷ [])
    else if c == 9
    then some (92 ∷ b't' ∷ [])
    else if c == 12
    then some (92 ∷ b'f' ∷ [])
    else if c == 8
    then some (92 ∷ b'b' ∷ [])
    else none

-- `ensure_ascii=False`: only the control characters below space are written as numbers.
unfoldable pub escape_raw : ℕ → Text
unfolding short_escape u_escape
escape_raw c = elim (short_escape c) [ some e ↦ e | none ↦ if ltb c 32 then u_escape c else c ∷ [] ]

unfoldable pub long_escape : ℕ → Text
unfolding u_escape
long_escape c =
    if leb 32 c && leb c 126
    then c ∷ []
    else if ltb c 0x10000
    then u_escape c
    else u_escape (0xD800 + (c - 0x10000) / 1024 % 1024) ++ u_escape (0xDC00 + (c - 0x10000) % 1024)

-- `ensure_ascii=True`: all but the printable ASCII, with a surrogate pair beyond 0xFFFF.
unfoldable pub escape_ascii : ℕ → Text
unfolding short_escape long_escape
escape_ascii c = elim (short_escape c) [ some e ↦ e | none ↦ long_escape c ]

pub record Format : Type 0 where
  pub escape : ℕ → Text
  pub comma : Text
  pub colon : Text

module _ (f : Format) where
  unfoldable pub escape_text : Text → Text
  escape_text [] = []
  escape_text (c ∷ s) = f.escape c ++ escape_text s

  unfoldable pub quoted : Text → Text
  unfolding escape_text
  quoted s = 34 ∷ escape_text s ++ 34 ∷ []

  -- What stands behind an item, and behind a member: a separator, or nothing behind the last.
  unfoldable mutual
    unfolding quoted

    pub dumps : Json → Text
    dumps null = text "null"
    dumps (bool true) = text "true"
    dumps (bool false) = text "false"
    dumps (int n) = int_text n
    dumps (str s) = quoted s
    dumps (arr xs) = b'[' ∷ dumps_items xs ++ b']' ∷ []
    dumps (obj ms) = b'{' ∷ dumps_members ms ++ b'}' ∷ []

    pub dumps_items : Items → Text
    dumps_items nil = []
    dumps_items (cons x nil) = dumps x
    dumps_items (cons x (cons y ys)) = dumps x ++ f.comma ++ dumps_items (cons y ys)

    pub dumps_members : Members → Text
    dumps_members end = []
    dumps_members (member k v end) = quoted k ++ f.colon ++ dumps v
    dumps_members (member k v (member j w ms)) =
        quoted k ++ f.colon ++ dumps v ++ f.comma ++ dumps_members (member j w ms)
