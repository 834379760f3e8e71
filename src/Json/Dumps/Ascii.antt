-- ===== src/Json/Dumps/Ascii.antt =====
-- With `ensure_ascii` the text of a value is ASCII.
use helix_sdk_py.Json.Dumps.{escape_text, quoted}
use helix_sdk_py.Base.{
  All, All-append, Bool-cases, [], arith, false, inl, inr, leb, ltb, some, true, ℕ, ◌%◌, ◌&&◌, ◌++◌,
  ◌+◌, ◌-◌, ◌/◌, ◌<◌, ◌∷◌, ◌≡◌,
}
use helix_sdk_py.Json.{Items, Json, Members, arr, bool, cons, end, int, member, nil, null, obj, str}
use helix_sdk_py.Json.Dumps.{
  Format, dumps, dumps_items, dumps_members, escape_ascii, hex_of, long_escape, short_escape,
  u_escape,
}
use helix_sdk_py.Text.{Text}
use helix_sdk_py.Text.Decimal.{int_text-ascii}

abbrev pub IsAscii : Text → Type 0
IsAscii s = All (λ c. c < 128) s

abbrev append-ascii : (s t : Text) → IsAscii s → IsAscii t → IsAscii (s ++ t)
append-ascii s t h k = All-append (λ c. c < 128) s t h k

u_escape-ascii : (c : ℕ) → IsAscii (u_escape c)
unfolding u_escape hex_of
u_escape-ascii c = ground arith

short_escape-ascii : (c : ℕ) (e : Text) → short_escape c ≡ some e → IsAscii e
unfolding short_escape
short_escape-ascii c e h = ground arith

long_escape-ascii : (c : ℕ) → IsAscii (long_escape c)
unfolding long_escape
long_escape-ascii c = elim (Bool-cases (leb 32 c && leb c 126)) [
  | inl plain ↦ rw plain (ground arith, tt)
  | inr other ↦ rw other (elim (Bool-cases (ltb c 0x10000)) [
    | inl narrow ↦ rw narrow (u_escape-ascii c)
    | inr wide ↦ rw wide (
        append-ascii (u_escape (0xD800 + (c - 0x10000) / 1024 % 1024))
          (u_escape (0xDC00 + (c - 0x10000) % 1024))
          (u_escape-ascii (0xD800 + (c - 0x10000) / 1024 % 1024))
          (u_escape-ascii (0xDC00 + (c - 0x10000) % 1024)))
  ])
]

pub escape_ascii-ascii : (c : ℕ) → IsAscii (escape_ascii c)
unfolding escape_ascii
escape_ascii-ascii c = ground (arith, short_escape-ascii c, long_escape-ascii c)

module _ (f : Format) (escapes : (c : ℕ) → IsAscii (f.escape c)) (comma : IsAscii f.comma)
    (colon : IsAscii f.colon) where
  escape_text-ascii : (s : Text) → IsAscii (escape_text f s)
  unfolding escape_text
  escape_text-ascii [] = tt
  escape_text-ascii (c ∷ s) =
      append-ascii (f.escape c) (escape_text f s) (escapes c) (escape_text-ascii s)

  quoted-ascii : (s : Text) → IsAscii (quoted f s)
  unfolding quoted
  quoted-ascii s = (
    omega arith,
    append-ascii (escape_text f s) (34 ∷ []) (escape_text-ascii s) (omega arith, tt),
  )

  named-ascii : (k : Text) (rest : Text) → IsAscii rest → IsAscii (quoted f k ++ f.colon ++ rest)
  named-ascii k rest h =
      append-ascii (quoted f k ++ f.colon) rest
        (append-ascii (quoted f k) f.colon (quoted-ascii k) colon) h

  mutual
    unfolding dumps

    dumps_ascii : (v : Json) → IsAscii (dumps f v)
    dumps_ascii null = omega arith
    dumps_ascii (bool true) = omega arith
    dumps_ascii (bool false) = omega arith
    dumps_ascii (int n) = int_text-ascii n
    dumps_ascii (str s) = quoted-ascii s
    dumps_ascii (arr xs) = (
      omega arith,
      append-ascii (dumps_items f xs) (b']' ∷ []) (items_ascii xs) (omega arith, tt),
    )
    dumps_ascii (obj ms) = (
      omega arith,
      append-ascii (dumps_members f ms) (b'}' ∷ []) (members_ascii ms) (omega arith, tt),
    )

    items_ascii : (xs : Items) → IsAscii (dumps_items f xs)
    items_ascii nil = tt
    items_ascii (cons x nil) = dumps_ascii x
    items_ascii (cons x (cons y ys)) =
        append-ascii (dumps f x ++ f.comma) (dumps_items f (cons y ys))
          (append-ascii (dumps f x) f.comma (dumps_ascii x) comma) (items_ascii (cons y ys))

    members_ascii : (ms : Members) → IsAscii (dumps_members f ms)
    members_ascii end = tt
    members_ascii (member k v end) = named-ascii k (dumps f v) (dumps_ascii v)
    members_ascii (member k v (member j w ms)) =
        append-ascii (quoted f k ++ f.colon ++ dumps f v ++ f.comma)
          (dumps_members f (member j w ms))
          (append-ascii (quoted f k ++ f.colon ++ dumps f v) f.comma
            (named-ascii k (dumps f v) (dumps_ascii v)) comma)
          (members_ascii (member j w ms))

  pub dumps-ascii : (v : Json) → IsAscii (dumps f v)
  dumps-ascii v = dumps_ascii v
