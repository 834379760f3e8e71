-- ===== src/Json/Loads/RoundTrip.antt =====
-- `json.loads` reads what `json.dumps` wrote.
use helix_sdk_py.Base.{
  List, [], all, ap, append-nil, append_assoc, false, refl, some, sym, true, ℕ, ◌++◌, ◌∙◌, ◌∷◌, ◌≡◌,
}
use helix_sdk_py.Http.Url.Utf8.{is_scalar}
use helix_sdk_py.Json.{Items, Json, Members, arr, bool, cons, end, int, member, nil, null, obj, str}
use helix_sdk_py.Json.Dumps.{Format, dumps, dumps_items, dumps_members, escape_ascii, quoted}
use helix_sdk_py.Json.Dumps.Indented.{ascii_format}
use helix_sdk_py.Json.Loads.{
  Token, between, build_all, close_brace, close_bracket, colon, comma, finish, in_string,
  json_loads, lex, open_brace, open_bracket, prepend, step, t_int, t_str,
}
use helix_sdk_py.Json.Loads.Lexed.{lex-escape, lex-quoted}
use helix_sdk_py.Json.Loads.Numbers.{is_loose, lex-int_text}
use helix_sdk_py.Json.Loads.Parsed.{
  ArePlain, HavePlain, IsPlain, build_value, item_tokens, member_tokens, tokens,
}
use helix_sdk_py.Text.{Text, text}

abbrev pub Lexes : Text → List Token → Type 0
Lexes s ts = lex between s ≡ some ts

pub lex-mark :
    (c : ℕ) (t : Token) (s : Text) (ts : List Token)
    → step between c ≡ some (t ∷ [], between)
    → Lexes s ts
    → Lexes (c ∷ s) (t ∷ ts)
unfolding lex
lex-mark c t s ts e h = rw (lex, e, h) refl

pub append_three : (a b c s : Text) → (a ++ b ++ c) ++ s ≡ a ++ (b ++ (c ++ s))
append_three a b c s = append_assoc (a ++ b) c s ∙ append_assoc a b (c ++ s)

pub append_five :
    (a b c d e s : Text) → (a ++ b ++ c ++ d ++ e) ++ s ≡ a ++ (b ++ (c ++ (d ++ (e ++ s))))
append_five a b c d e s =
    append_assoc (a ++ b ++ c ++ d) e s
    ∙ append_assoc (a ++ b ++ c) d (e ++ s)
    ∙ append_three a b c (d ++ (e ++ s))

-- What makes a format readable: its escapes, its comma and its colon are read as such.
pub record IsReadable (f : Format) : Type 0 where
  pub reads_escape :
      (c : ℕ) (s rest : Text)
      → is_scalar c ≡ true
      → lex (in_string s) (f.escape c ++ rest) ≡ lex (in_string (c ∷ s)) rest
  pub reads_comma : (s : Text) (ts : List Token) → Lexes s ts → Lexes (f.comma ++ s) (comma ∷ ts)
  pub reads_colon : (s : Text) (ts : List Token) → Lexes s ts → Lexes (f.colon ++ s) (colon ∷ ts)
  pub loose_comma : (s : Text) → is_loose (f.comma ++ s) ≡ true

module _ (f : Format) (law : IsReadable f) where
  lex-text :
      (k s : Text) (ts : List Token)
      → all is_scalar k ≡ true
      → Lexes s ts
      → Lexes (quoted f k ++ s) (t_str k ∷ ts)
  lex-text k s ts h e = lex-quoted f law.reads_escape k s h ∙ ap (prepend (t_str k ∷ [])) e

  -- A key, a colon and the rest.
  pub lex-key :
      (k s : Text) (ts : List Token)
      → all is_scalar k ≡ true
      → Lexes s ts
      → Lexes (quoted f k ++ (f.colon ++ s)) (t_str k ∷ colon ∷ ts)
  lex-key k s ts h e = lex-text k (f.colon ++ s) (colon ∷ ts) h (law.reads_colon s ts e)

  mutual
    unfolding dumps tokens lex step

    pub lex_value :
        (v : Json) (s : Text) (ts : List Token)
        → IsPlain v
        → is_loose s ≡ true
        → Lexes s ts
        → Lexes (dumps f v ++ s) (tokens v ts)
    lex_value null s ts h l e = rw e refl
    lex_value (bool true) s ts h l e = rw e refl
    lex_value (bool false) s ts h l e = rw e refl
    lex_value (int n) s ts h l e = lex-int_text n s l ∙ ap (prepend (t_int n ∷ [])) e
    lex_value (str t) s ts h l e = lex-text t s ts h e
    lex_value (arr xs) s ts h l e =
        lex-mark b'[' open_bracket (dumps_items f xs ++ b']' ∷ [] ++ s) _ refl (
          ap (lex between) (append_assoc (dumps_items f xs) (b']' ∷ []) s)
          ∙ lex_items xs (b']' ∷ s) (close_bracket ∷ ts) h refl
              (lex-mark b']' close_bracket s ts refl e))
    lex_value (obj ms) s ts h l e =
        lex-mark b'{' open_brace (dumps_members f ms ++ b'}' ∷ [] ++ s) _ refl (
          ap (lex between) (append_assoc (dumps_members f ms) (b'}' ∷ []) s)
          ∙ lex_members ms (b'}' ∷ s) (close_brace ∷ ts) h refl
              (lex-mark b'}' close_brace s ts refl e))

    lex_items :
        (xs : Items) (s : Text) (ts : List Token)
        → ArePlain xs
        → is_loose s ≡ true
        → Lexes s ts
        → Lexes (dumps_items f xs ++ s) (item_tokens xs ts)
    lex_items nil s ts h l e = e
    lex_items (cons x nil) s ts (h, k) l e = lex_value x s ts h l e
    lex_items (cons x (cons y ys)) s ts (h, k) l e =
        let more = dumps_items f (cons y ys) in
        ap (lex between) (append_three (dumps f x) f.comma more s)
        ∙ lex_value x (f.comma ++ (more ++ s)) _ h (law.loose_comma (more ++ s))
            (law.reads_comma (more ++ s) _ (lex_items (cons y ys) s ts k l e))

    lex_members :
        (ms : Members) (s : Text) (ts : List Token)
        → HavePlain ms
        → is_loose s ≡ true
        → Lexes s ts
        → Lexes (dumps_members f ms ++ s) (member_tokens ms ts)
    lex_members end s ts h l e = e
    lex_members (member k v end) s ts (plain, _, h, _) l e =
        ap (lex between) (append_three (quoted f k) f.colon (dumps f v) s)
        ∙ lex-key k (dumps f v ++ s) _ plain (lex_value v s ts h l e)
    lex_members (member k v (member j w ms)) s ts (plain, _, h, more) l e =
        let behind = dumps_members f (member j w ms) in
        let shown = dumps f v in
        ap (lex between) (append_five (quoted f k) f.colon shown f.comma behind s)
        ∙ lex-key k (shown ++ (f.comma ++ (behind ++ s))) _ plain (
            lex_value v (f.comma ++ (behind ++ s)) _ h (law.loose_comma (behind ++ s))
              (law.reads_comma (behind ++ s) _ (lex_members (member j w ms) s ts more l e)))

  -- A value without surrogates and with distinct keys is read back from its text.
  pub json_loads-dumps : (v : Json) → IsPlain v → json_loads (dumps f v) ≡ some v
  unfolding json_loads lex finish build_all
  json_loads-dumps v h =
      let cut : lex between (dumps f v) ≡ some (tokens v []) =
        ap (lex between) (sym (append-nil (dumps f v))) ∙ lex_value v [] [] h refl refl in
      rw (json_loads, cut) (build_value v [] [] h)

-- `json.dumps` with its defaults, and with the separators "," and ":".
pub ascii_format-IsReadable : IsReadable ascii_format
unfolding lex step
ascii_format-IsReadable = record {
  reads_escape = lex-escape;
  reads_comma = λ s ts e. rw e refl;
  reads_colon = λ s ts e. rw e refl;
  loose_comma = λ s. refl;
}

abbrev pub narrow_format : Format
narrow_format = record { escape = escape_ascii; comma = text ","; colon = text ":" }

pub narrow_format-IsReadable : IsReadable narrow_format
unfolding lex step
narrow_format-IsReadable = record {
  reads_escape = lex-escape;
  reads_comma = λ s ts e. rw e refl;
  reads_colon = λ s ts e. rw e refl;
  loose_comma = λ s. refl;
}
