-- ===== src/Json/Loads/Indented.antt =====
-- `json.loads` reads what `json.dumps(v, indent=2)` wrote.
use helix_sdk_py.Base.{
  List, [], ap, append-nil, append_assoc, refl, replicate, some, suc, sym, true, zero, ℕ, ◌*◌, ◌++◌,
  ◌∙◌, ◌∷◌, ◌≡◌,
}
use helix_sdk_py.Json.{Items, Json, Members, arr, bool, cons, end, int, member, nil, null, obj, str}
use helix_sdk_py.Json.Dumps.{quoted}
use helix_sdk_py.Json.Dumps.Indented.{
  ascii_format, dumps_indented, indented_items, indented_members, new_line,
}
use helix_sdk_py.Json.Loads.{
  Token, between, build_all, close_brace, close_bracket, colon, comma, finish, json_loads, lex,
  open_brace, open_bracket, step, t_str,
}
use helix_sdk_py.Json.Loads.Lexed.{lex-step}
use helix_sdk_py.Json.Loads.Numbers.{is_loose}
use helix_sdk_py.Json.Loads.Parsed.{
  ArePlain, HavePlain, IsPlain, build_value, item_tokens, member_tokens, tokens,
}
use helix_sdk_py.Json.Loads.RoundTrip.{
  Lexes, append_five, append_three, ascii_format-IsReadable, lex-key, lex-mark, lex_value,
}
use helix_sdk_py.Text.{Text, text}

lex-spaces : (n : ℕ) (s : Text) → lex between (replicate n 32 ++ s) ≡ lex between s
unfolding step
lex-spaces zero s = refl
lex-spaces (suc n) s = lex-step between between 32 (replicate n 32 ++ s) refl ∙ lex-spaces n s

lex-new_line : (level : ℕ) (s : Text) → lex between (new_line level ++ s) ≡ lex between s
unfolding new_line step
lex-new_line level s =
    lex-step between between 10 (replicate (2 * level) 32 ++ s) refl ∙ lex-spaces (2 * level) s

-- The tokens behind the first item, and behind the first member.
abbrev rest_items : Items → List Token → List Token
rest_items nil ts = ts
rest_items (cons y ys) ts = comma ∷ item_tokens (cons y ys) ts

abbrev rest_members : Members → List Token → List Token
rest_members end ts = ts
rest_members (member k v ms) ts = comma ∷ member_tokens (member k v ms) ts

item_tokens-cons :
    (x : Json) (xs : Items) (ts : List Token)
    → item_tokens (cons x xs) ts ≡ tokens x (rest_items xs ts)
unfolding tokens
item_tokens-cons x nil ts = refl
item_tokens-cons x (cons y ys) ts = refl

member_tokens-member :
    (k : Text) (v : Json) (ms : Members) (ts : List Token)
    → member_tokens (member k v ms) ts ≡ t_str k ∷ colon ∷ tokens v (rest_members ms ts)
unfolding tokens
member_tokens-member k v end ts = refl
member_tokens-member k v (member j w ms) ts = refl

-- A line break and a closing mark.
lex-close :
    (level c : ℕ) (t : Token) (s : Text) (ts : List Token)
    → step between c ≡ some (t ∷ [], between)
    → Lexes s ts
    → Lexes (new_line level ++ (c ∷ s)) (t ∷ ts)
lex-close level c t s ts e h = lex-new_line level (c ∷ s) ∙ lex-mark c t s ts e h

loose-new_line : (level : ℕ) (s : Text) → is_loose (new_line level ++ s) ≡ true
unfolding new_line
loose-new_line level s = refl

list_parts :
    (n a b m s : Text) (c : ℕ)
    → (n ++ (a ++ b ++ (m ++ c ∷ []))) ++ s ≡ n ++ (a ++ (b ++ (m ++ (c ∷ s))))
list_parts n a b m s c =
    append_assoc n (a ++ b ++ (m ++ c ∷ [])) s
    ∙ ap (λ t. n ++ t)
        (append_three a b (m ++ c ∷ []) s ∙ ap (λ t. a ++ (b ++ t)) (append_assoc m (c ∷ []) s))

dict_parts :
    (n q k d i m s : Text) (c : ℕ)
    → (n ++ (q ++ k ++ d ++ i ++ (m ++ c ∷ []))) ++ s
      ≡ n ++ (q ++ (k ++ (d ++ (i ++ (m ++ (c ∷ s))))))
dict_parts n q k d i m s c =
    append_assoc n (q ++ k ++ d ++ i ++ (m ++ c ∷ [])) s
    ∙ ap (λ t. n ++ t)
        (append_five q k d i (m ++ c ∷ []) s
          ∙ ap (λ t. q ++ (k ++ (d ++ (i ++ t)))) (append_assoc m (c ∷ []) s))

item_parts : (n a b s : Text) → (n ++ (a ++ b)) ++ s ≡ n ++ (a ++ (b ++ s))
item_parts n a b s = append_assoc n (a ++ b) s ∙ ap (λ t. n ++ t) (append_assoc a b s)

member_parts :
    (n q k d i s : Text) → (n ++ (q ++ k ++ d ++ i)) ++ s ≡ n ++ (q ++ (k ++ (d ++ (i ++ s))))
member_parts n q k d i s =
    append_assoc n (q ++ k ++ d ++ i) s
    ∙ ap (λ t. n ++ t) (append_assoc (q ++ k ++ d) i s ∙ append_three q k d (i ++ s))

loose-items :
    (level : ℕ) (xs : Items) (s : Text)
    → is_loose s ≡ true
    → is_loose (indented_items level xs ++ s) ≡ true
unfolding dumps_indented
loose-items level nil s h = h
loose-items level (cons x xs) s h = refl

loose-members :
    (level : ℕ) (ms : Members) (s : Text)
    → is_loose s ≡ true
    → is_loose (indented_members level ms ++ s) ≡ true
unfolding dumps_indented
loose-members level end s h = h
loose-members level (member k v ms) s h = refl

-- What stands behind a line break, and behind a comma and a line break.
lex-line : (level : ℕ) (s : Text) (ts : List Token) → Lexes s ts → Lexes (new_line level ++ s) ts
lex-line level s ts e = lex-new_line level s ∙ e

mutual
  unfolding dumps_indented tokens step

  lex_indented :
      (level : ℕ) (v : Json) (s : Text) (ts : List Token)
      → IsPlain v
      → is_loose s ≡ true
      → Lexes s ts
      → Lexes (dumps_indented level v ++ s) (tokens v ts)
  lex_indented level null s ts h l e =
      lex_value ascii_format ascii_format-IsReadable null s ts h l e
  lex_indented level (bool b) s ts h l e =
      lex_value ascii_format ascii_format-IsReadable (bool b) s ts h l e
  lex_indented level (int n) s ts h l e =
      lex_value ascii_format ascii_format-IsReadable (int n) s ts h l e
  lex_indented level (str t) s ts h l e =
      lex_value ascii_format ascii_format-IsReadable (str t) s ts h l e
  lex_indented level (arr nil) s ts h l e =
      lex-mark b'[' open_bracket (b']' ∷ s) _ refl (lex-mark b']' close_bracket s ts refl e)
  lex_indented level (obj end) s ts h l e =
      lex-mark b'{' open_brace (b'}' ∷ s) _ refl (lex-mark b'}' close_brace s ts refl e)
  lex_indented level (arr (cons x xs)) s ts (h, k) l e =
      let close = new_line level ++ (b']' ∷ s) in
      let items = indented_items (suc level) xs in
      let loose = loose-new_line level (b']' ∷ s) in
      let closed = lex-close level b']' close_bracket s ts refl e in
      lex-mark b'[' open_bracket _ _ refl (
        ap (lex between) (
          list_parts (new_line (suc level)) (dumps_indented (suc level) x) items (new_line level) s
            b']')
        ∙ lex-line (suc level) (dumps_indented (suc level) x ++ (items ++ close)) _ (
            lex_indented (suc level) x (items ++ close) _ h (loose-items (suc level) xs close loose)
              (lex_indented_items (suc level) xs close _ k loose closed))
        ∙ ap some (sym (item_tokens-cons x xs (close_bracket ∷ ts))))
  lex_indented level (obj (member k v ms)) s ts (plain, new, h, more) l e =
      let close = new_line level ++ (b'}' ∷ s) in
      let behind = indented_members (suc level) ms in
      let shown = dumps_indented (suc level) v in
      let loose = loose-new_line level (b'}' ∷ s) in
      let closed = lex-close level b'}' close_brace s ts refl e in
      lex-mark b'{' open_brace _ _ refl (
        ap (lex between) (
          dict_parts (new_line (suc level)) (quoted ascii_format k) (text ": ") shown behind
            (new_line level) s b'}')
        ∙ lex-line (suc level)
            (quoted ascii_format k ++ (text ": " ++ (shown ++ (behind ++ close)))) _
            (lex-key ascii_format ascii_format-IsReadable k (shown ++ (behind ++ close)) _ plain (
              lex_indented (suc level) v (behind ++ close) _ h
                (loose-members (suc level) ms close loose)
                (lex_indented_members (suc level) ms close _ more loose closed)))
        ∙ ap some (sym (member_tokens-member k v ms (close_brace ∷ ts))))

  lex_indented_items :
      (level : ℕ) (xs : Items) (s : Text) (ts : List Token)
      → ArePlain xs
      → is_loose s ≡ true
      → Lexes s ts
      → Lexes (indented_items level xs ++ s) (rest_items xs ts)
  lex_indented_items level nil s ts h l e = e
  lex_indented_items level (cons x xs) s ts (h, k) l e =
      let behind = indented_items level xs in
      lex-mark b',' comma _ _ refl (
        ap (lex between) (item_parts (new_line level) (dumps_indented level x) behind s)
        ∙ lex-line level (dumps_indented level x ++ (behind ++ s)) _ (
            lex_indented level x (behind ++ s) _ h (loose-items level xs s l)
              (lex_indented_items level xs s ts k l e))
        ∙ ap some (sym (item_tokens-cons x xs ts)))

  lex_indented_members :
      (level : ℕ) (ms : Members) (s : Text) (ts : List Token)
      → HavePlain ms
      → is_loose s ≡ true
      → Lexes s ts
      → Lexes (indented_members level ms ++ s) (rest_members ms ts)
  lex_indented_members level end s ts h l e = e
  lex_indented_members level (member k v ms) s ts (plain, new, h, more) l e =
      let behind = indented_members level ms in
      let shown = dumps_indented level v in
      lex-mark b',' comma _ _ refl (
        ap (lex between)
          (member_parts (new_line level) (quoted ascii_format k) (text ": ") shown behind s)
        ∙ lex-line level (quoted ascii_format k ++ (text ": " ++ (shown ++ (behind ++ s)))) _ (
            lex-key ascii_format ascii_format-IsReadable k (shown ++ (behind ++ s)) _ plain (
              lex_indented level v (behind ++ s) _ h (loose-members level ms s l)
                (lex_indented_members level ms s ts more l e)))
        ∙ ap some (sym (member_tokens-member k v ms ts)))

-- A value without surrogates and with distinct keys is read back from its indented text.
pub json_loads-dumps_indented : (v : Json) → IsPlain v → json_loads (dumps_indented 0 v) ≡ some v
unfolding json_loads lex finish build_all
json_loads-dumps_indented v h =
    let cut : lex between (dumps_indented 0 v) ≡ some (tokens v []) =
      ap (lex between) (sym (append-nil (dumps_indented 0 v)))
      ∙ lex_indented 0 v [] [] h refl refl in
    rw (json_loads, cut) (build_value v [] [] h)
