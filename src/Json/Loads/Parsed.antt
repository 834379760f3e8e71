-- ===== src/Json/Loads/Parsed.antt =====
-- The tokens of a value build that value.
use helix_sdk_py.Base.{Bool, List, [], all, ap, false, none, refl, true, ◌∙◌, ◌∷◌, ◌≡◌}
use helix_sdk_py.Http.Url.Utf8.{is_scalar}
use helix_sdk_py.Json.{
  Items, Json, Members, arr, bool, cons, end, get, int, member, nil, null, obj, str,
}
use helix_sdk_py.Json.Loads.{
  Frame, Token, build_all, close_brace, close_bracket, colon, comma, deliver, dict_from, in_items,
  in_members, item_or_end, key_next, key_or_end, list_of, open_brace, open_bracket, put_first,
  t_false, t_int, t_null, t_str, t_true, value_next,
}
use helix_sdk_py.Text.{Text}

-- The tokens of a value, in front of others.
unfoldable mutual
  pub tokens : Json → List Token → List Token
  tokens null ts = t_null ∷ ts
  tokens (bool true) ts = t_true ∷ ts
  tokens (bool false) ts = t_false ∷ ts
  tokens (int n) ts = t_int n ∷ ts
  tokens (str s) ts = t_str s ∷ ts
  tokens (arr xs) ts = open_bracket ∷ item_tokens xs (close_bracket ∷ ts)
  tokens (obj ms) ts = open_brace ∷ member_tokens ms (close_brace ∷ ts)

  pub item_tokens : Items → List Token → List Token
  item_tokens nil ts = ts
  item_tokens (cons x nil) ts = tokens x ts
  item_tokens (cons x (cons y ys)) ts = tokens x (comma ∷ item_tokens (cons y ys) ts)

  pub member_tokens : Members → List Token → List Token
  member_tokens end ts = ts
  member_tokens (member k v end) ts = t_str k ∷ colon ∷ tokens v ts
  member_tokens (member k v (member j w ms)) ts =
      t_str k ∷ colon ∷ tokens v (comma ∷ member_tokens (member j w ms) ts)

-- Values whose texts have no surrogates and whose dicts have distinct keys.
abbrev mutual
  pub IsPlain : Json → Type 0
  IsPlain (str s) = all is_scalar s ≡ true
  IsPlain (arr xs) = ArePlain xs
  IsPlain (obj ms) = HavePlain ms
  IsPlain v = Unit

  pub ArePlain : Items → Type 0
  ArePlain nil = Unit
  ArePlain (cons x xs) = IsPlain x × ArePlain xs

  pub HavePlain : Members → Type 0
  HavePlain end = Unit
  HavePlain (member k v ms) =
      (all is_scalar k ≡ true) × (get k ms ≡ none) × IsPlain v × HavePlain ms

-- The first token of a value begins it, behind the bracket of a list, too.
first_item :
    (x : Json) (fs : List Frame) (ts : List Token)
    → build_all (item_or_end fs) (tokens x ts)
      ≡ build_all (value_next (in_items [] ∷ fs)) (tokens x ts)
unfolding tokens build_all
first_item null fs ts = refl
first_item (bool true) fs ts = refl
first_item (bool false) fs ts = refl
first_item (int n) fs ts = refl
first_item (str s) fs ts = refl
first_item (arr xs) fs ts = refl
first_item (obj ms) fs ts = refl

first_items :
    (x : Json) (xs : Items) (fs : List Frame) (ts : List Token)
    → build_all (item_or_end fs) (item_tokens (cons x xs) ts)
      ≡ build_all (value_next (in_items [] ∷ fs)) (item_tokens (cons x xs) ts)
unfolding tokens
first_items x nil fs ts = first_item x fs ts
first_items x (cons y ys) fs ts = first_item x fs (comma ∷ item_tokens (cons y ys) ts)

first_key :
    (k : Text) (v : Json) (ms : Members) (fs : List Frame) (ts : List Token)
    → build_all (key_or_end fs) (member_tokens (member k v ms) ts)
      ≡ build_all (key_next [] fs) (member_tokens (member k v ms) ts)
unfolding tokens build_all
first_key k v end fs ts = refl
first_key k v (member j w ms) fs ts = refl

put_first-new :
    (k : Text) (v : Json) (ms : Members) → get k ms ≡ none → put_first k v ms ≡ member k v ms
unfolding put_first
put_first-new k v ms h = rw (put_first, h) refl

abbrev has_items : Items → Bool
has_items nil = false
has_items (cons x xs) = true

abbrev has_members : Members → Bool
has_members end = false
has_members (member k v ms) = true

mutual
  unfolding tokens build_all list_of dict_from

  pub build_value :
      (v : Json) (fs : List Frame) (ts : List Token)
      → IsPlain v
      → build_all (value_next fs) (tokens v ts) ≡ build_all (deliver v fs) ts
  build_value null fs ts h = refl
  build_value (bool true) fs ts h = refl
  build_value (bool false) fs ts h = refl
  build_value (int n) fs ts h = refl
  build_value (str s) fs ts h = refl
  build_value (arr nil) fs ts h = refl
  build_value (arr (cons x xs)) fs ts h =
      first_items x xs fs (close_bracket ∷ ts) ∙ build_items (cons x xs) [] fs ts refl h
  build_value (obj end) fs ts h = refl
  build_value (obj (member k v ms)) fs ts h =
      first_key k v ms fs (close_brace ∷ ts) ∙ build_members (member k v ms) [] fs ts refl h

  build_items :
      (xs : Items) (vs : List Json) (fs : List Frame) (ts : List Token)
      → has_items xs ≡ true
      → ArePlain xs
      → build_all (value_next (in_items vs ∷ fs)) (item_tokens xs (close_bracket ∷ ts))
        ≡ build_all (deliver (arr (list_of vs xs)) fs) ts
  build_items nil vs fs ts some_item h = absurd (cc some_item)
  build_items (cons x nil) vs fs ts some_item (h, k) =
      build_value x (in_items vs ∷ fs) (close_bracket ∷ ts) h
  build_items (cons x (cons y ys)) vs fs ts some_item (h, k) =
      build_value x (in_items vs ∷ fs) (comma ∷ item_tokens (cons y ys) (close_bracket ∷ ts)) h
      ∙ build_items (cons y ys) (x ∷ vs) fs ts refl k

  build_members :
      (ms : Members) (pairs : List (Text × Json)) (fs : List Frame) (ts : List Token)
      → has_members ms ≡ true
      → HavePlain ms
      → build_all (key_next pairs fs) (member_tokens ms (close_brace ∷ ts))
        ≡ build_all (deliver (obj (dict_from pairs ms)) fs) ts
  build_members end pairs fs ts some_member h = absurd (cc some_member)
  build_members (member k v end) pairs fs ts some_member (_, _, h, _) =
      build_value v (in_members pairs k ∷ fs) (close_brace ∷ ts) h
  build_members (member k v (member j w ms)) pairs fs ts some_member (_, new, h, more) =
      build_value v (in_members pairs k ∷ fs)
        (comma ∷ member_tokens (member j w ms) (close_brace ∷ ts)) h
      ∙ build_members (member j w ms) ((k, v) ∷ pairs) fs ts refl more
      ∙ ap (λ d. build_all (deliver (obj (dict_from pairs d)) fs) ts)
          (put_first-new k v (member j w ms) new)
