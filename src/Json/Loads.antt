-- ===== src/Json/Loads.antt =====
-- `json.loads` of the standard library, without floats: a text is cut into tokens, one character at
-- a time, and the tokens build a value, one token at a time. `none` stands for its ValueError.
pub mod Parsed
pub mod Lexed
pub mod Numbers
pub mod RoundTrip
pub mod Indented
use helix_sdk_py.Base.{
  Bool, List, Option, [], false, if◌then◌else◌, leb, ltb, negsuc, none, pos, reverse, some, suc,
  true, zero, ℕ, ℤ, ◌&&◌, ◌*◌, ◌++◌, ◌+◌, ◌-◌, ◌==◌, ◌||◌, ◌∷◌,
}
use helix_sdk_py.Http.Url.Utf8.{utf8_decode}
use helix_sdk_py.Json.{
  Items, Json, Members, arr, bool, cons, end, get, int, member, nil, null, obj, str,
}
use helix_sdk_py.Text.{Bytes, Text, text, text_eq}
use helix_sdk_py.Text.Hex.{hex_value}

pub data Token : Type 0 where
  t_null t_true t_false : Token
  t_int : ℤ → Token
  t_str : Text → Token
  open_bracket close_bracket open_brace close_brace comma colon : Token

-- Where the cutting is: between tokens, in a string behind these characters (the last one first), in
-- an escape, in its hex digits, in a number, or in a word.
pub data Place : Type 0 where
  between : Place
  in_string : Text → Place
  escaped : Text → Place
  in_hex : Text → ℕ → ℕ → Place
  minus : Place
  whole_zero : Place
  in_digits : Bool → ℕ → Place
  in_word : Text → Token → Place

abbrev pub is_high : ℕ → Bool
is_high c = leb 0xD800 c && leb c 0xDBFF

abbrev pub is_low : ℕ → Bool
is_low c = leb 0xDC00 c && leb c 0xDFFF

-- A character behind others; two halves of a pair make one character.
unfoldable pub push_char : ℕ → Text → Text
push_char c [] = c ∷ []
push_char c (h ∷ s) =
    if is_high h && is_low c then (0x10000 + (h - 0xD800) * 1024 + (c - 0xDC00)) ∷ s else c ∷ h ∷ s

abbrev pub is_digit : ℕ → Bool
is_digit c = leb 48 c && leb c 57

abbrev pub signed : Bool → ℕ → ℤ
signed false n = pos n
signed true zero = pos 0
signed true (suc n) = negsuc n

-- What a character between tokens begins.
unfoldable pub opening : ℕ → Option (List Token × Place)
opening c =
    if c == 32 || (c == 9 || (c == 10 || c == 13))
    then some ([], between)
    else if c == 34
    then some ([], in_string [])
    else if c == b'['
    then some (open_bracket ∷ [], between)
    else if c == b']'
    then some (close_bracket ∷ [], between)
    else if c == b'{'
    then some (open_brace ∷ [], between)
    else if c == b'}'
    then some (close_brace ∷ [], between)
    else if c == b','
    then some (comma ∷ [], between)
    else if c == b':'
    then some (colon ∷ [], between)
    else if c == b'n'
    then some ([], in_word (text "ull") t_null)
    else if c == b't'
    then some ([], in_word (text "rue") t_true)
    else if c == b'f'
    then some ([], in_word (text "alse") t_false)
    else if c == b'-'
    then some ([], minus)
    else if c == 48
    then some ([], whole_zero)
    else if is_digit c
    then some ([], in_digits false (c - 48))
    else none

-- A backslash and a letter.
unfoldable pub short_letter : ℕ → Option ℕ
short_letter c =
    if c == 34 || (c == 92 || c == 47)
    then some c
    else if c == b'n'
    then some 10
    else if c == b'r'
    then some 13
    else if c == b't'
    then some 9
    else if c == b'f'
    then some 12
    else if c == b'b'
    then some 8
    else none

abbrev pub is_fraction : ℕ → Bool
is_fraction c = c == b'.' || (c == b'e' || c == b'E')

abbrev pub emit : List Token → Option (List Token × Place) → Option (List Token × Place)
emit out none = none
emit out (some (more, place)) = some (out ++ more, place)

-- Behind a number: a part that is no integer is refused, and another character begins anew.
abbrev pub behind : ℤ → ℕ → Option (List Token × Place)
behind n c = if is_fraction c then none else emit (t_int n ∷ []) (opening c)

unfoldable pub step : Place → ℕ → Option (List Token × Place)
unfolding opening short_letter push_char hex_value
step between c = opening c
step (in_string s) c =
    if c == 34
    then some (t_str (reverse s) ∷ [], between)
    else if c == 92
    then some ([], escaped s)
    else if ltb c 32
    then none
    else some ([], in_string (push_char c s))
step (escaped s) c =
    if c == b'u'
    then some ([], in_hex s 3 0)
    else elim (short_letter c) [ none ↦ none | some d ↦ some ([], in_string (push_char d s)) ]
step (in_hex s n v) c = elim (hex_value c) [
  | none ↦ none
  | some d ↦ elim n [
    | zero ↦ some ([], in_string (push_char (v * 16 + d) s))
    | suc m ↦ some ([], in_hex s m (v * 16 + d))
  ]
]
step minus c =
    if c == 48
    then some ([], whole_zero)
    else if is_digit c
    then some ([], in_digits true (c - 48))
    else none
step whole_zero c = behind (pos 0) c
step (in_digits sign n) c =
    if is_digit c then some ([], in_digits sign (n * 10 + (c - 48))) else behind (signed sign n) c
step (in_word [] token) c = none
step (in_word (d ∷ []) token) c = if c == d then some (token ∷ [], between) else none
step (in_word (d ∷ e ∷ s) token) c = if c == d then some ([], in_word (e ∷ s) token) else none

-- The end of the text.
unfoldable pub finish : Place → Option (List Token)
finish between = some []
finish whole_zero = some (t_int (pos 0) ∷ [])
finish (in_digits sign n) = some (t_int (signed sign n) ∷ [])
finish place = none

abbrev pub prepend : List Token → Option (List Token) → Option (List Token)
prepend out none = none
prepend out (some ts) = some (out ++ ts)

unfoldable pub lex : Place → Text → Option (List Token)
unfolding step finish
lex place [] = finish place
lex place (c ∷ s) = elim (step place c) [
  | none ↦ none
  | some (out, next) ↦ prepend out (lex next s)
]

-- What is open around a value: a list with its items so far, or a dict with its members so far and
-- a key, both with the last one first.
pub data Frame : Type 0 where
  in_items : List Json → Frame
  in_members : List (Text × Json) → Text → Frame

pub data Stage : Type 0 where
  value_next item_or_end key_or_end : List Frame → Stage
  key_next : List (Text × Json) → List Frame → Stage
  colon_next : List (Text × Json) → Text → List Frame → Stage
  more_items : List Json → List Frame → Stage
  more_members : List (Text × Json) → List Frame → Stage
  finished : Json → Stage

-- A whole value goes to what is around it.
abbrev pub deliver : Json → List Frame → Stage
deliver v [] = finished v
deliver v (in_items vs ∷ fs) = more_items (v ∷ vs) fs
deliver v (in_members ms k ∷ fs) = more_members ((k, v) ∷ ms) fs

unfoldable pub list_of : List Json → Items → Items
list_of [] xs = xs
list_of (v ∷ vs) xs = list_of vs (cons v xs)

unfoldable pub remove_key : Text → Members → Members
unfolding text_eq
remove_key k end = end
remove_key k (member j v ms) = if text_eq j k then ms else member j v (remove_key k ms)

-- A member in front of later ones: a later value of its key is the one that stays.
unfoldable pub put_first : Text → Json → Members → Members
unfolding get remove_key
put_first k v ms = elim (get k ms) [ none ↦ member k v ms | some w ↦ member k w (remove_key k ms) ]

unfoldable pub dict_from : List (Text × Json) → Members → Members
unfolding put_first
dict_from [] ms = ms
dict_from ((k, v) ∷ pairs) ms = dict_from pairs (put_first k v ms)

unfoldable pub begin_value : List Frame → Token → Option Stage
begin_value fs t_null = some (deliver null fs)
begin_value fs t_true = some (deliver (bool true) fs)
begin_value fs t_false = some (deliver (bool false) fs)
begin_value fs (t_int n) = some (deliver (int n) fs)
begin_value fs (t_str s) = some (deliver (str s) fs)
begin_value fs open_bracket = some (item_or_end fs)
begin_value fs open_brace = some (key_or_end fs)
begin_value fs _ = none

unfoldable pub build : Stage → Token → Option Stage
unfolding begin_value list_of dict_from
build (value_next fs) t = begin_value fs t
build (item_or_end fs) close_bracket = some (deliver (arr nil) fs)
build (item_or_end fs) t = begin_value (in_items [] ∷ fs) t
build (key_or_end fs) close_brace = some (deliver (obj end) fs)
build (key_or_end fs) (t_str k) = some (colon_next [] k fs)
build (key_next ms fs) (t_str k) = some (colon_next ms k fs)
build (colon_next ms k fs) colon = some (value_next (in_members ms k ∷ fs))
build (more_items vs fs) comma = some (value_next (in_items vs ∷ fs))
build (more_items vs fs) close_bracket = some (deliver (arr (list_of vs nil)) fs)
build (more_members ms fs) comma = some (key_next ms fs)
build (more_members ms fs) close_brace = some (deliver (obj (dict_from ms end)) fs)
build stage t = none

unfoldable pub build_all : Stage → List Token → Option Json
unfolding build
build_all (finished v) [] = some v
build_all stage [] = none
build_all stage (t ∷ ts) = elim (build stage t) [ none ↦ none | some next ↦ build_all next ts ]

unfoldable pub json_loads : Text → Option Json
unfolding lex build_all
json_loads s = elim (lex between s) [ none ↦ none | some ts ↦ build_all (value_next []) ts ]

-- `json.loads` of octets, which are UTF-8.
unfoldable pub json_loads_octets : Bytes → Option Json
unfolding json_loads utf8_decode
json_loads_octets octets = elim (utf8_decode octets) [ none ↦ none | some s ↦ json_loads s ]
