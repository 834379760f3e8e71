-- ===== src/Scope.antt =====
-- src/helix_sdk/scope.py.
use helix_sdk_py.Base.{Bool, [], false, if◌then◌else◌, none, some, true, ◌∷◌}
use helix_sdk_py.Errors.{Result, builtin, helix, ok, raised}
use helix_sdk_py.Errors.Credential.{insufficient_scope_error}
use helix_sdk_py.Errors.Mapping.{get_or_default}
use helix_sdk_py.Json.{Json, Members, arr, get, item_in, nil, obj, str}
use helix_sdk_py.Text.{Text, starts_with, text}

-- `t in s` of texts.
unfoldable pub contains_text : Text → Text → Bool
contains_text [] t = starts_with [] t
contains_text (c ∷ s) t = if starts_with (c ∷ s) t then true else contains_text s t

abbrev has_key : Text → Members → Bool
has_key k ms = elim (get k ms) [ none ↦ false | some _ ↦ true ]

-- `t in v` of a value: an item of a list, a part of a text, a key of a dict.
unfoldable pub contains : Text → Json → Result Bool
contains t (arr xs) = ok (item_in t xs)
contains t (str s) = ok (contains_text s t)
contains t (obj ms) = ok (has_key t ms)
contains t v = raised (builtin (text "TypeError") (text "argument is not iterable"))

-- `check_scope`: enforcement reads `effectiveScopes`.
unfoldable pub check_scope : Json → Text → Result Bool
check_scope (obj result) required_scope =
    contains required_scope (get_or_default (text "effectiveScopes") (arr nil) result)
check_scope result required_scope = raised (builtin (text "AttributeError") (text "get"))

-- `require_scope`; `show` is what an f-string makes of a value.
unfoldable pub require_scope : (Json → Text) → Json → Text → Result (Unit {0})
require_scope show result required_scope = elim (check_scope result required_scope) [
  | ok true ↦ ok tt
  | ok false ↦ raised (helix (insufficient_scope_error show (str required_scope)))
  | raised e ↦ raised e
]
