-- ===== src/Did.antt =====
-- src/helix_sdk/did.py: the document of a key, and the key of a document.
use helix_sdk_py.Errors.{◌>>=◌}
use helix_sdk_py.Base.{
  All, Bool, List, Option, [], false, if◌then◌else◌, none, refl, some, ℕ, ◌++◌, ◌+◌, ◌∙◌, ◌∷◌, ◌≡◌,
}
use helix_sdk_py.Client.{dict}
use helix_sdk_py.Errors.{Result, builtin, ok, raised, subscript}
use helix_sdk_py.Errors.Mapping.{get_or_default}
use helix_sdk_py.Json.{Items, Json, Members, arr, cons, get, nil, obj, put, str, texts, truthy}
use helix_sdk_py.Keys.{multibase_to_public_key_hex, public_key_to_multibase}
use helix_sdk_py.Keys.Multibase.{multibase_round_trip}
use helix_sdk_py.Proof.{value_error}
use helix_sdk_py.Text.{Bytes, Text, nonempty, text, text_eq}
use helix_sdk_py.Text.Decimal.{decimal}
use helix_sdk_py.Text.Hex.{IsByte, to_hex}

-- The key is no hex, or the multibase value is no base58btc.
unfoldable multibase_of : Text → Result Text
multibase_of public_key_hex = elim (public_key_to_multibase public_key_hex) [
  | none ↦ value_error
  | some m ↦ ok m
]

abbrev list_of : Json → Json
list_of v = arr (cons v nil)

-- `if service_endpoints: document["service"] = service_endpoints`
abbrev with_service : Option Items → Members → Members
with_service none document = document
with_service (some nil) document = document
with_service (some (cons v vs)) document = put (text "service") (arr (cons v vs)) document

unfoldable pub document_of : Text → Text → Option Items → Members
unfolding put
document_of did multibase service_endpoints =
    let method_id : Json = str (did ++ text "#key-1") in
    with_service service_endpoints (
      dict (
        (
          text "@context",
          arr (
              texts (
                text "https://www.w3.org/ns/did/v1"
                ∷ text "https://w3id.org/security/suites/ed25519-2020/v1"
                ∷ [])),
        )
        ∷ (text "id", str did)
        ∷ (text "controller", str did)
        ∷ (
          text "verificationMethod",
          list_of (
              obj (
                dict (
                  (text "id", method_id)
                  ∷ (text "type", str (text "Ed25519VerificationKey2020"))
                  ∷ (text "controller", str did)
                  ∷ (text "publicKeyMultibase", str multibase)
                  ∷ []))),
        )
        ∷ (text "authentication", list_of method_id)
        ∷ (text "assertionMethod", list_of method_id)
        ∷ []))

unfoldable pub build_did_document : Text → Text → Option Items → Result Members
unfolding multibase_of
build_did_document did public_key_hex service_endpoints =
    multibase_of public_key_hex >>= λ m. ok (document_of did m service_endpoints)

-- `multibase_to_public_key_hex` of a value.
unfoldable pub key_of : Json → Result Text
key_of (str m) = elim (multibase_to_public_key_hex m) [ none ↦ value_error | some k ↦ ok k ]
key_of v = raised (builtin (text "AttributeError") (text "startswith"))

unfoldable pub is_ed25519_method : Members → Bool
unfolding get text_eq
is_ed25519_method method = elim (get (text "type") method) [
  | some (str t) ↦ text_eq t (text "Ed25519VerificationKey2020")
  | _ ↦ false
]

-- The key of the first Ed25519 method.
unfoldable pub first_key : Items → Result Text
first_key nil = value_error
first_key (cons (obj method) methods) =
    let rest = first_key methods in
    if is_ed25519_method method
    then subscript (text "publicKeyMultibase") (obj method) >>= key_of
    else rest
first_key (cons v methods) = raised (builtin (text "AttributeError") (text "get"))

-- `for method in v`: the items of a text or of a dict are texts, which have no `get`.
unfoldable pub key_in : Json → Result Text
key_in (arr methods) = first_key methods
key_in (str s) =
    if nonempty s then raised (builtin (text "AttributeError") (text "get")) else value_error
key_in (obj ms) =
    if truthy (obj ms) then raised (builtin (text "AttributeError") (text "get")) else value_error
key_in v = raised (builtin (text "TypeError") (text "object is not iterable"))

unfoldable pub extract_public_key_from_did_document : Members → Result Text
extract_public_key_from_did_document document =
    key_in (get_or_default (text "verificationMethod") (arr nil) document)

endpoints_from : ℕ → List Text → Items
endpoints_from i [] = nil
endpoints_from i (domain ∷ domains) =
    cons
      (obj (
        dict (
          (text "id", str (text "#domain-" ++ decimal (i + 1)))
          ∷ (text "type", str (text "LinkedDomains"))
          ∷ (text "serviceEndpoint", str domain)
          ∷ [])))
      (endpoints_from (i + 1) domains)

pub build_service_endpoints : List Text → Items
build_service_endpoints domains = endpoints_from 0 domains

document_of-key :
    (did multibase : Text) (service_endpoints : Option Items)
    → extract_public_key_from_did_document (document_of did multibase service_endpoints)
      ≡ key_of (str multibase)
unfolding extract_public_key_from_did_document document_of put get text_eq key_in first_key
    is_ed25519_method subscript
document_of-key did multibase none = refl
document_of-key did multibase (some nil) = refl
document_of-key did multibase (some (cons v vs)) = refl

-- The document that is built for a DID and the hex of any octets as its key gives that key back,
-- whatever its service endpoints.
pub extract_public_key-build :
    (did : Text) (bs : Bytes) (service_endpoints : Option Items)
    → All IsByte bs
    → (document : Members) × (build_did_document did (to_hex bs) service_endpoints ≡ ok document)
      × (extract_public_key_from_did_document document ≡ ok (to_hex bs))
unfolding build_did_document key_of multibase_of
extract_public_key-build did bs service_endpoints h =
    let (m, made, back) = multibase_round_trip bs h in
    (
      document_of did m service_endpoints,
      rw (build_did_document, multibase_of, made),
      document_of-key did m service_endpoints ∙ rw (key_of, back),
    )
