-- ===== src/Client/Dids.antt =====
-- The DID methods of `HelixClient`, src/helix_sdk/client.py lines 83-119. What
-- `keys.generate_key_pair` returns is an argument.
use helix_sdk_py.Errors
use helix_sdk_py.Http.{◌>>=◌, ◌>>◌}
use helix_sdk_py.Base.{Bool, List, Option, [], if◌then◌else◌, some, true, ◌++◌, ◌∷◌}
use helix_sdk_py.Client.{HelixClient, api_delete, api_get, api_post, dict, json_or, texts_or_empty}
use helix_sdk_py.Errors.{Result, get_of, ok, subscript}
use helix_sdk_py.Http.{Action, Env, lift}
use helix_sdk_py.Http.Url.{quote}
use helix_sdk_py.Json.{Json, bool, obj, str, truthy}
use helix_sdk_py.Text.{Text, text}

pub record KeyPair : Type 0 where
  pub private_key : Text
  pub public_key : Text

-- `response.get("did") or response.get("id") or response["didDocument"]["id"]`
unfoldable pub created_did : Json → Result Json
unfolding get_of subscript truthy
created_did response = Errors.◌>>=◌ (get_of (text "did") response) (λ did.
    Errors.◌>>=◌ (get_of (text "id") response) (λ id.
      if truthy did
      then ok did
      else if truthy id
      then ok id
      else Errors.◌>>=◌ (subscript (text "didDocument") response) (subscript (text "id"))))

-- The dict of `create_did` without its key pair, which stands beside it.
unfoldable pub created : Json → Result Json
unfolding created_did subscript get_of
created response = Errors.◌>>=◌ (created_did response) (λ did.
    Errors.◌>>=◌ (subscript (text "didDocument") response) (λ document.
      Errors.◌>>=◌ (get_of (text "hederaTransactionId") response) (λ transaction. ok (
        obj (
          dict (
            (text "did", did)
            ∷ (text "didDocument", document)
            ∷ (text "hederaTransactionId", transaction)
            ∷ []))))))

-- `response.get("didDocument") or response.get("document") or response`
unfoldable pub resolved_document : Json → Result Json
unfolding get_of json_or
resolved_document response = Errors.◌>>=◌ (get_of (text "didDocument") response) (λ document.
    Errors.◌>>=◌ (get_of (text "document") response)
      (λ other. ok (json_or document (json_or other response))))

module _ (env : Env) (c : HelixClient) where
  unfoldable pub create_did : KeyPair → Text → Option (List Text) → Action (Json × KeyPair)
  create_did key_pair subject_type domains = do
    response ← api_post env c (text "/v1/dids") (
        some (
          obj (
            dict (
              (text "publicKeyHex", str key_pair.public_key)
              ∷ (text "subjectType", str subject_type)
              ∷ (text "domains", texts_or_empty domains)
              ∷ []))))
    lift (Errors.◌>>=◌ (created response) (λ v. ok (v, key_pair)))

  unfoldable pub resolve_did : Text → Bool → Action Json
  resolve_did did live = do
    response ←
        api_get env c (text "/v1/dids/" ++ quote did ++ (if live then text "?live=true" else []))
    lift (
        Errors.◌>>=◌ (resolved_document response) (λ document. ok (
          obj (
            dict (
              (text "did", str did)
              ∷ (text "didDocument", document)
              ∷ (text "source", str (if live then text "hedera" else text "cache"))
              ∷ [])))))

  abbrev did_result : Text → Json → Result Json
  did_result did document =
      ok (obj (dict ((text "did", str did) ∷ (text "didDocument", document) ∷ [])))

  unfoldable pub add_service_endpoint : Text → Json → Action Json
  add_service_endpoint did endpoint = do
    document ← api_post env c (text "/v1/dids/" ++ quote did ++ text "/services") (some endpoint)
    lift (did_result did document)

  unfoldable pub remove_service_endpoint : Text → Text → Action Json
  remove_service_endpoint did endpoint_id = do
    document ←
        api_delete env c (text "/v1/dids/" ++ quote did ++ text "/services/" ++ quote endpoint_id)
    lift (did_result did document)

  unfoldable pub deactivate_did : Text → Text → Action Json
  deactivate_did did reason = do
    api_post env c (text "/v1/dids/" ++ quote did ++ text "/deactivate")
        (some (obj (dict ((text "reason", str reason) ∷ []))))
    lift (ok (obj (dict ((text "did", str did) ∷ (text "deactivated", bool true) ∷ []))))
