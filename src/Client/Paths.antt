-- ===== src/Client/Paths.antt =====
-- Identifiers in the paths of requests.
use helix_sdk_py.Base.{All, none, ◌++◌, ◌<◌, ◌∙◌, ◌∷◌, ◌≡◌}
use helix_sdk_py.Client.{HelixClient, api_delete, http_required}
use helix_sdk_py.Client.Dids.{remove_service_endpoint}
use helix_sdk_py.Errors.{ok}
use helix_sdk_py.Http.{Env, HttpAdapter, Log, build_request, http_delete}
use helix_sdk_py.Http.Laws.{lift-log, request-log}
use helix_sdk_py.Http.Url.{quote, utf8_encode}
use helix_sdk_py.Http.Url.Segment.{IsSegment, quote-IsSegment, unquote}
use helix_sdk_py.Text.{Text, text}

-- With an adapter, `remove_service_endpoint` deletes at a path with two segments, one for each
-- identifier: no character of either ends its segment, and percent-decoding gives its UTF-8.
pub remove_service_endpoint-path :
    (env : Env) (c : HelixClient) (a : HttpAdapter) (did endpoint_id : Text) (log : Log)
    → http_required c ≡ ok a
    → All (λ k. k < 0x110000) did
    → All (λ k. k < 0x110000) endpoint_id
    → (d e : Text) × ((remove_service_endpoint env c did endpoint_id log).1
        ≡ build_request a (text "DELETE") (text "/v1/dids/" ++ d ++ text "/services/" ++ e) none
          ∷ log)
      × (IsSegment d × (unquote d ≡ utf8_encode did))
      × (IsSegment e × (unquote e ≡ utf8_encode endpoint_id))
unfolding remove_service_endpoint api_delete http_delete
remove_service_endpoint-path env c a did endpoint_id log h p q = (
  quote did,
  quote endpoint_id,
  rw (remove_service_endpoint, api_delete, h)
      (lift-log _ _ _
        ∙ request-log env a (text "DELETE")
            (text "/v1/dids/" ++ quote did ++ text "/services/" ++ quote endpoint_id) none log),
  quote-IsSegment did p,
  quote-IsSegment endpoint_id q,
)
