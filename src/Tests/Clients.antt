-- ===== src/Tests/Clients.antt =====
-- Clients, their requests and their calls.
use helix_sdk_py.Base.{Option, [], arith, false, none, refl, some, true, ◌++◌, ◌↔◌, ◌∷◌, ◌≡◌}
use helix_sdk_py.Client.{helix_client, http_required, resolve_base_url, sdk_only}
use helix_sdk_py.Client.Calls.{get_vc_call, perform}
use helix_sdk_py.Client.Dids.{remove_service_endpoint}
use helix_sdk_py.Client.Modes.{helix_client-mode, perform-offline}
use helix_sdk_py.Client.Paths.{remove_service_endpoint-path}
use helix_sdk_py.Client.Sends.{Sends, perform-Sends}
use helix_sdk_py.Errors.{raised}
use helix_sdk_py.Http.{build_request, http_adapter, is_set}
use helix_sdk_py.Http.Url.{utf8_encode}
use helix_sdk_py.Http.Url.Segment.{IsSegment, unquote}
use helix_sdk_py.Json.{null}
use helix_sdk_py.Tests.{answering, api_client, offline_client}
use helix_sdk_py.Text.{Text, text}

helix_client-mode_example :
    ((helix_client none (some (text "admin")) none).sdk_only_mode ≡ true)
    ↔ (◌≡◌ {A = Option Text} none none × (is_set none ≡ false))
helix_client-mode_example = helix_client-mode none (some (text "admin")) none

perform-offline_example :
    perform (answering 200 null) offline_client (get_vc_call (text "vc:1")) []
    ≡ (raised sdk_only, [])
unfolding helix_client resolve_base_url
perform-offline_example =
    perform-offline (answering 200 null) offline_client refl [] (get_vc_call (text "vc:1"))

perform-Sends_example :
    Sends api_client [] (perform (answering 200 null) api_client (get_vc_call (text "vc:1")) []).1
perform-Sends_example = perform-Sends (answering 200 null) api_client [] (get_vc_call (text "vc:1"))

remove_service_endpoint-path_example :
    (d e : Text) × ((remove_service_endpoint
        (answering 200 null)
        api_client
        (text "did:1")
        (text "a/b")
        []).1
      ≡ build_request
          (http_adapter (text "https://api.test/") (some (text "admin")) none 30)
          (text "DELETE")
          (text "/v1/dids/" ++ d ++ text "/services/" ++ e)
          none
        ∷ [])
    × (IsSegment d × (unquote d ≡ utf8_encode (text "did:1")))
    × (IsSegment e × (unquote e ≡ utf8_encode (text "a/b")))
unfolding http_required helix_client resolve_base_url
remove_service_endpoint-path_example =
    remove_service_endpoint-path (answering 200 null) api_client
      (http_adapter (text "https://api.test/") (some (text "admin")) none 30) (text "did:1")
      (text "a/b") [] refl (ground arith) (ground arith)
