-- ===== src/Http.antt =====
-- src/helix_sdk/http_adapter.py, over a server that is an argument: what it answers may depend on
-- the requests before, and it may fail to answer.
pub mod Url
pub mod Laws
use helix_sdk_py.Base.{
  Bool, List, Option, [], false, if◌then◌else◌, leb, ltb, none, not, pos, some, ℕ, ◌&&◌, ◌++◌, ◌==◌,
  ◌∷◌,
}
use helix_sdk_py.Errors.{Exception, HelixError, Result, helix, ok, raised}
use helix_sdk_py.Errors.Mapping.{map_api_error}
use helix_sdk_py.Json.{Json, Members, end, int, obj, put}
use helix_sdk_py.Text.{Text, drop_last, ends_with, nonempty, starts_with, text}

pub record Request : Type 0 where
  pub method : Text
  pub url : Text
  pub json : Option Json
  pub headers : List (Text × Text)
  pub timeout : ℕ

-- `body` is what `response.json()` returns, and `none` stands for its ValueError.
pub record Response : Type 0 where
  pub status_code : ℕ
  pub body : Option Json

-- The requests so far, the last one first.
abbrev pub Log : Type 0
Log = List Request

-- `requests.request`: the response, or an exception of the transport.
abbrev pub Server : Type 0
Server = Log → Request → Result Response

-- A call that may send requests and may raise.
abbrev pub Action {ℓ} : Type ℓ → Type ℓ
Action A = Log → Result A × Log

module _ {ℓ} {A : Type ℓ} where
  abbrev pub lift : Result A → Action A
  lift r log = (r, log)

  abbrev pub pure : A → Action A
  pure a log = (ok a, log)

  abbrev pub raise : Exception → Action A
  raise e log = (raised e, log)

abbrev pub continue {ℓ κ} : {A : Type ℓ} {B : Type κ} → (A → Action B) → Result A → Action B
continue f (ok a) log = f a log
continue f (raised e) log = (raised e, log)

infixl 5 ◌>>=◌ ◌>>◌
abbrev pub ◌>>=◌ {ℓ κ} : {A : Type ℓ} {B : Type κ} → Action A → (A → Action B) → Action B
◌>>=◌ m f log = continue f (m log).0 (m log).1

abbrev pub ◌>>◌ {ℓ κ} : {A : Type ℓ} {B : Type κ} → Action A → Action B → Action B
m >> k = m >>= λ _. k

pub record HttpAdapter : Type 0 where
  pub base_url : Text
  pub admin_api_key : Option Text
  pub api_key : Option Text
  pub timeout : ℕ

-- `url[:-1] if url.endswith("/") else url`
unfoldable pub without_slash : Text → Text
unfolding ends_with drop_last
without_slash url = if ends_with url b'/' then drop_last url else url

-- `HttpAdapter.__init__`; the timeout is in whole seconds.
unfoldable pub http_adapter : Text → Option Text → Option Text → ℕ → HttpAdapter
unfolding without_slash
http_adapter base_url admin_api_key api_key timeout = record {
  base_url = without_slash base_url;
  admin_api_key = admin_api_key;
  api_key = api_key;
  timeout = timeout;
}

-- `bool(key)` of an optional `str`.
abbrev pub is_set : Option Text → Bool
is_set none = false
is_set (some s) = nonempty s

unfoldable pub has_admin_api_key : HttpAdapter → Bool
has_admin_api_key a = is_set a.admin_api_key

unfoldable pub has_api_key : HttpAdapter → Bool
has_api_key a = is_set a.api_key

abbrev text_of : Option Text → Text
text_of none = []
text_of (some s) = s

content_headers : Option Json → List (Text × Text)
content_headers none = []
content_headers (some body) = (text "content-type", text "application/json") ∷ []

-- One credential for each client: the account key, else the admin key, else none.
unfoldable pub auth_headers : HttpAdapter → List (Text × Text)
auth_headers a =
    if is_set a.api_key
    then (text "authorization", text "Bearer " ++ text_of a.api_key) ∷ []
    else if is_set a.admin_api_key
    then (text "x-admin-api-key", text_of a.admin_api_key) ∷ []
    else []

unfoldable pub build_request : HttpAdapter → Text → Text → Option Json → Request
unfolding content_headers auth_headers starts_with
build_request a method path body = record {
  method = method;
  url = if starts_with path (text "http") then path else a.base_url ++ path;
  json = body;
  headers = content_headers body ++ auth_headers a;
  timeout = a.timeout;
}

-- `response.ok` of `requests`: no status of a client or server error.
abbrev pub is_ok : ℕ → Bool
is_ok status = not (leb 400 status && ltb status 600)

-- `data if isinstance(data, dict) else {}`, where `data` is `{}` if there is no JSON.
abbrev pub dict_of : Option Json → Members
dict_of (some (obj ms)) = ms
dict_of _ = end

abbrev raise_error {ℓ} : {A : Type ℓ} → Result HelixError → Result A
raise_error (ok e) = raised (helix e)
raise_error (raised e) = raised e

-- What `_request` makes of a response.
unfoldable pub read_response : (Json → Text) → Response → Result Json
read_response show r =
    if r.status_code == 204
    then ok (obj end)
    else if is_ok r.status_code
    then ok (elim r.body [ none ↦ obj end | some v ↦ v ])
    else raise_error
        (map_api_error show (obj (put (text "status") (int (pos r.status_code)) (dict_of r.body))))

-- The environment of a call: the server, and `str()` of a value.
pub record Env : Type 0 where
  pub server : Server
  pub show : Json → Text

-- `requests.request(…)`
abbrev pub send : Env → Request → Action Response
send env r log = (env.server log r, r ∷ log)

unfoldable pub request : Env → HttpAdapter → Text → Text → Option Json → Action Json
unfolding build_request read_response
request env a method path body =
    send env (build_request a method path body) >>= (λ r. lift (read_response env.show r))

unfoldable pub http_get : Env → HttpAdapter → Text → Action Json
unfolding request
http_get env a path = request env a (text "GET") path none

unfoldable pub http_post : Env → HttpAdapter → Text → Option Json → Action Json
unfolding request
http_post env a path body = request env a (text "POST") path body

unfoldable pub http_delete : Env → HttpAdapter → Text → Action Json
unfolding request
http_delete env a path = request env a (text "DELETE") path none
