-- ===== src/Http/Laws.antt =====
-- What one request carries, and what `_request` makes of each response.
use helix_sdk_py.Base.{
  List, Option, [], arith, false, if◌then◌else◌, none, pos, refl, some, true, ℕ, ◌++◌, ◌==◌, ◌∙◌,
  ◌∷◌, ◌≡◌,
}
use helix_sdk_py.Errors.{Exception, HelixError, Result, helix, ok, raised}
use helix_sdk_py.Errors.Mapping.{map_api_error}
use helix_sdk_py.Http.{
  Env, HttpAdapter, Log, Request, Response, build_request, continue, dict_of, is_ok, is_set, lift,
  raise_error, read_response, request,
}
use helix_sdk_py.Json.{Json, end, int, obj, put}
use helix_sdk_py.Text.{Text, nonempty, text, text_eq}

-- The value of a header.
unfoldable pub header : Text → List (Text × Text) → Option Text
unfolding text_eq
header k [] = none
header k ((j, v) ∷ hs) = if text_eq j k then some v else header k hs

-- The request carries the account key as a bearer token if there is one, else the admin key in its
-- own header if there is one, and never both.
pub record IsAuthorized (a : HttpAdapter) (r : Request) : Type 0 where
  pub bearer : header (text "authorization") r.headers ≡ (elim a.api_key [
    | none ↦ none
    | some key ↦ if nonempty key then some (text "Bearer " ++ key) else none
  ])
  pub admin : header (text "x-admin-api-key") r.headers ≡ (
      if is_set a.api_key then none else elim a.admin_api_key [
        | none ↦ none
        | some key ↦ if nonempty key then some key else none
      ])

-- Whatever the keys of the adapter, a request carries the account key as a bearer token if there is
-- one that is not empty, else the admin key in its own header if there is one that is not empty,
-- and never both.
pub build_request-IsAuthorized :
    (a : HttpAdapter) (method path : Text) (body : Option Json)
    → IsAuthorized a (build_request a method path body)
unfolding build_request header
build_request-IsAuthorized a method path none = ground arith
build_request-IsAuthorized a method path (some b) = ground arith

-- Without calls that send more, the log stays.
pub lift-log {ℓ κ} :
    {A : Type ℓ} {B : Type κ} (f : A → Result B) (x : Result A) (log : Log)
    → (continue (λ a. lift (f a)) x log).1 ≡ log
lift-log f (ok a) log = refl
lift-log f (raised e) log = refl

-- Whatever the server does, a request is logged once.
pub request-log :
    (env : Env) (a : HttpAdapter) (method path : Text) (body : Option Json) (log : Log)
    → (request env a method path body log).1 ≡ build_request a method path body ∷ log
unfolding request
request-log env a method path body log =
    lift-log (read_response env.show) (env.server log (build_request a method path body))
      (build_request a method path body ∷ log)

-- The response that a call returns from: its body where the status is no error and not 204.
read_response-ok :
    (show : Json → Text) (r : Response) (v : Json)
    → read_response show r ≡ ok v
    → (is_ok r.status_code ≡ true)
      × (v
          ≡ (if r.status_code == 204 then obj end else elim r.body [ none ↦ obj end | some b ↦ b ]))
unfolding read_response
read_response-ok show r v h = ground arith

not_204 : (n : ℕ) → is_ok n ≡ false → (n == 204) ≡ false
not_204 n h = ground arith

error_branch :
    (show : Json → Text) (r : Response)
    → is_ok r.status_code ≡ false
    → read_response show r
      ≡ raise_error (
          map_api_error show (obj (put (text "status") (int (pos r.status_code)) (dict_of r.body))))
unfolding read_response
error_branch show r h = rw (read_response, not_204 r.status_code h, h)

raise_error-raises {ℓ} :
    {A : Type ℓ} (x : Result HelixError) → (e : Exception) × (raise_error {A = A} x ≡ raised e)
raise_error-raises (ok e) = (helix e, refl)
raise_error-raises (raised e) = (e, refl)

-- A status from 400 to 599 always raises, whatever the body.
read_response-error :
    (show : Json → Text) (r : Response)
    → is_ok r.status_code ≡ false
    → (e : Exception) × (read_response show r ≡ raised e)
unfolding read_response
read_response-error show r h =
    let (e, same) =
      raise_error-raises {A = Json} (
        map_api_error show
          (obj (put (text "status") (int (pos r.status_code)) (dict_of r.body)))) in
    (e, error_branch show r h ∙ same)
