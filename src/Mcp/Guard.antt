-- ===== src/Mcp/Guard.antt =====
-- What a tool call that passes the middleware has shown, and what happens to the others.
use helix_sdk_py.Base.{All, List, Option, [], ap, ap₂, arith, none, refl, some, true, ◌∙◌, ◌∷◌, ◌≡◌}
use helix_sdk_py.Client.Agents.{verify_vp}
use helix_sdk_py.Errors.{Result, ok, raised}
use helix_sdk_py.Errors.Mapping.{get_or_default}
use helix_sdk_py.Http.{Action, Env, Log, continue}
use helix_sdk_py.Json.{Json, Members, end, member, null, obj, truthy}
use helix_sdk_py.Mcp.{
  McpMiddlewareOptions, carried_from, carried_vp, middleware, require_scopes, require_valid,
  require_vp,
}
use helix_sdk_py.Scope.{check_scope, require_scope}
use helix_sdk_py.Text.{Text, text}
use helix_sdk_py.VpTransport.{Loads}

continue_inversion :
    {A B : Type 0} (f : A → Action B) (r : Result A) (log : Log) {b : B} {log' : Log}
    → continue f r log ≡ (ok b, log')
    → (a : A) × (r ≡ ok a) × (f a log ≡ (ok b, log'))
continue_inversion f (ok a) log e = (a, refl, e)
continue_inversion f (raised x) log e = absurd (cc (ap (λ p. p.0) e))

scope_step :
    (show : Json → Text) (result : Json) (s : Text) (ss : List Text)
    → require_scopes show result (s ∷ ss) ≡ ok tt
    → (check_scope result s ≡ ok true) × (require_scopes show result ss ≡ ok tt)
unfolding require_scopes require_scope
scope_step show result s ss e = ground arith

require_scopes-All :
    (show : Json → Text) (result : Json) (scopes : List Text)
    → require_scopes show result scopes ≡ ok tt
    → All (λ s. check_scope result s ≡ ok true) scopes
require_scopes-All show result [] e = tt
require_scopes-All show result (s ∷ ss) e =
    let (granted, rest) = scope_step show result s ss e in
    (granted, require_scopes-All show result ss rest)

-- What stands behind a call that passed: its own VP, which the server found valid, with every
-- required scope among the effective scopes that the server reported.
pub record Passed (env : Env) (loads : Loads) (o : McpMiddlewareOptions) (tool_call : Members)
    (log log' : Log) : Type 0 where
  pub vp : Members
  pub result : Json
  pub carried : carried_vp loads tool_call ≡ ok (some vp)
  pub verified :
      verify_vp env o.client (obj vp) o.expected_target_service (some o.allow_self_signed) log
      ≡ (ok result, log')
  pub answer : Members
  pub answered : result ≡ obj answer
  pub valid : truthy (get_or_default (text "valid") null answer) ≡ true
  pub scoped : All (λ s. check_scope result s ≡ ok true) o.required_scopes

valid_answer :
    (result : Json)
    → require_valid result ≡ ok tt
    → (answer : Members) × (result ≡ obj answer)
      × (truthy (get_or_default (text "valid") null answer) ≡ true)
unfolding require_valid
valid_answer (obj answer) e = (answer, refl, ground arith)
valid_answer _ e = absurd (cc e)

require_vp-given :
    (found : Option Members) (vp : Members) → require_vp found ≡ ok vp → found ≡ some vp
require_vp-given none vp e = absurd (cc e)
require_vp-given (some end) vp e = absurd (cc e)
require_vp-given (some (member k v ms)) vp e = cc

-- A tool call passes only with its own VP, found valid by the server and with every required scope,
-- and comes back unchanged.
pub middleware-Passed :
    (env : Env) (loads : Loads) (o : McpMiddlewareOptions) (tool_call returned : Members)
    (log log' : Log)
    → middleware env loads o tool_call log ≡ (ok returned, log')
    → (returned ≡ tool_call) × Passed env loads o tool_call log log'
unfolding middleware
middleware-Passed env loads o tool_call returned log log' e =
    let (found, e1, k1) = continue_inversion _ (carried_vp loads tool_call) log e in
    let (vp, e2, k2) = continue_inversion _ (require_vp found) log k1 in
    let run =
      verify_vp env o.client (obj vp) o.expected_target_service (some o.allow_self_signed) log in
    let (result, e3, k3) = continue_inversion _ run.0 run.1 k2 in
    let (_, e4, k4) = continue_inversion _ (require_valid result) run.1 k3 in
    let (_, e5, k5) =
      continue_inversion _ (require_scopes env.show result o.required_scopes) run.1 k4 in
    (
      cc,
      record {
        vp = vp;
        result = result;
        carried = e1 ∙ ap ok (require_vp-given found vp e2);
        verified = ap₂ (λ (r : Result Json) (l : Log). (r, l)) e3 (ap (λ q. q.1) k5);
        answer = (valid_answer result e4).0;
        answered = (valid_answer result e4).1;
        valid = (valid_answer result e4).2;
        scoped = require_scopes-All env.show result o.required_scopes e5;
      },
    )

-- How a call ended, but for the value that it returned.
abbrev pub ended {ℓ} : {A : Type ℓ} → Result A × Log → Result (Unit {0}) × Log
ended (ok a, log) = (ok tt, log)
ended (raised e, log) = (raised e, log)

ended-continue :
    {A B : Type 0} (f g : A → Action B) (r : Result A) (log : Log)
    → ((a : A) → ended (f a log) ≡ ended (g a log))
    → ended (continue f r log) ≡ ended (continue g r log)
ended-continue f g (ok a) log h = h a
ended-continue f g (raised e) log h = refl

carried-same :
    (loads : Loads) (t t' : Members)
    → get_or_default (text "_meta") null t ≡ get_or_default (text "_meta") null t'
    → get_or_default (text "headers") null t ≡ get_or_default (text "headers") null t'
    → carried_vp loads t ≡ carried_vp loads t'
unfolding carried_vp
carried-same loads t t' e h = ap₂ (carried_from loads) e h

-- The tool's name and arguments are never consulted: two calls with the same `_meta` and the same
-- headers end alike, with the same requests sent.
pub middleware-reads_meta_and_headers :
    (env : Env) (loads : Loads) (o : McpMiddlewareOptions) (t t' : Members) (log : Log)
    → get_or_default (text "_meta") null t ≡ get_or_default (text "_meta") null t'
    → get_or_default (text "headers") null t ≡ get_or_default (text "headers") null t'
    → ended (middleware env loads o t log) ≡ ended (middleware env loads o t' log)
unfolding middleware
middleware-reads_meta_and_headers env loads o t t' log e h =
    rw (middleware, carried-same loads t t' e h)
      (ended-continue _ _ (carried_vp loads t') log (λ f.
        ended-continue _ _ (require_vp f) log (λ vp.
          let run =
            verify_vp env o.client (obj vp) o.expected_target_service (some o.allow_self_signed)
              log in
          ended-continue _ _ run.0 run.1 (λ result.
            ended-continue _ _ (require_valid result) run.1 (λ _.
              ended-continue _ _ (require_scopes env.show result o.required_scopes) run.1
                (λ _. refl))))))
