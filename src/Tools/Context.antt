-- ===== src/Tools/Context.antt =====
-- What a wrapped tool sees and leaves behind, src/helix_sdk/tool_vp.py lines 47-59 and the `_run` of
-- both wrappers.
use helix_sdk_py.Base.{
  Bool, Bool-cases, List, Option, [], ap, if◌then◌else◌, inl, inr, refl, some, ◌∙◌, ◌∷◌, ◌≡◌,
}
use helix_sdk_py.Client.{HelixClient}
use helix_sdk_py.Client.Agents.{sign_vp}
use helix_sdk_py.Errors.{Result, ok, raised}
use helix_sdk_py.Http.{Env, Log}
use helix_sdk_py.Json.{Json, Members, obj}
use helix_sdk_py.Json.Loads.{signed}
use helix_sdk_py.Mcp.{build_signed_vp}
use helix_sdk_py.Text.{Text}
use helix_sdk_py.Tools.{
  Headers, Tool, current_helix_vp_headers, delegated, helix_id_crewai_tool, helix_id_tool_wrapper,
  helix_vp_context, run_wrapped,
}
use helix_sdk_py.VpTransport.{Loads, helix_vp_headers, read_helix_vp_header}
use helix_sdk_py.VpTransport.Carries.{headers_value, read-headers, wire}

delegated-restores :
    (tool : Tool) (args : Json) (headers : Headers) (signed : Result Json × Log)
    → (delegated tool args headers signed).1 ≡ headers
unfolding helix_vp_context
delegated-restores tool args headers (ok vp, log) = refl
delegated-restores tool args headers (raised e, log) = refl

-- A tool that is wrapped by one of the wrappers.
pub record Wrapping : Type 0 where
  pub by_crewai : Bool
  pub tool : Tool
  pub client : HelixClient
  pub agent_did : Text
  pub target_service : Text
  pub user_did : Option Text

module _ (base_attribute : Text → Json) (env : Env) where
  unfoldable pub wrapped : Wrapping → Tool
  unfolding helix_id_tool_wrapper helix_id_crewai_tool
  wrapped w =
      if w.by_crewai
      then helix_id_crewai_tool base_attribute env w.tool w.client w.agent_did w.target_service
          w.user_did
      else helix_id_tool_wrapper base_attribute env w.tool w.client w.agent_did w.target_service
          w.user_did

  -- What each of these tools returns or raises on these arguments, one after the other.
  unfoldable pub run_all :
      List (Wrapping × Json) → Headers → Log → List (Result Json) × Headers × Log
  unfolding wrapped
  run_all [] headers log = ([], headers, log)
  run_all ((w, args) ∷ calls) headers log =
      let (result, headers', log') = (wrapped w).run args headers log in
      let (results, headers'', log'') = run_all calls headers' log' in
      (result ∷ results, headers'', log'')

  run-wrapped :
      (w : Wrapping) (args : Json) (headers : Headers) (log : Log)
      → (wrapped w).run args headers log
        ≡ delegated w.tool args headers
            (build_signed_vp env w.client w.agent_did w.target_service w.user_did log)
  unfolding wrapped run_wrapped
  run-wrapped w args headers log = elim (Bool-cases w.by_crewai) [
    | inl crewai ↦ rw (wrapped, crewai) refl
    | inr langchain ↦ rw (wrapped, langchain) refl
  ]

  -- Whatever wrapped tools do with the headers, send, return or raise, one after the other, and
  -- whatever the server answers, the headers are then what they were before.
  pub run_all-restores :
      (calls : List (Wrapping × Json)) (headers : Headers) (log : Log)
      → (run_all calls headers log).1 ≡ headers
  unfolding run_all
  run_all-restores [] headers log = refl
  run_all-restores ((w, args) ∷ calls) headers log =
      run_all-restores calls _ _
      ∙ ap (λ s. s.1) (run-wrapped w args headers log)
      ∙ delegated-restores w.tool args headers _

  -- If the API signs a VP that is a dict, a wrapped tool is run on its own arguments with the headers
  -- in which that VP is read back, if `json.loads` reads what `json.dumps` wrote; its result is
  -- passed on.
  pub run-carries_vp :
      (loads : Loads) (w : Wrapping) (args : Json) (vp : Members) (headers : Headers)
      (log log' : Log)
      → sign_vp env w.client w.agent_did w.target_service w.user_did log ≡ (ok (obj vp), log')
      → loads (wire (obj vp)) ≡ some (obj vp)
      → (inner : Headers) × ((wrapped w).run args headers log
          ≡ ((w.tool.run args inner log').0, headers, (w.tool.run args inner log').2))
        × (read_helix_vp_header loads (obj (headers_value inner)) ≡ ok (some vp))
        × (current_helix_vp_headers inner log' ≡ (ok inner, inner, log'))
  unfolding build_signed_vp helix_vp_context current_helix_vp_headers
  run-carries_vp loads w args vp headers log log' signed reads = (
    helix_vp_headers (obj vp),
    run-wrapped w args headers log ∙ rw (build_signed_vp, signed) refl,
    read-headers loads vp reads,
    refl,
  )
