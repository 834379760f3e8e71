-- ===== src/Tools/Filter.antt =====
-- Which tools an agent is left with.
use helix_sdk_py.Base.{
  All, All-weaken, Bool, Bool-cases, List, [], any, ap, arith, inl, inr, keep, map, none, not, refl,
  some, true, ◌||◌, ◌∙◌, ◌∷◌, ◌≡◌, ◌⊎◌,
}
use helix_sdk_py.Client.{HelixClient}
use helix_sdk_py.Client.Credentials.{list_vcs}
use helix_sdk_py.Errors.{filtered, filtered-keep, ok}
use helix_sdk_py.Errors.Mapping.{get_or_default}
use helix_sdk_py.Http.{Env, Log}
use helix_sdk_py.Json.{Items, Json, Members, arr, cons, get, null, obj, str, texts, truthy}
use helix_sdk_py.Json.Compare.{json_eq}
use helix_sdk_py.Text.{Text, nonempty, text, text_eq}
use helix_sdk_py.Tools.{
  Tool, active_scopes, contains_value, filter_crewai_tools_by_scope, filter_tools_by_scope,
  first_vc, get_agent_scopes, is_granted, langchain_scope, value_in,
}
use helix_sdk_py.Tools.Context.{Wrapping, wrapped}

-- The text that a required scope is, and an empty one for a tool without.
abbrev pub asked : Json → Text
asked v = elim v [ str s ↦ s | _ ↦ [] ]

-- A required scope that is a text or None.
abbrev pub IsScope : Json → Type 0
IsScope v = (v ≡ str (asked v)) ⊎ (v ≡ null)

-- A tool may be used if it asks for no scope, or the agent has its scope or its name.
abbrev pub may_use : List Text → (Tool → Json) → Tool → Bool
may_use granted scope tool =
    not (nonempty (asked (scope tool)))
    || (any (λ s. text_eq s (asked (scope tool))) granted || any (λ s. text_eq s tool.name) granted)

value_in-texts :
    (s : Text) (granted : List Text)
    → value_in (str s) (texts granted) ≡ any (λ t. text_eq t s) granted
unfolding json_eq texts
value_in-texts s [] = refl
value_in-texts s (t ∷ granted) = ground (arith, value_in-texts s granted)

is_granted-text :
    (granted : List Text) (tool : Tool) (s : Text)
    → is_granted (arr (texts granted)) tool (str s)
      ≡ ok (
          not (nonempty s)
          || (any (λ t. text_eq t s) granted || any (λ t. text_eq t tool.name) granted))
unfolding is_granted contains_value truthy
is_granted-text granted tool s =
    ground (arith, value_in-texts s granted, value_in-texts tool.name granted)

is_granted-may_use :
    (granted : List Text) (scope : Tool → Json) (tool : Tool)
    → IsScope (scope tool)
    → is_granted (arr (texts granted)) tool (scope tool) ≡ ok (may_use granted scope tool)
unfolding is_granted truthy
is_granted-may_use granted scope tool h = elim h [
  | inr nothing ↦ rw nothing refl
  | inl a_text ↦
      ap (is_granted (arr (texts granted)) tool) a_text
      ∙ is_granted-text granted tool (asked (scope tool))
]

filtered-may_use :
    (granted : List Text) (scope : Tool → Json) (tools : List Tool)
    → All (λ tool. IsScope (scope tool)) tools
    → filtered (λ tool. is_granted (arr (texts granted)) tool (scope tool)) tools
      ≡ ok (keep (may_use granted scope) tools)
filtered-may_use granted scope tools h =
    filtered-keep (λ tool. is_granted (arr (texts granted)) tool (scope tool))
      (may_use granted scope) tools (All-weaken _ _ (is_granted-may_use granted scope) tools h)

active_scopes-first :
    (vc : Members) (more : Items) (scopes : Json)
    → get (text "scopes") vc ≡ some scopes
    → active_scopes (arr (cons (obj vc) more)) ≡ ok scopes
unfolding active_scopes first_vc truthy
active_scopes-first vc more scopes found = rw (get_or_default, found) refl

get_agent_scopes-first :
    (env : Env) (c : HelixClient) (agent_did : Text) (vc : Members) (more : Items) (scopes : Json)
    (log log' : Log)
    → list_vcs env c (some agent_did) (some (text "active")) none log
      ≡ (ok (arr (cons (obj vc) more)), log')
    → get (text "scopes") vc ≡ some scopes
    → get_agent_scopes env c agent_did log ≡ (ok scopes, log')
unfolding get_agent_scopes
get_agent_scopes-first env c agent_did vc more scopes log log' listed found =
    rw (get_agent_scopes, listed, active_scopes-first vc more scopes found) refl

module _ (env : Env) (tools : List Tool) (c : HelixClient) (agent_did : Text) (vc : Members)
    (more : Items) (granted : List Text) (log log' : Log) where
  -- If the first active credential that the API lists for the agent has a list of texts as its
  -- scopes, and what each tool asks for is a text or None, both filters keep, in order, exactly the
  -- tools that ask for nothing and those whose scope or name is among these scopes. `langchain_scope`
  -- reads the tool's metadata, and CrewAI's filter only the attribute.
  pub filters-may_use :
      list_vcs env c (some agent_did) (some (text "active")) none log
        ≡ (ok (arr (cons (obj vc) more)), log')
      → get (text "scopes") vc ≡ some (arr (texts granted))
      → All (λ tool. IsScope (langchain_scope tool)) tools
      → All (λ tool. IsScope (tool.attribute (text "required_scope"))) tools
      → (filter_tools_by_scope env tools c agent_did log
          ≡ (ok (keep (may_use granted langchain_scope) tools), log'))
        × (filter_crewai_tools_by_scope env tools c agent_did log ≡ (
          ok (keep (may_use granted (λ tool. tool.attribute (text "required_scope"))) tools),
          log',
        ))
  unfolding filter_tools_by_scope filter_crewai_tools_by_scope
  filters-may_use listed found asks asks' = (
    rw
        (
          filter_tools_by_scope,
          get_agent_scopes-first env c agent_did vc more _ log log' listed found,
          filtered-may_use granted langchain_scope tools asks,
        )
        refl,
    rw
        (
          filter_crewai_tools_by_scope,
          get_agent_scopes-first env c agent_did vc more _ log log' listed found,
          filtered-may_use granted (λ tool. tool.attribute (text "required_scope")) tools asks',
        )
        refl,
  )

wrapped-attribute :
    (base_attribute : Text → Json) (env : Env) (w : Wrapping)
    → (wrapped base_attribute env w).attribute ≡ base_attribute
unfolding wrapped
wrapped-attribute base_attribute env w = elim (Bool-cases w.by_crewai) [
  | inl crewai ↦ rw (wrapped, crewai) refl
  | inr langchain ↦ rw (wrapped, langchain) refl
]

is_granted-bare :
    (scopes : Json) (tool : Tool)
    → tool.attribute (text "metadata") ≡ null
    → tool.attribute (text "required_scope") ≡ null
    → is_granted scopes tool (langchain_scope tool) ≡ ok true
unfolding is_granted langchain_scope truthy
is_granted-bare scopes tool h k = rw (langchain_scope, h, k) refl

filtered-wrapped :
    (base_attribute : Text → Json) (env : Env) (scopes : Json) (ws : List Wrapping)
    → base_attribute (text "metadata") ≡ null
    → base_attribute (text "required_scope") ≡ null
    → filtered
        (λ tool. is_granted scopes tool (langchain_scope tool))
        (map (wrapped base_attribute env) ws)
      ≡ ok (map (wrapped base_attribute env) ws)
unfolding filtered
filtered-wrapped base_attribute env scopes [] h k = refl
filtered-wrapped base_attribute env scopes (w ∷ ws) h k =
    let same : (wrapped base_attribute env w).attribute ≡ base_attribute =
      wrapped-attribute base_attribute env w in
    rw
      (
        filtered,
        is_granted-bare scopes (wrapped base_attribute env w)
            (ap (λ f. f (text "metadata")) same ∙ h) (ap (λ f. f (text "required_scope")) same ∙ k),
        filtered-wrapped base_attribute env scopes ws h k,
      )
      refl

-- A wrapped tool does not keep what its tool asks for: if a new `BaseTool` has neither metadata nor
-- a required scope, `filter_tools_by_scope` keeps every wrapped tool, whatever the agent's scopes.
pub filter_tools_by_scope-wrapped :
    (base_attribute : Text → Json) (env : Env) (ws : List Wrapping) (c : HelixClient)
    (agent_did : Text) (scopes : Json) (log log' : Log)
    → get_agent_scopes env c agent_did log ≡ (ok scopes, log')
    → base_attribute (text "metadata") ≡ null
    → base_attribute (text "required_scope") ≡ null
    → filter_tools_by_scope env (map (wrapped base_attribute env) ws) c agent_did log
      ≡ (ok (map (wrapped base_attribute env) ws), log')
unfolding filter_tools_by_scope
filter_tools_by_scope-wrapped base_attribute env ws c agent_did scopes log log' got h k =
    rw (filter_tools_by_scope, got, filtered-wrapped base_attribute env scopes ws h k) refl
