-- ===== src/Session/Claims.antt =====
-- `_assert_claims`, and the test of the expiry.
use helix_sdk_py.Base.{
  Bool, Bool-cases, Option, ap, false, if◌then◌else◌, inl, inr, leb, not, pos, refl, some, subst,
  true, ℕ, ◌&&◌, ◌≡◌,
}
use helix_sdk_py.Errors.{Result, builtin, ok, raised}
use helix_sdk_py.Json.{Items, Json, Members, arr, bool, cons, get, int, nil, null, obj, str}
use helix_sdk_py.Text.{Text, nonempty, text}

abbrev wrong {ℓ} : {A : Type ℓ} → Text → Result A
wrong message = raised (builtin (text "ValueError") message)

-- `isinstance(v, str) and v`
abbrev pub is_full_text : Option Json → Bool
is_full_text (some (str s)) = nonempty s
is_full_text _ = false

abbrev pub is_str : Option Json → Bool
is_str (some (str s)) = true
is_str _ = false

-- `isinstance(v, int)`, which a bool is too.
abbrev pub is_int : Option Json → Bool
is_int (some (int n)) = true
is_int (some (bool b)) = true
is_int _ = false

unfoldable pub all_str : Items → Bool
all_str nil = true
all_str (cons (str s) vs) = all_str vs
all_str (cons _ vs) = false

unfoldable pub is_str_list : Option Json → Bool
unfolding all_str
is_str_list (some (arr vs)) = all_str vs
is_str_list _ = false

unfoldable pub is_link : Json → Bool
unfolding get is_str_list
is_link (obj link) =
    is_str (get (text "issuer") link)
    && (is_str (get (text "subject") link)
        && (is_str (get (text "vcId") link)
            && (is_str_list (get (text "scopes") link)
                && is_int (get (text "delegationDepth") link))))
is_link _ = false

unfoldable pub all_links : Items → Bool
unfolding is_link
all_links nil = true
all_links (cons v vs) = is_link v && all_links vs

unfoldable pub is_chain : Option Json → Bool
unfolding all_links
is_chain (some (arr vs)) = all_links vs
is_chain _ = false

unfoldable pub assert_claims : Json → Result Members
assert_claims (obj claims) =
    if not (is_full_text (get (text "agentDid") claims))
    then wrong (text "JWT payload is missing agentDid")
    else if not (is_str_list (get (text "scopes") claims))
    then wrong (text "JWT payload has invalid scopes")
    else if not (is_chain (get (text "delegationChain") claims))
    then wrong (text "JWT payload has invalid delegationChain")
    else if not (is_full_text (get (text "jti") claims))
    then wrong (text "JWT payload is missing jti")
    else if not (is_int (get (text "iat") claims) && is_int (get (text "exp") claims))
    then wrong (text "JWT payload has invalid iat/exp")
    else ok claims
assert_claims _ = wrong (text "JWT payload is invalid")

-- `exp <= now`; `False` and `True` count as 0 and 1.
unfoldable pub is_past : ℕ → Option Json → Bool
is_past now (some (int (pos n))) = leb n now
is_past now (some (bool true)) = leb 1 now
is_past now _ = true

unfoldable pub check_expiry : ℕ → Members → Result Members
check_expiry now claims =
    if is_past now (get (text "exp") claims) then wrong (text "JWT has expired") else ok claims

-- What the claims of a verified session have.
pub record AreClaims (claims : Members) : Type 0 where
  pub agent : is_full_text (get (text "agentDid") claims) ≡ true
  pub scopes : is_str_list (get (text "scopes") claims) ≡ true
  pub chain : is_chain (get (text "delegationChain") claims) ≡ true
  pub jti : is_full_text (get (text "jti") claims) ≡ true
  pub times : (is_int (get (text "iat") claims) && is_int (get (text "exp") claims)) ≡ true

guarded :
    {A : Type 0} (test : Bool) (message : Text) (r : Result A) {a : A}
    → (if not test then wrong message else r) ≡ ok a
    → (test ≡ true) × (r ≡ ok a)
guarded true message r e = (refl, e)
guarded false message r e = absurd (cc e)

dict_claims :
    (ms claims : Members) → assert_claims (obj ms) ≡ ok claims → (ms ≡ claims) × AreClaims ms
unfolding assert_claims
dict_claims ms claims e =
    let (agent, e1) = guarded (is_full_text (get (text "agentDid") ms)) _ _ e in
    let (scopes, e2) = guarded (is_str_list (get (text "scopes") ms)) _ _ e1 in
    let (chain, e3) = guarded (is_chain (get (text "delegationChain") ms)) _ _ e2 in
    let (jti, e4) = guarded (is_full_text (get (text "jti") ms)) _ _ e3 in
    let (times, e5) =
      guarded (is_int (get (text "iat") ms) && is_int (get (text "exp") ms)) _ _ e4 in
    (cc e5, record { agent = agent; scopes = scopes; chain = chain; jti = jti; times = times })

pub assert_claims-AreClaims :
    (v : Json) (claims : Members)
    → assert_claims v ≡ ok claims
    → (v ≡ obj claims) × AreClaims claims
unfolding assert_claims
assert_claims-AreClaims (obj ms) claims e =
    let (same, h) = dict_claims ms claims e in (ap obj same, subst AreClaims same h)
assert_claims-AreClaims null claims e = absurd (cc e)
assert_claims-AreClaims (bool b) claims e = absurd (cc e)
assert_claims-AreClaims (int n) claims e = absurd (cc e)
assert_claims-AreClaims (str s) claims e = absurd (cc e)
assert_claims-AreClaims (arr vs) claims e = absurd (cc e)

-- The claims pass if they have all of that.
pub assert_claims_lem : (ms : Members) → AreClaims ms → assert_claims (obj ms) ≡ ok ms
unfolding assert_claims
assert_claims_lem ms h = rw (h.agent, h.scopes, h.chain, h.jti, h.times)

pub check_expiry-ok :
    (now : ℕ) (claims found : Members)
    → check_expiry now claims ≡ ok found
    → (claims ≡ found) × (is_past now (get (text "exp") claims) ≡ false)
unfolding check_expiry
check_expiry-ok now claims found e = elim (Bool-cases (is_past now (get (text "exp") claims))) [
  | inl past ↦ absurd (cc (rw (past, check_expiry) at e))
  | inr fresh ↦ (cc (rw (fresh, check_expiry) at e), fresh)
]
