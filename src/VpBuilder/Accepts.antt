-- ===== src/VpBuilder/Accepts.antt =====
-- Which credentials a presentation can be built from.
use helix_sdk_py.Base.{
  List, [], all, any, arith, false, keep, length, not, refl, true, ◌&&◌, ◌+◌, ◌||◌, ◌↔◌, ◌∷◌, ◌≡◌,
  ◌≤◌,
}
use helix_sdk_py.Errors.{ok}
use helix_sdk_py.Json.{Members}
use helix_sdk_py.VpBuilder.{check_credentials, is_agent_authority_type, is_grant_type}

-- Counting the entries of two kinds that no entry has both of.
counted :
    (vcs : List Members)
    → all (λ vc. not (is_agent_authority_type vc && is_grant_type vc)) vcs ≡ true
    → (length (keep is_agent_authority_type vcs) + length (keep is_grant_type vcs) ≤ length vcs)
      × ((all (λ vc. is_agent_authority_type vc || is_grant_type vc) vcs ≡ true) ↔ (
          length (keep is_agent_authority_type vcs) + length (keep is_grant_type vcs) ≡ length vcs))
counted [] h = (omega arith, (λ e. omega arith, λ e. refl))
counted (vc ∷ vcs) h = ground (arith, counted vcs)

some_agent :
    (vcs : List Members)
    → (any is_agent_authority_type vcs ≡ true) ↔ (1 ≤ length (keep is_agent_authority_type vcs))
some_agent [] = (λ e. cc, λ e. absurd (omega arith))
some_agent (vc ∷ vcs) = ground (arith, some_agent vcs)

-- Where no credential is of both kinds, a builder is made exactly when some credential is an
-- agent's authority and every other is one too or a consent grant.
pub check_credentials_iff :
    (vcs : List Members)
    → all (λ vc. not (is_agent_authority_type vc && is_grant_type vc)) vcs ≡ true
    → (check_credentials vcs ≡ ok tt) ↔ (
        (any is_agent_authority_type vcs ≡ true)
        × (all (λ vc. is_agent_authority_type vc || is_grant_type vc) vcs ≡ true))
unfolding check_credentials
check_credentials_iff vcs h = ground (arith, counted vcs h, some_agent vcs)

-- A credential of both kinds is counted twice, and so makes room for one of neither kind.
pub check_credentials-both :
    (both neither : Members)
    → is_agent_authority_type both ≡ true
    → is_grant_type both ≡ true
    → is_agent_authority_type neither ≡ false
    → is_grant_type neither ≡ false
    → check_credentials (both ∷ neither ∷ []) ≡ ok tt
unfolding check_credentials
check_credentials-both both neither a g na ng = ground arith
