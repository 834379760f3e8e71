-- ===== src/Tests/Signing.antt =====
-- Proofs and presentations by the toy scheme.
use helix_sdk_py.Base.{[], all, any, arith, none, pos, refl, some, true, ◌||◌, ◌↔◌, ◌∷◌, ◌≡◌}
use helix_sdk_py.Canonical.Reorder.{unchanged}
use helix_sdk_py.Errors.{ok}
use helix_sdk_py.Json.{Members, arr, end, get, item_in, member, obj, texts}
use helix_sdk_py.Proof.{DateTime, create_ed25519_proof, proof_block, to_iso_z, verify_ed25519_proof}
use helix_sdk_py.Proof.Calendar.{
  IsDate, days_in_month, is_leap, next_day, previous_day, seconds_later,
}
use helix_sdk_py.Proof.Moments.{IsTime, fields, in_zone, to_iso_z-le}
use helix_sdk_py.Proof.Verifies.{verify_ed25519_proof-create}
use helix_sdk_py.Tests.{
  agent_credential, credential_of, grant_credential, moment, private_key, private_key_lem,
  seed_octets, toy_crypto, toy_crypto-IsSound,
}
use helix_sdk_py.Text.{Text, text, text_eq}
use helix_sdk_py.Text.Hex.{to_hex}
use helix_sdk_py.Text.Order.{text_le}
use helix_sdk_py.VpBuilder.{
  SignOverrides, Surroundings, VpBuilder, check_credentials, has_type, is_agent_authority_type,
  is_grant_type, sign_presentation, vp_payload,
}
use helix_sdk_py.VpBuilder.Accepts.{check_credentials-both, check_credentials_iff}
use helix_sdk_py.VpBuilder.Signed.{sign_presentation-verifies, without}

abbrev builder : VpBuilder
builder = record {
  credentials = agent_credential ∷ [];
  holder_did = text "did:helix:agent";
  target_service = text "did:helix:service";
  user_did = none;
}

abbrev no_overrides : SignOverrides
no_overrides = record { id = none; nonce = none; expires_at = none; proof_created_at = none }

abbrev surroundings : Surroundings
surroundings = record {
  uuid = text "4f";
  random = 1 ∷ 2 ∷ [];
  in_five_minutes = moment;
  now = moment;
}

abbrev key_id : Text
key_id = text "did:helix:agent#key-1"

verify_ed25519_proof-create_example :
    (value : Text) × (create_ed25519_proof toy_crypto
        (obj agent_credential)
        private_key
        key_id
        moment
      ≡ ok (proof_block toy_crypto (to_iso_z moment) key_id value))
    × (verify_ed25519_proof toy_crypto
          (obj agent_credential)
          (proof_block toy_crypto (to_iso_z moment) key_id value)
          (to_hex (toy_crypto.public_key seed_octets))
        ≡ ok true)
    × (verify_ed25519_proof toy_crypto
          (obj agent_credential)
          (proof_block toy_crypto (to_iso_z moment) key_id (b'z' ∷ value))
          (to_hex (toy_crypto.public_key seed_octets))
        ≡ ok true)
verify_ed25519_proof-create_example =
    verify_ed25519_proof-create toy_crypto toy_crypto-IsSound (obj agent_credential)
      (obj agent_credential) private_key key_id moment seed_octets private_key_lem
      (unchanged (obj agent_credential))

check_credentials_iff_example :
    (check_credentials (agent_credential ∷ grant_credential ∷ []) ≡ ok tt) ↔ (
      (any is_agent_authority_type (agent_credential ∷ grant_credential ∷ []) ≡ true)
      × (all
            (λ vc. is_agent_authority_type vc || is_grant_type vc)
            (agent_credential ∷ grant_credential ∷ [])
          ≡ true))
unfolding is_agent_authority_type is_grant_type has_type get item_in text_eq texts
check_credentials_iff_example =
    check_credentials_iff (agent_credential ∷ grant_credential ∷ []) refl

abbrev both_credential : Members
both_credential =
    member (text "type")
      (arr (texts (text "HelixAgentCredential" ∷ text "DelegationGrantCredential" ∷ []))) end

check_credentials-both_example :
    check_credentials (both_credential ∷ credential_of (text "Other") ∷ []) ≡ ok tt
unfolding is_agent_authority_type is_grant_type has_type get item_in text_eq texts
check_credentials-both_example =
    check_credentials-both both_credential (credential_of (text "Other")) refl refl refl refl

sign_presentation-verifies_example :
    (signed proof : Members) × (sign_presentation toy_crypto builder private_key key_id no_overrides
        surroundings
      ≡ ok signed)
    × (get (text "proof") signed ≡ some (obj proof))
    × (without (text "proof") signed ≡ vp_payload builder no_overrides surroundings)
    × (verify_ed25519_proof toy_crypto
          (obj (without (text "proof") signed))
          proof
          (to_hex (toy_crypto.public_key seed_octets))
        ≡ ok true)
sign_presentation-verifies_example =
    sign_presentation-verifies toy_crypto toy_crypto-IsSound builder private_key key_id no_overrides
      surroundings seed_octets private_key_lem

abbrev a_second_later : DateTime
a_second_later = record moment { second = 10; microsecond = 0 }

moment-IsDate : IsDate 2025 6 30
unfolding days_in_month
moment-IsDate = record {
  month_from = omega arith;
  month = omega arith;
  day_from = omega arith;
  day = omega arith;
}

moment-IsTime : IsTime moment
moment-IsTime = record {
  year_from = omega arith;
  year = omega arith;
  date = moment-IsDate;
  hour = omega arith;
  minute = omega arith;
  second = omega arith;
  microsecond = omega arith;
}

a_second_later-IsTime : IsTime a_second_later
a_second_later-IsTime = record {
  year_from = omega arith;
  year = omega arith;
  date = moment-IsDate;
  hour = omega arith;
  minute = omega arith;
  second = omega arith;
  microsecond = omega arith;
}

-- The first reads as half past midnight, a day later, in a zone east of UTC.
to_iso_z-le_example :
    text_le (to_iso_z (in_zone (some (pos 44700)) moment)) (to_iso_z (in_zone none a_second_later))
    ≡ text_le (fields moment) (fields a_second_later)
to_iso_z-le_example =
    to_iso_z-le (some (pos 44700)) none moment a_second_later (omega arith) tt moment-IsTime
      a_second_later-IsTime

east_text :
    in_zone (some (pos 44700)) moment
    ≡ record moment { month = 7; day = 1; hour = 0; minute = 30; utc_offset = some (pos 44700) }
unfolding in_zone seconds_later next_day days_in_month
east_text = refl

leap_days :
    (previous_day (2024, 3, 1) ≡ (2024, 2, 29))
    × (next_day (1900, 2, 28) ≡ (1900, 3, 1))
    × (next_day (2000, 2, 28) ≡ (2000, 2, 29))
    × (previous_day (2026, 1, 1) ≡ (2025, 12, 31))
unfolding previous_day next_day days_in_month is_leap
leap_days = (refl, refl, refl, refl)
