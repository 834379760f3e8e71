-- ===== src/Proof.antt =====
-- Ed25519Signature2020 proofs: src/helix_sdk/proof.py, and the hashing and signing of
-- src/helix_sdk/vp_crypto.py. SHA-256 and Ed25519 are the fields of a `Crypto`.
pub mod Calendar
pub mod Verifies
pub mod Moments
use helix_sdk_py.Errors.{◌>>=◌}
use helix_sdk_py.Base.{
  Bool, Option, [], false, if◌then◌else◌, negsuc, none, pos, some, suc, true, ℕ, ℤ, ◌%◌, ◌*◌, ◌++◌,
  ◌+◌, ◌/◌, ◌==◌, ◌∷◌,
}
use helix_sdk_py.Base58.{base58btc_decode, base58btc_encode}
use helix_sdk_py.Canonical.{to_canonical_json}
use helix_sdk_py.Client.{dict}
use helix_sdk_py.Client.Dids.{created}
use helix_sdk_py.Errors.{Result, builtin, ok, raised}
use helix_sdk_py.Http.Url.{utf8_encode}
use helix_sdk_py.Json.{Json, Members, get, str}
use helix_sdk_py.Keys.{private_key_bytes}
use helix_sdk_py.Proof.Calendar.{Clock, seconds_earlier, seconds_later}
use helix_sdk_py.Text.{Bytes, Text, text}
use helix_sdk_py.Text.Decimal.{decimal}
use helix_sdk_py.Text.Hex.{from_hex, to_hex}

-- `hashlib.sha256`, and PyNaCl's `SigningKey(seed).sign`, its `verify_key`, and `VerifyKey.verify`
-- with `false` for every exception.
pub record Crypto : Type 0 where
  pub sha256 : Bytes → Bytes
  pub sign : Bytes → Bytes → Bytes
  pub public_key : Bytes → Bytes
  pub verify : Bytes → Bytes → Bytes → Bool

-- `datetime.datetime`: `utc_offset` is that of its `tzinfo`, in whole seconds east of UTC; none for a
-- time without one.
pub record DateTime : Type 0 where
  pub year : ℕ
  pub month : ℕ
  pub day : ℕ
  pub hour : ℕ
  pub minute : ℕ
  pub second : ℕ
  pub microsecond : ℕ
  pub utc_offset : Option ℤ

two_digits : ℕ → Text
two_digits n = (48 + n / 10 % 10) ∷ (48 + n % 10) ∷ []

three_digits : ℕ → Text
unfolding two_digits
three_digits n = (48 + n / 100 % 10) ∷ two_digits n

abbrev pub clock_of : DateTime → Clock
clock_of t = ((t.year, t.month, t.day), t.hour * 3600 + t.minute * 60 + t.second)

abbrev pub at_clock : Clock → Option ℤ → DateTime → DateTime
at_clock ((year, month, day), s) utc_offset t = record {
  year = year;
  month = month;
  day = day;
  hour = s / 3600;
  minute = s / 60 % 60;
  second = s % 60;
  microsecond = t.microsecond;
  utc_offset = utc_offset;
}

abbrev utc_clock : ℤ → Clock → Clock
utc_clock (pos n) c = seconds_earlier n c
utc_clock (negsuc n) c = seconds_later (suc n) c

-- A time without a `tzinfo` is one in UTC, and any other is converted: `dt.astimezone(timezone.utc)`.
unfoldable pub to_utc : DateTime → DateTime
unfolding seconds_earlier seconds_later
to_utc t = elim t.utc_offset [
  | none ↦ record t { utc_offset = some (pos 0) }
  | some o ↦ at_clock (utc_clock o (clock_of t)) (some (pos 0)) t
]

-- `strftime`, for years of four digits, and the milliseconds.
unfoldable pub iso_text : DateTime → Text
unfolding two_digits three_digits decimal
iso_text t =
    decimal t.year
    ++ b'-' ∷ two_digits t.month
    ++ b'-' ∷ two_digits t.day
    ++ b'T' ∷ two_digits t.hour
    ++ b':' ∷ two_digits t.minute
    ++ b':' ∷ two_digits t.second
    ++ b'.' ∷ three_digits (t.microsecond / 1000)
    ++ b'Z' ∷ []

-- `_to_iso_z`
unfoldable pub to_iso_z : DateTime → Text
unfolding to_utc iso_text
to_iso_z t = iso_text (to_utc t)

abbrev pub value_error {ℓ} : {A : Type ℓ} → Result A
value_error = raised (builtin (text "ValueError") [])

module _ (crypto : Crypto) where
  open crypto use {sha256, sign, public_key, verify}

  unfoldable pub hash_canonical_payload : Json → Bytes
  hash_canonical_payload payload = sha256 (utf8_encode (to_canonical_json payload))

  -- `sign_bytes`; a key that is no supported hex raises ValueError.
  unfoldable pub sign_bytes : Bytes → Text → Result Text
  sign_bytes hash_bytes private_key_hex = elim (private_key_bytes private_key_hex) [
    | none ↦ value_error
    | some seed ↦ ok (to_hex (sign seed hash_bytes))
  ]

  -- `verify_signature`: every failure is `False`.
  unfoldable pub verify_signature : Bytes → Text → Text → Bool
  verify_signature hash_bytes signature_hex public_key_hex = elim (from_hex public_key_hex) [
    | none ↦ false
    | some key ↦ elim (from_hex signature_hex) [
      | none ↦ false
      | some signature ↦ verify key hash_bytes signature
    ]
  ]

  -- The dict of a proof.
  abbrev pub proof_block : Text → Text → Text → Members
  proof_block created verification_method proof_value = dict (
      (text "type", str (text "Ed25519Signature2020"))
      ∷ (text "created", str created)
      ∷ (text "verificationMethod", str verification_method)
      ∷ (text "proofPurpose", str (text "assertionMethod"))
      ∷ (text "proofValue", str proof_value)
      ∷ [])

  -- The proof around a signature; `bytes.fromhex` reads the hex that `sign_bytes` wrote.
  unfoldable pub proof_from : DateTime → Text → Text → Result Members
  proof_from created verification_method signature_hex = elim (from_hex signature_hex) [
    | none ↦ value_error
    | some signature ↦
        ok (proof_block (to_iso_z created) verification_method (base58btc_encode signature))
  ]

  -- `created_at` is the caller's, or the clock's.
  unfoldable pub create_ed25519_proof : Json → Text → Text → DateTime → Result Members
  create_ed25519_proof payload private_key_hex verification_method created =
      sign_bytes (hash_canonical_payload payload) private_key_hex
      >>= proof_from created verification_method

  -- The inner `verify_proof_value`.
  unfoldable pub verify_proof_value : Json → Text → Text → Bool
  verify_proof_value payload public_key_hex proof_value = elim (base58btc_decode proof_value) [
    | none ↦ false
    | some decoded ↦
        verify_signature (hash_canonical_payload payload) (to_hex decoded) public_key_hex
  ]

  -- `verify_ed25519_proof` on the value of the proof: a `z` in front of it may be multibase.
  unfoldable pub verify_value : Json → Text → Text → Bool
  verify_value payload public_key_hex [] = verify_proof_value payload public_key_hex []
  verify_value payload public_key_hex (c ∷ s) =
      if verify_proof_value payload public_key_hex (c ∷ s)
      then true
      else if c == b'z'
      then verify_proof_value payload public_key_hex s
      else false

  -- `proof.get("proofValue", "")`; a value that is no text raises TypeError.
  unfoldable pub verify_ed25519_proof : Json → Members → Text → Result Bool
  verify_ed25519_proof payload proof public_key_hex = elim (get (text "proofValue") proof) [
    | none ↦ ok (verify_value payload public_key_hex [])
    | some (str proof_value) ↦ ok (verify_value payload public_key_hex proof_value)
    | some _ ↦ raised (builtin (text "TypeError") [])
  ]
