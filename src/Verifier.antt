-- ===== src/Verifier.antt =====
-- pkg/license/envelope.go and pkg/license/verifier.go: from the bytes of a license file to an
-- authentic payload. Base64, JSON and Ed25519 are the fields of `Library`.
pub mod Authentic
pub mod Encoded
mod Tests
use grantseal.Prelude.{
  ℕ, ltb, ◌==◌, if◌then◌else◌, Bool, true, false, ◌||◌, not, Option, none, some, Bytes, length, eqb,
  is_nil,
}
use grantseal.Prelude.Results.{Result, ok, err, ◌>>=◌, ◌>>◌, fail_if}
use grantseal.Code.{
  Code, malformed, file_too_large, unsupported_algorithm, signature_invalid, key_id_mismatch,
  non_canonical_payload,
}
use grantseal.Json.{Json}
use grantseal.Json.Canonical.{encode_canonical}
use grantseal.Payload.{Payload, algorithm_valid, license_signing_input, max_license_file_size}
use grantseal.KeyRing.{KeyEntry, KeyRing, lookup_public_key, check_key_policy}

pub record Envelope : Type 0 where
  pub algorithm : Bytes
  pub key_id : Bytes
  pub payload : Bytes
  pub signature : Bytes

-- `read_envelope` and `read_payload` are decodeStrictJSON into an Envelope and a Payload,
-- `json_of` is json.Marshal and then Decode of its text into a tree, `quote` marshalStringNoHTMLEscape, `b64_decode` DecodeString of base64.URLEncoding, and
-- `verify_signature` ed25519.Verify of a public key, a message and a signature.
pub record Library : Type 0 where
  pub read_envelope : Bytes → Result Code Envelope
  pub read_payload : Bytes → Result Code Payload
  pub json_of : Payload → Option Json
  pub quote : Bytes → Bytes
  pub b64_decode : Bytes → Option Bytes
  pub verify_signature : Bytes → Bytes → Bytes → Bool

pub record VerifyResult : Type 0 where
  pub payload : Payload
  pub key_id : Bytes
  pub canonical : Bytes

-- ed25519.SignatureSize
abbrev pub signature_size : ℕ
signature_size = 64

-- The error of a decoding, as the envelope reports it.
abbrev pub or_malformed : {A : Type 0} → Option A → Result Code A
or_malformed none = err malformed
or_malformed (some a) = ok a

-- CanonicalBytes
unfoldable pub canonical_bytes : Library → Payload → Result Code Bytes
canonical_bytes lib p = or_malformed (lib.json_of p) >>= λ v. ok (encode_canonical lib.quote v)

module _ (lib : Library) where
  -- ParseEnvelope
  unfoldable pub parse_envelope : Bytes → Result Code Envelope
  parse_envelope content = do
    fail_if (is_nil content) malformed
    fail_if (ltb max_license_file_size (length content)) file_too_large
    env ← lib.read_envelope content
    fail_if
        (is_nil env.algorithm || is_nil env.key_id || is_nil env.payload || is_nil env.signature)
        malformed
    ok env

  -- DecodeCanonical
  unfoldable pub decode_canonical : Envelope → Result Code Bytes
  decode_canonical env = do
    b ← or_malformed (lib.b64_decode env.payload)
    fail_if (is_nil b) malformed
    ok b

  -- DecodeSignature
  unfoldable pub decode_signature : Envelope → Result Code Bytes
  decode_signature env = or_malformed (lib.b64_decode env.signature)

  -- DecodePayload
  unfoldable pub decode_payload : Envelope → Result Code Payload
  decode_payload env = do raw ← decode_canonical env; lib.read_payload raw

  -- The checks of Verify once the signature is known to match.
  unfoldable pub check_payload : Envelope → KeyEntry → Bytes → Payload → Result Code VerifyResult
  check_payload env entry canonical payload = do
    fail_if (not (eqb payload.key_id env.key_id)) key_id_mismatch
    check_key_policy entry payload.issued_at
    recanon ← canonical_bytes lib payload
    fail_if (not (eqb recanon canonical)) non_canonical_payload
    ok record { payload = payload; key_id = env.key_id; canonical = canonical }

  unfoldable pub check_signature : Envelope → KeyEntry → Bytes → Bytes → Result Code VerifyResult
  check_signature env entry canonical sig = do
    fail_if (not (length sig == signature_size)) signature_invalid
    fail_if (not (lib.verify_signature entry.public_key (license_signing_input canonical) sig))
        signature_invalid
    payload ← decode_payload env
    check_payload env entry canonical payload

  -- Verify of a configured verifier and an envelope that is not nil
  unfoldable pub verify : KeyRing → Envelope → Result Code VerifyResult
  verify ring env = do
    fail_if (not (algorithm_valid env.algorithm)) unsupported_algorithm
    entry ← lookup_public_key env.key_id ring
    canonical ← decode_canonical env
    sig ← decode_signature env
    check_signature env entry canonical sig
