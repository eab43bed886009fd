-- ===== src/Revocation/List.antt =====
-- Loading a signed revocation list: ParseRevocationEnvelope, LoadRevocationListWithPolicy and the checks
-- that it calls in pkg/license/revocation.go. The envelope has the fields of a license envelope; the
-- state store is the in-memory one, or `none`.
pub mod Shape
pub mod Accepts
mod Tests
use grantseal.Prelude.{
  ℕ, ◌+◌, ◌*◌, ltb, ◌==◌, if◌then◌else◌, Bool, true, false, ◌&&◌, ◌||◌, not, Option, none, some,
  List, [], ◌∷◌, Bytes, length, eqb, is_nil, any, ℤ, pos, eq_ℤ, ltb_ℤ, pos_part,
}
use grantseal.Prelude.Results.{Result, ok, err, ◌>>=◌, ◌>>◌, fail_if}
use grantseal.Code.{
  Code, malformed, file_too_large, unsupported_algorithm, unsupported_schema, signature_invalid,
  key_id_mismatch, non_canonical_payload, revocation_from_future, revocation_expired,
}
use grantseal.Time.{Time, is_zero, add, add_neg, after, before, positive_or, default_clock_skew}
use grantseal.Json.{Json}
use grantseal.Json.Canonical.{encode_canonical}
use grantseal.Payload.{
  algorithm_valid, revocation_signing_input, max_revocation_file_size, max_revoked_ids,
}
use grantseal.KeyRing.{KeyEntry, KeyRing, lookup_at}
use grantseal.Verifier.{Envelope, or_malformed, signature_size}
use grantseal.Revocation.State.{RevocationState, MemStore, check_and_save}

pub record RevocationList : Type 0 where
  pub schema_version : ℤ
  pub list_id : Bytes
  pub sequence : ℕ  -- uint64
  pub issued_at : Time
  pub expires_at : Option Time
  pub key_id : Bytes
  pub revoked_ids : List Bytes

-- `read_envelope` is decodeStrictJSON, `read_list` the JSON decoder that refuses unknown fields,
-- `json_of` json.Marshal and then Decode of its text into a tree, `quote` marshalStringNoHTMLEscape, and `digest` the SHA-256 of the bytes in hex.
pub record ListLibrary : Type 0 where
  pub read_envelope : Bytes → Result Code Envelope
  pub read_list : Bytes → Option RevocationList
  pub json_of : RevocationList → Option Json
  pub quote : Bytes → Bytes
  pub b64_decode : Bytes → Option Bytes
  pub verify_signature : Bytes → Bytes → Bytes → Bool
  pub digest : Bytes → Bytes

-- RevocationPolicy without its store; RequireFresh mirrors the last field and is read nowhere.
pub record RevocationPolicy : Type 0 where
  pub clock_skew : ℤ
  pub max_age : ℤ
  pub allow_legacy_v1 : Bool
  pub relax_fresh : Bool

abbrev pub revocation_schema_version : ℤ
revocation_schema_version = pos 2

-- validateRevocationV2Static past the test that the expiry is there
unfoldable pub expires_later : RevocationList → Option Time → Result Code (Unit {0})
expires_later rl none = err malformed
expires_later rl (some t) = fail_if (not (after t rl.issued_at)) malformed

-- validateRevocationV2Static
unfoldable pub validate_revocation_v2_static : RevocationList → Result Code (Unit {0})
validate_revocation_v2_static rl = do
  fail_if (not (eq_ℤ rl.schema_version revocation_schema_version)) malformed
  fail_if (is_nil rl.list_id) malformed
  fail_if (rl.sequence == 0) malformed
  fail_if (is_zero rl.issued_at) malformed
  expires_later rl rl.expires_at

-- checkRevocationFreshness with the expiry of the list, and with the skew of the policy
unfoldable pub check_window : RevocationList → Option Time → Time → ℕ → ℤ → Result Code (Unit {0})
check_window rl none now skew max_age = err malformed
check_window rl (some t) now skew max_age = do
  fail_if (after rl.issued_at (add now skew)) revocation_from_future
  fail_if (after now (add t skew)) revocation_expired
  fail_if (ltb_ℤ (pos 0) max_age && before rl.issued_at (add_neg now (pos_part max_age)))
      revocation_expired

-- checkRevocationFreshness
unfoldable pub check_revocation_freshness :
    RevocationList → Time → RevocationPolicy → Result Code (Unit {0})
check_revocation_freshness rl now pol =
    check_window rl rl.expires_at now (positive_or pol.clock_skew default_clock_skew) pol.max_age

-- buildProvider
unfoldable pub build_provider : List Bytes → List Bytes
build_provider [] = []
build_provider (id ∷ ids) = let rest = build_provider ids in if is_nil id then rest else id ∷ rest

-- IsRevoked of the provider
unfoldable pub is_revoked_in : List Bytes → Bytes → Bool
is_revoked_in ids license_id = any (λ id. eqb id license_id) ids

-- canonicalRevocation
unfoldable pub canonical_list : ListLibrary → RevocationList → Result Code Bytes
canonical_list lib rl = or_malformed (lib.json_of rl) >>= λ v. ok (encode_canonical lib.quote v)

module _ (lib : ListLibrary) where
  -- ParseRevocationEnvelope
  unfoldable pub parse_revocation_envelope : Bytes → Result Code Envelope
  parse_revocation_envelope content = do
    fail_if (is_nil content) malformed
    fail_if (ltb max_revocation_file_size (length content)) file_too_large
    env ← lib.read_envelope content
    fail_if
        (is_nil env.algorithm || is_nil env.key_id || is_nil env.payload || is_nil env.signature)
        malformed
    ok env

  -- The checks of verifyRevocationSignature on the decoded list; the flag says that only the legacy
  -- signature matched.
  unfoldable pub check_list :
      Bytes → Bytes → Bool → RevocationList → Result Code (RevocationList × Bool)
  check_list canonical env_key_id legacy rl = do
    recanon ← canonical_list lib rl
    fail_if (not (eqb recanon canonical)) non_canonical_payload
    fail_if
        (not (eq_ℤ rl.schema_version revocation_schema_version)
          && not (eq_ℤ rl.schema_version (pos 1)))
        unsupported_schema
    fail_if (not (eqb rl.key_id env_key_id)) key_id_mismatch
    fail_if (ltb max_revoked_ids (length rl.revoked_ids)) file_too_large
    ok (rl, legacy)

  -- verifyRevocationSignature
  unfoldable pub verify_revocation_signature :
      Bytes → Bytes → Bytes → Bytes → Result Code (RevocationList × Bool)
  verify_revocation_signature public canonical sig env_key_id = do
    let domain = lib.verify_signature public (revocation_signing_input canonical) sig
    fail_if (not domain && not (lib.verify_signature public canonical sig)) signature_invalid
    rl ← or_malformed (lib.read_list canonical)
    check_list canonical env_key_id (not domain) rl

  -- The first part of LoadRevocationListWithPolicy: the carried bytes, the list and the flag
  unfoldable pub authenticate_list :
      KeyRing → Bytes → Time → Result Code (Bytes × (RevocationList × Bool))
  authenticate_list ring content now = do
    env ← parse_revocation_envelope content
    fail_if (not (algorithm_valid env.algorithm)) unsupported_algorithm
    entry ← lookup_at env.key_id now ring
    canonical ← or_malformed (lib.b64_decode env.payload)
    sig ← or_malformed (lib.b64_decode env.signature)
    fail_if (not (length sig == signature_size)) signature_invalid
    signed ← verify_revocation_signature entry.public_key canonical sig env.key_id
    ok (canonical, signed)

  -- The candidate mark of checkRevocationReplay
  abbrev pub candidate : RevocationList → Bytes → RevocationState
  candidate rl canonical = record {
    list_id = rl.list_id;
    sequence = rl.sequence;
    issued_at = rl.issued_at;
    payload_digest = lib.digest canonical;
  }

  -- checkRevocationReplay
  unfoldable pub check_revocation_replay :
      RevocationList → Bytes → Option MemStore → Option MemStore × Result Code (Unit {0})
  check_revocation_replay rl canonical none = (none, ok tt)
  check_revocation_replay rl canonical (some m) =
      let (after_call, answer) = check_and_save (some (candidate rl canonical)) m in
      (some after_call, answer)

  -- Its place in LoadRevocationListWithPolicy, after the checks that need no store
  unfoldable pub then_replay :
      Result Code (Unit {0})
      → RevocationList
      → Bytes
      → Option MemStore
      → Option MemStore × Result Code (List Bytes)
  then_replay (err e) rl canonical store = (store, err e)
  then_replay (ok u) rl canonical store =
      let (after_call, answer) = check_revocation_replay rl canonical store in
      (after_call, answer >>= λ v. ok (build_provider rl.revoked_ids))

  -- The checks of a version 2 list that need no store
  unfoldable pub check_v2 : Bool → RevocationList → Time → RevocationPolicy → Result Code (Unit {0})
  check_v2 legacy rl now pol = do
    fail_if legacy signature_invalid
    validate_revocation_v2_static rl
    if pol.relax_fresh then ok tt else check_revocation_freshness rl now pol

  unfoldable pub accept_list :
      Result Code (Bytes × (RevocationList × Bool))
      → Time
      → RevocationPolicy
      → Option MemStore
      → Option MemStore × Result Code (List Bytes)
  accept_list (err e) now pol store = (store, err e)
  accept_list (ok (canonical, (rl, legacy))) now pol store =
      if eq_ℤ rl.schema_version (pos 1)
      then (
        store,
        if pol.allow_legacy_v1 then ok (build_provider rl.revoked_ids) else err unsupported_schema,
      )
      else then_replay (check_v2 legacy rl now pol) rl canonical store

  -- LoadRevocationListWithPolicy
  unfoldable pub load_revocation_list_with_policy :
      KeyRing
      → Bytes
      → Time
      → RevocationPolicy
      → Option MemStore
      → Option MemStore × Result Code (List Bytes)
  load_revocation_list_with_policy ring content now pol store =
      accept_list (authenticate_list ring content now) now pol store
