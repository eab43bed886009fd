-- ===== src/Issuer/Revoke.antt =====
-- internal/issuer/revoke.go: signed revocation lists. A signer is not nil; the clock reading is given.
pub mod Ids
pub mod Accepted
mod Tests
use grantseal.Prelude.{
  ℕ, ◌==◌, if◌then◌else◌, Bool, ◌&&◌, ◌||◌, not, some, none, List, [], ◌∷◌, Bytes, eqb, is_nil, any,
  pos,
}
use grantseal.Prelude.Results.{Result, ok, err, ◌>>=◌, ◌>>◌, fail_if}
use grantseal.Code.{Code}
use grantseal.Time.{Time, is_zero, after}
use grantseal.Payload.{algorithm_ed25519, revocation_signing_input}
use grantseal.Verifier.{Envelope}
use grantseal.Revocation.List.{
  canonical_list, RevocationList, ListLibrary, revocation_schema_version,
}
use grantseal.Issuer.Signer.{Signing, Signer, new_envelope}

-- The errors of the package, one for each message; a wrapped error of pkg/license keeps its code.
pub data RevokeError : Type 0 where
  list_id_required : RevokeError
  sequence_required : RevokeError
  issued_at_required : RevokeError
  expires_before_issued : RevokeError
  canonical_revocation : Code → RevokeError

pub record RevocationListOptions : Type 0 where
  pub list_id : Bytes
  pub sequence : ℕ  -- uint64
  pub issued_at : Time
  pub expires_at : Time
  pub revoked_ids : List Bytes

-- The loop of dedupeNonEmpty, with the ids that were seen
unfoldable pub dedupe_from : List Bytes → List Bytes → List Bytes
dedupe_from seen [] = []
dedupe_from seen (s ∷ ids) =
    let fresh = not (is_nil s) && not (any (λ u. eqb u s) seen) in
    let rest = dedupe_from (if fresh then s ∷ seen else seen) ids in
    if fresh then s ∷ rest else rest

-- dedupeNonEmpty
unfoldable pub dedupe_non_empty : List Bytes → List Bytes
dedupe_non_empty ids = dedupe_from [] ids

abbrev pub or_canonical : Result Code Bytes → Result RevokeError Bytes
or_canonical (ok b) = ok b
or_canonical (err e) = err (canonical_revocation e)

module _ (k : Signing) where
  -- SignCanonical
  unfoldable pub sign_canonical : Signer → Bytes → Bytes
  sign_canonical s canonical = k.sign s.priv canonical

  -- SignRevocationBytes
  unfoldable pub sign_revocation_bytes : Signer → Bytes → Bytes
  sign_revocation_bytes s b = k.sign s.priv (revocation_signing_input b)

-- The literal of BuildRevocationList
unfoldable pub list_v1 : Signer → Time → List Bytes → RevocationList
list_v1 s now ids = record {
  schema_version = pos 1;
  list_id = [];
  sequence = 0;
  issued_at = now;
  expires_at = none;
  key_id = s.key_id;
  revoked_ids = dedupe_non_empty ids;
}

-- The literal of BuildRevocationListV2
unfoldable pub list_v2 : Signer → RevocationListOptions → RevocationList
list_v2 s opts = record {
  schema_version = revocation_schema_version;
  list_id = opts.list_id;
  sequence = opts.sequence;
  issued_at = opts.issued_at;
  expires_at = some opts.expires_at;
  key_id = s.key_id;
  revoked_ids = dedupe_non_empty opts.revoked_ids;
}

module _ (lib : ListLibrary) (k : Signing) where
  -- BuildRevocationList
  unfoldable pub build_revocation_list : Signer → Time → List Bytes → Result RevokeError Envelope
  build_revocation_list s now ids = do
    canonical ← or_canonical (canonical_list lib (list_v1 s now ids))
    ok (new_envelope k algorithm_ed25519 s.key_id canonical (sign_canonical k s canonical))

  -- BuildRevocationListV2
  unfoldable pub build_revocation_list_v2 :
      Signer → RevocationListOptions → Result RevokeError Envelope
  build_revocation_list_v2 s opts = do
    fail_if (is_nil opts.list_id) list_id_required
    fail_if (opts.sequence == 0) sequence_required
    fail_if (is_zero opts.issued_at) issued_at_required
    fail_if (not (after opts.expires_at opts.issued_at)) expires_before_issued
    canonical ← or_canonical (canonical_list lib (list_v2 s opts))
    ok (new_envelope k algorithm_ed25519 s.key_id canonical (sign_revocation_bytes k s canonical))
