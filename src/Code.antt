-- ===== src/Code.antt =====
-- pkg/license/errors.go: the stable error codes. An error is represented by its code; messages and
-- causes are left out. `no_code` is the empty string, CodeOf of an error of another package.
pub data Code : Type 0 where
  no_code : Code
  license_ok : Code
  file_not_found : Code
  file_too_large : Code
  malformed : Code
  unsupported_algorithm : Code
  unsupported_schema : Code
  key_unknown : Code
  key_disabled : Code
  key_revoked : Code
  signature_invalid : Code
  key_id_mismatch : Code
  invalid_enum : Code
  invalid_limits : Code
  revoked : Code
  not_yet_valid : Code
  expired : Code
  clock_rollback : Code
  device_mismatch : Code
  product_mismatch : Code
  version_unsupported : Code
  limit_exceeded : Code
  state_integrity_failure : Code
  product_required : Code
  non_canonical_payload : Code
  revocation_stale : Code
  revocation_from_future : Code
  revocation_expired : Code
  revocation_rollback : Code
  revocation_state_integrity_failure : Code
  limit_required : Code
  feature_unavailable : Code
