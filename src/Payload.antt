-- ===== src/Payload.antt =====
-- pkg/license/model.go: the license payload and its static validation.
-- Strings are bytes; a Go map is the list of its entries, in the order in which a loop meets them.
pub mod WellFormed
pub mod Static
pub mod Errors
mod Tests
use grantseal.Prelude.{
  ℕ, ◌+◌, ◌*◌, ◌^◌, ltb, leb, ◌==◌, if◌then◌else◌, Bool, true, false, ◌&&◌, ◌||◌, not, Option, none,
  some, List, [], ◌∷◌, ◌++◌, Bytes, codes, eqb, length, all, is_nil, ℤ, pos, negsuc, ltb_ℤ, eq_ℤ,
  is_some,
}
use grantseal.Prelude.Results.{Result, ok, err, ◌>>=◌, ◌>>◌, fail_if}
use grantseal.Code.{Code, malformed, unsupported_schema, invalid_enum, invalid_limits}
use grantseal.Time.{Time, is_zero, before}
use grantseal.Fingerprint.Scheme.{Scheme, SchemeError, parse}

abbrev pub license_schema_version : ℤ
license_schema_version = pos 2

abbrev pub max_license_file_size : ℕ
max_license_file_size = 64 * 1024

abbrev pub max_revocation_file_size : ℕ
max_revocation_file_size = 4 * 1024 * 1024

abbrev pub max_rollback_state_size : ℕ
max_rollback_state_size = 4 * 1024

abbrev pub max_revoked_ids : ℕ
max_revoked_ids = 100000

abbrev pub max_features : ℕ
max_features = 256

abbrev pub max_limits : ℕ
max_limits = 256

abbrev pub max_device_ids : ℕ
max_device_ids = 256

abbrev pub max_metadata_entries : ℕ
max_metadata_entries = 256

abbrev pub max_metadata_key_len : ℕ
max_metadata_key_len = 1024

abbrev pub max_metadata_val_len : ℕ
max_metadata_val_len = 1024

abbrev pub max_limit_value : ℤ
max_limit_value = pos (2 ^ 40)

abbrev pub algorithm_ed25519 : Bytes
algorithm_ed25519 = codes "Ed25519"

-- Algorithm.Valid
unfoldable pub algorithm_valid : Bytes → Bool
algorithm_valid a = eqb a algorithm_ed25519

-- licenseSigningInput and revocationSigningInput put their domain in front of the signed bytes.
abbrev pub license_signing_domain : Bytes
license_signing_domain = codes "grantseal/license/v2" ++ 0 ∷ []

abbrev pub revocation_signing_domain : Bytes
revocation_signing_domain = codes "grantseal/revocation/v2" ++ 0 ∷ []

unfoldable pub license_signing_input : Bytes → Bytes
license_signing_input canonical = license_signing_domain ++ canonical

unfoldable pub revocation_signing_input : Bytes → Bytes
revocation_signing_input canonical = revocation_signing_domain ++ canonical

abbrev pub edition_trial : Bytes
edition_trial = codes "trial"

abbrev pub edition_basic : Bytes
edition_basic = codes "basic"

abbrev pub edition_professional : Bytes
edition_professional = codes "professional"

abbrev pub edition_enterprise : Bytes
edition_enterprise = codes "enterprise"

-- Edition.Valid
unfoldable pub edition_valid : Bytes → Bool
edition_valid e =
    eqb e edition_trial
    || eqb e edition_basic
    || eqb e edition_professional
    || eqb e edition_enterprise

abbrev pub license_type_trial : Bytes
license_type_trial = codes "trial"

abbrev pub license_type_subscription : Bytes
license_type_subscription = codes "subscription"

abbrev pub license_type_lifetime : Bytes
license_type_lifetime = codes "lifetime"

-- LicenseType.Valid
unfoldable pub license_type_valid : Bytes → Bool
license_type_valid t =
    eqb t license_type_trial || eqb t license_type_subscription || eqb t license_type_lifetime

abbrev pub device_mode_none : Bytes
device_mode_none = codes "none"

abbrev pub device_mode_single : Bytes
device_mode_single = codes "single"

abbrev pub device_mode_multi : Bytes
device_mode_multi = codes "multi"

-- DeviceMode.Valid
unfoldable pub device_mode_valid : Bytes → Bool
device_mode_valid m = eqb m device_mode_none || eqb m device_mode_single || eqb m device_mode_multi

pub record DeviceBinding : Type 0 where
  pub mode : Bytes
  pub device_ids : List Bytes

pub record VersionConstraint : Type 0 where
  pub min_version : Bytes
  pub max_version : Bytes
  pub maintenance_until : Option Time
  pub covered_max_version : Bytes

pub record Payload : Type 0 where
  pub schema_version : ℤ
  pub license_id : Bytes
  pub serial_number : Bytes
  pub product_id : Bytes
  pub customer_id : Bytes
  pub customer_name : Bytes
  pub edition : Bytes
  pub license_type : Bytes
  pub issued_at : Time
  pub not_before : Option Time
  pub expires_at : Option Time
  pub grace_period_days : ℤ
  pub features : List Bytes
  pub limits : List (Bytes × ℤ)
  pub device_binding : DeviceBinding
  pub version_constraint : VersionConstraint
  pub metadata : List (Bytes × Bytes)
  pub key_id : Bytes

abbrev pub Check : Type 0
Check = Result Code (Unit {0})

-- validateIdentity
unfoldable pub validate_identity : Payload → Check
validate_identity p = do
  fail_if (not (eq_ℤ p.schema_version license_schema_version)) unsupported_schema
  fail_if (is_nil p.license_id || is_nil p.product_id || is_nil p.key_id) malformed
  fail_if (is_zero p.issued_at) malformed

-- The number of device ids that each mode demands.
unfoldable pub validate_cardinality : DeviceBinding → Check
validate_cardinality b =
    let n = length b.device_ids in
    if eqb b.mode device_mode_none
    then fail_if (not (n == 0)) malformed
    else if eqb b.mode device_mode_single
    then fail_if (not (n == 1)) malformed
    else if eqb b.mode device_mode_multi
    then fail_if (n == 0) malformed
    else ok tt

-- validateEnums
unfoldable pub validate_enums : Payload → Check
validate_enums p = do
  fail_if (not (edition_valid p.edition)) invalid_enum
  fail_if (not (license_type_valid p.license_type)) invalid_enum
  fail_if (not (device_mode_valid p.device_binding.mode)) invalid_enum
  validate_cardinality p.device_binding

-- The loop over the metadata in validateCaps.
unfoldable pub validate_metadata : List (Bytes × Bytes) → Check
validate_metadata [] = ok tt
validate_metadata ((k, v) ∷ rest) = do
  fail_if (ltb max_metadata_key_len (length k)) invalid_limits
  fail_if (ltb max_metadata_val_len (length v)) invalid_limits
  validate_metadata rest

-- validateCaps
unfoldable pub validate_caps : Payload → Check
validate_caps p = do
  fail_if (ltb_ℤ p.grace_period_days (pos 0) || ltb_ℤ (pos 3650) p.grace_period_days) invalid_limits
  fail_if (ltb max_features (length p.features)) invalid_limits
  fail_if (ltb max_limits (length p.limits)) invalid_limits
  fail_if (ltb max_device_ids (length p.device_binding.device_ids)) invalid_limits
  fail_if (ltb max_metadata_entries (length p.metadata)) invalid_limits
  validate_metadata p.metadata

-- Parse of pkg/fingerprint returned no error.
unfoldable pub parses : Bytes → Bool
parses id = elim (parse id) [ ok s ↦ true | err e ↦ false ]

unfoldable pub validate_device_ids : List Bytes → Check
validate_device_ids [] = ok tt
validate_device_ids (id ∷ rest) = do fail_if (not (parses id)) malformed; validate_device_ids rest

-- validateDeviceIDFormat
unfoldable pub validate_device_id_format : DeviceBinding → Check
validate_device_id_format b =
    if eqb b.mode device_mode_single || eqb b.mode device_mode_multi
    then validate_device_ids b.device_ids
    else ok tt

-- validateLimitsRange
unfoldable pub validate_limits_range : List (Bytes × ℤ) → Check
validate_limits_range [] = ok tt
validate_limits_range ((k, v) ∷ rest) = do
  fail_if (is_nil k) invalid_limits
  fail_if (ltb_ℤ v (pos 0)) invalid_limits
  fail_if (ltb_ℤ max_limit_value v) invalid_limits
  validate_limits_range rest

-- t != nil && u != nil && t.Before(*u)
abbrev pub both_before : Option Time → Option Time → Bool
both_before (some t) (some u) = before t u
both_before none u = false
both_before (some t) none = false

-- The `switch` on the license type in validateTimeSemantics.
unfoldable pub validate_expiry_presence : Bytes → Option Time → Check
validate_expiry_presence t expires_at =
    if eqb t license_type_trial
    then fail_if (not (is_some expires_at)) malformed
    else if eqb t license_type_subscription
    then fail_if (not (is_some expires_at)) malformed
    else if eqb t license_type_lifetime
    then fail_if (is_some expires_at) malformed
    else ok tt

-- validateTimeSemantics
unfoldable pub validate_time_semantics : Payload → Check
validate_time_semantics p = do
  fail_if (both_before p.expires_at p.not_before) malformed
  validate_expiry_presence p.license_type p.expires_at
  fail_if (both_before p.expires_at (some p.issued_at)) malformed
  fail_if (both_before p.not_before (some p.issued_at)) malformed

-- validateStatic and ValidatePayloadStatic; `none` is the nil pointer.
unfoldable pub validate_static : Option Payload → Check
validate_static none = err malformed
validate_static (some p) = do
  validate_identity p
  validate_enums p
  validate_caps p
  validate_device_id_format p.device_binding
  validate_limits_range p.limits
  validate_time_semantics p
