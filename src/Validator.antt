-- ===== src/Validator.antt =====
-- pkg/license/validator.go: the policy pipeline over a payload whose signature was verified, and the
-- result that it returns (pkg/license/result.go).
pub mod Version
pub mod Device
pub mod Expiry
pub mod Gates
pub mod Decision
pub mod Refusal
mod Tests
use Prim.Native.Nat.Ordering.{lt, eq, gt}
use grantseal.Prelude.{
  ℕ, ◌+◌, ltb, if◌then◌else◌, Bool, true, false, ◌&&◌, ◌||◌, not, Option, none, some, List, [], ◌∷◌,
  Bytes, eqb, any, is_nil, is_some, ℤ, pos, ltb_ℤ, Ordering, scale_int64,
}
use grantseal.Prelude.Results.{Result, ok, err}
use grantseal.Code.{
  Code, license_ok, revoked, not_yet_valid, expired, device_mismatch, product_mismatch,
  version_unsupported, invalid_enum,
}
use grantseal.Time.{
  Time, day, after, before, add, add_neg, add_duration, positive_or, default_clock_skew,
}
use grantseal.Payload.{
  Payload, DeviceBinding, VersionConstraint, Check, device_mode_none, device_mode_single,
  device_mode_multi, license_type_lifetime, validate_static,
}
use grantseal.Version.{compare_versions_strict}
use grantseal.Features.{effective_features}

pub data Status : Type 0 where
  valid grace invalid : Status

-- A nil provider is `none`; a provider answers whether a license id is revoked.
pub record ValidationContext : Type 0 where
  pub product_id : Bytes
  pub product_version : Bytes
  pub device_fingerprint : Bytes
  pub revocation : Option (Bytes → Bool)
  pub clock_skew : ℤ

pub record ValidationResult : Type 0 where
  pub status : Status
  pub code : Code
  pub license_id : Bytes
  pub serial_number : Bytes
  pub product_id : Bytes
  pub edition : Bytes
  pub license_type : Bytes
  pub not_before : Option Time
  pub expires_at : Option Time
  pub grace_until : Option Time
  pub features : List Bytes
  pub limits : List (Bytes × ℤ)
  pub checked_at : Time
  pub key_id : Bytes
  pub device_matched : Bool

-- invalidResult
unfoldable pub invalid_result : Code → Time → ValidationResult
invalid_result code checked_at = record {
  status = invalid;
  code = code;
  license_id = [];
  serial_number = [];
  product_id = [];
  edition = [];
  license_type = [];
  not_before = none;
  expires_at = none;
  grace_until = none;
  features = [];
  limits = [];
  checked_at = checked_at;
  key_id = [];
  device_matched = false;
}

-- Valid of a result
unfoldable pub is_usable : ValidationResult → Bool
is_usable r = elim r.status [ valid ↦ true | grace ↦ true | invalid ↦ false ]

-- validateStaticGate
unfoldable pub validate_static_gate : Payload → Code
validate_static_gate p = elim (validate_static (some p)) [ ok u ↦ license_ok | err c ↦ c ]

-- validateIssuedAtGate
unfoldable pub validate_issued_at_gate : Payload → Time → ℕ → Code
validate_issued_at_gate p now skew =
    if after p.issued_at (add now skew) then not_yet_valid else license_ok

-- ctx.Revocation != nil && ctx.Revocation.IsRevoked(id)
abbrev pub is_revoked : Option (Bytes → Bool) → Bytes → Bool
is_revoked none id = false
is_revoked (some provider) id = provider id

-- validateRevocationGate
unfoldable pub validate_revocation_gate : Payload → ValidationContext → Code
validate_revocation_gate p ctx =
    if is_revoked ctx.revocation p.license_id then revoked else license_ok

-- validateProductGate
unfoldable pub validate_product_gate : Payload → ValidationContext → Code
validate_product_gate p ctx =
    if not (is_nil ctx.product_id) && not (eqb p.product_id ctx.product_id)
    then product_mismatch
    else license_ok

-- validateNotBeforeGate
unfoldable pub validate_not_before_gate : Payload → Time → ℕ → Code
validate_not_before_gate p now skew = elim p.not_before [
  | none ↦ license_ok
  | some start ↦ if before (add now skew) start then not_yet_valid else license_ok
]

-- !ok || cmp < 0, and !ok || cmp > 0
abbrev pub fails_min : Option Ordering → Bool
fails_min none = true
fails_min (some lt) = true
fails_min (some eq) = false
fails_min (some gt) = false

abbrev pub fails_max : Option Ordering → Bool
fails_max none = true
fails_max (some lt) = false
fails_max (some eq) = false
fails_max (some gt) = true

-- checkVersionBounds
unfoldable pub check_version_bounds : VersionConstraint → Bytes → Code
check_version_bounds vc version =
    if not (is_nil vc.min_version) && fails_min (compare_versions_strict version vc.min_version)
    then version_unsupported
    else if not (is_nil vc.max_version)
        && fails_max (compare_versions_strict version vc.max_version)
    then version_unsupported
    else license_ok

-- The maintenance window is set and has lapsed.
abbrev pub lapsed : Option Time → Time → ℕ → Bool
lapsed none now skew = false
lapsed (some until) now skew = after (add_neg now skew) until

-- checkMaintenanceCeiling
unfoldable pub check_maintenance_ceiling : VersionConstraint → Bytes → Time → ℕ → Code
check_maintenance_ceiling vc version now skew =
    if not (lapsed vc.maintenance_until now skew)
    then license_ok
    else if not (is_nil vc.covered_max_version)
    then (if fails_max (compare_versions_strict version vc.covered_max_version)
        then version_unsupported
        else license_ok)
    else if not (is_nil vc.min_version)
    then (if fails_max (compare_versions_strict version vc.min_version)
        then version_unsupported
        else license_ok)
    else license_ok

unfoldable pub has_constraint : VersionConstraint → Bool
has_constraint vc =
    not (is_nil vc.min_version)
    || not (is_nil vc.max_version)
    || is_some vc.maintenance_until
    || not (is_nil vc.covered_max_version)

-- code != CodeOK
abbrev pub is_failure : Code → Bool
is_failure license_ok = false
is_failure _ = true

-- The code if it is a failure, or else the next one.
abbrev pub or_next : Code → Code → Code
or_next c next = if is_failure c then c else next

-- checkVersion
unfoldable pub check_version : VersionConstraint → Bytes → Time → ℕ → Code
check_version vc version now skew =
    if not (has_constraint vc)
    then license_ok
    else if is_nil version
    then version_unsupported
    else or_next (check_version_bounds vc version) (check_maintenance_ceiling vc version now skew)

-- checkDevice; constantTimeEqualString is equality.
unfoldable pub check_device : DeviceBinding → Bytes → Code
check_device b fingerprint =
    if eqb b.mode device_mode_none
    then license_ok
    else if eqb b.mode device_mode_single || eqb b.mode device_mode_multi
    then (if is_nil fingerprint
        then device_mismatch
        else if any (λ id. eqb id fingerprint) b.device_ids
        then license_ok
        else device_mismatch)
    else invalid_enum

pub record ExpiryDecision : Type 0 where
  pub status : Status
  pub grace_until : Option Time
  pub code : Code

-- exp.Add(time.Duration(p.GracePeriodDays) * 24 * time.Hour)
unfoldable pub grace_end : Time → ℤ → Time
grace_end exp days = add_duration exp (scale_int64 days day)

unfoldable pub evaluate_bounded : Time → ℤ → Time → ℕ → ExpiryDecision
evaluate_bounded exp days now skew =
    if after (add_neg now skew) exp
    then (if ltb_ℤ (pos 0) days && not (after (add_neg now skew) (grace_end exp days))
        then record { status = grace; grace_until = some (grace_end exp days); code = license_ok }
        else record { status = valid; grace_until = some (grace_end exp days); code = expired })
    else record {
      status = valid;
      grace_until = if ltb_ℤ (pos 0) days then some (grace_end exp days) else none;
      code = license_ok;
    }

-- The first argument says that the license is a lifetime license.
unfoldable pub evaluate_by_type : Bool → Option Time → ℤ → Time → ℕ → ExpiryDecision
evaluate_by_type true expires_at days now skew = record {
  status = valid;
  grace_until = none;
  code = license_ok;
}
evaluate_by_type false none days now skew = record {
  status = valid;
  grace_until = none;
  code = license_ok;
}
evaluate_by_type false (some exp) days now skew = evaluate_bounded exp days now skew

-- evaluateExpiry
unfoldable pub evaluate_expiry : Payload → Time → ℕ → ExpiryDecision
evaluate_expiry p now skew =
    evaluate_by_type (eqb p.license_type license_type_lifetime) p.expires_at p.grace_period_days now
      skew

-- The loop over the gates: the first one that fails gives the code.
unfoldable pub first_failure : List Code → Code
first_failure [] = license_ok
first_failure (c ∷ cs) = or_next c (first_failure cs)

-- The gates before the expiry, in their order.
unfoldable pub gates : Payload → Time → ℕ → ValidationContext → List Code
gates p now skew ctx =
    validate_static_gate p
    ∷ validate_issued_at_gate p now skew
    ∷ validate_revocation_gate p ctx
    ∷ validate_product_gate p ctx
    ∷ validate_not_before_gate p now skew
    ∷ check_version p.version_constraint ctx.product_version now skew
    ∷ check_device p.device_binding ctx.device_fingerprint
    ∷ []

-- The result of a license that passed every gate and is not expired.
unfoldable pub accepted : Payload → Time → Bytes → ExpiryDecision → ValidationResult
accepted p now key_id d = record {
  status = d.status;
  code = license_ok;
  license_id = p.license_id;
  serial_number = p.serial_number;
  product_id = p.product_id;
  edition = p.edition;
  license_type = p.license_type;
  not_before = p.not_before;
  expires_at = p.expires_at;
  grace_until = d.grace_until;
  features = effective_features p;
  limits = p.limits;
  checked_at = now;
  key_id = key_id;
  device_matched = true;
}

-- validate
unfoldable pub validate : Payload → Time → Bytes → ValidationContext → ValidationResult
validate p now key_id ctx =
    let skew = positive_or ctx.clock_skew default_clock_skew in
    let failure = first_failure (gates p now skew ctx) in
    let d = evaluate_expiry p now skew in
    if is_failure failure
    then invalid_result failure now
    else if is_failure d.code
    then invalid_result d.code now
    else accepted p now key_id d
