-- ===== src/Payload/Tests.antt =====
-- Runs of the static validation on concrete payloads.
use grantseal.Prelude.{some, ◌≡◌, ◌↔◌, refl}
use grantseal.Prelude.Results.{ok, err}
use grantseal.Code.{malformed}
use grantseal.Payload.{
  Payload, validate_static, validate_identity, validate_enums, validate_cardinality, validate_caps,
  validate_metadata, validate_device_id_format, validate_device_ids, validate_limits_range,
  validate_time_semantics, parses, edition_valid, license_type_valid, device_mode_valid,
}
use grantseal.Payload.WellFormed.{IsWellFormed}
use grantseal.Payload.Static.{validate_static_iff}
use grantseal.Prelude.{eqb}
use grantseal.Time.{is_zero}
use grantseal.Fingerprint.Scheme.{parse}
use grantseal.Samples.{subscription, on_day}

validate_static_iff_example :
    (validate_static (some subscription) ≡ ok tt) ↔ IsWellFormed subscription
validate_static_iff_example = validate_static_iff subscription

-- The subscription with an expiry before its first day.
abbrev backwards : Payload
backwards = record subscription { expires_at = some (on_day 0) }

backwards_refused : validate_static (some backwards) ≡ err malformed
unfolding validate_static validate_identity is_zero validate_enums edition_valid eqb
    license_type_valid device_mode_valid validate_cardinality validate_caps validate_metadata
    validate_device_id_format validate_device_ids parses parse validate_limits_range
    validate_time_semantics
backwards_refused = refl
