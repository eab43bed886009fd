-- ===== src/Validator/Tests.antt =====
-- Runs of the policy pipeline on concrete licenses.
use grantseal.Prelude.{
  arith, [], ◌∷◌, ◌++◌, codes, true, ◌≡◌, ◌↔◌, refl, eqb, eqb_iff, Bytes, false,
}
use grantseal.Code.{license_ok, product_mismatch, version_unsupported}
use grantseal.Time.{is_zero}
use grantseal.Payload.{
  validate_static, validate_identity, validate_enums, edition_valid, license_type_valid,
  device_mode_valid, validate_cardinality, validate_caps, validate_metadata,
  validate_device_id_format, validate_device_ids, parses, validate_limits_range,
  validate_time_semantics, validate_expiry_presence,
}
use grantseal.Prelude.Compare.{cmp_uint}
use grantseal.Fingerprint.Scheme.{parse}
use grantseal.Version.{compare_versions_strict}
use grantseal.Payload.Static.{validate_static_iff}
use grantseal.Validator.{
  validate, is_usable, gates, invalid_result, check_version, check_device, evaluate_expiry,
  validate_static_gate, validate_issued_at_gate, validate_revocation_gate, validate_product_gate,
  validate_not_before_gate, has_constraint, check_version_bounds,
}
use grantseal.Validator.Version.{CoversVersion, check_version_iff}
use grantseal.Validator.Expiry.{IsAlive, evaluate_expiry_iff}
use grantseal.Validator.Decision.{IsGranted, skew_of, validate_iff}
use grantseal.Validator.Refusal.{other_product, validate_first_failure}
use grantseal.Samples.{subscription, subscription_accepted, context, viewer, on_day}

abbrev key : Bytes
key = codes "k-1"

validate_iff_example :
    (is_usable (validate subscription (on_day 5) key context) ≡ true)
    ↔ IsGranted subscription (on_day 5) (skew_of context) context
validate_iff_example = validate_iff subscription (on_day 5) key context

check_version_iff_example :
    (check_version subscription.version_constraint (codes "1.4.2") (on_day 5) 0 ≡ license_ok)
    ↔ CoversVersion subscription.version_constraint (codes "1.4.2") (on_day 5) 0
check_version_iff_example =
    check_version_iff subscription.version_constraint (codes "1.4.2") (on_day 5) 0

evaluate_expiry_iff_example :
    ((evaluate_expiry subscription (on_day 33) 0).code ≡ license_ok)
    ↔ IsAlive subscription (on_day 33) 0
evaluate_expiry_iff_example =
    evaluate_expiry_iff subscription (on_day 33) 0
      ((validate_static_iff subscription).0 subscription_accepted)

-- The other product also runs an unsupported version, but its product is checked first.
wrong_product :
    gates subscription (on_day 5) (skew_of viewer) viewer
    ≡ (license_ok ∷ license_ok ∷ license_ok ∷ [])
      ++ product_mismatch ∷ license_ok ∷ version_unsupported ∷ license_ok ∷ []
unfolding gates validate_static_gate validate_issued_at_gate validate_revocation_gate
    validate_product_gate validate_not_before_gate check_version has_constraint check_version_bounds
    check_device validate_static validate_identity validate_enums edition_valid license_type_valid
    device_mode_valid validate_cardinality validate_caps validate_metadata validate_device_id_format
    validate_device_ids parses validate_limits_range validate_time_semantics
    validate_expiry_presence eqb is_zero parse compare_versions_strict cmp_uint
wrong_product = refl

validate_first_failure_example :
    validate subscription (on_day 5) key viewer ≡ invalid_result product_mismatch (on_day 5)
validate_first_failure_example =
    validate_first_failure subscription (on_day 5) key viewer product_mismatch (
      other_product
        (((validate_static_iff subscription).0 subscription_accepted, omega arith), refl) (λ e. cc)
        (λ e. cc (other_id, (eqb_iff subscription.product_id viewer.product_id).1 e)))
  where
    other_id : eqb subscription.product_id viewer.product_id ≡ false
    other_id = unfold eqb in refl
