-- ===== src/Manager/Tests.antt =====
-- Runs of the facade on the sample license.
use grantseal.Prelude.{◌≡◌, ◌↔◌, ◌⊎◌, refl, none, some, codes, eqb, [], ◌∷◌}
use grantseal.Time.{Time, is_zero, add_duration, default_clock_skew}
use grantseal.Prelude.{scale_int64}
use grantseal.Prelude.Maps.{lookup}
use grantseal.Json.Canonical.{encode_canonical, write, sorted}
use grantseal.Prelude.Compare.{cmp_uint}
use grantseal.Fingerprint.Scheme.{parse}
use grantseal.Version.{compare_versions_strict}
use grantseal.KeyRing.{lookup_public_key, resolve, check_key_policy}
use grantseal.Payload.{
  validate_static, validate_identity, validate_enums, edition_valid, license_type_valid,
  device_mode_valid, validate_cardinality, validate_caps, validate_metadata,
  validate_device_id_format, validate_device_ids, parses, validate_limits_range,
  validate_time_semantics, validate_expiry_presence, algorithm_valid,
}
use grantseal.AtomicFile.{File, no_faults, atomic_write_file, fsync_state_dir}
use grantseal.Rollback.{
  Codec, check_and_save, save_checked, save, encode, write_encoded, load, mac_of, check_rollback,
}
use grantseal.Verifier.{
  canonical_bytes, VerifyResult, parse_envelope, decode_canonical, decode_signature, decode_payload,
  check_payload, check_signature, verify,
}
use grantseal.Validator.{
  ValidationResult, gates, validate_static_gate, validate_issued_at_gate, validate_revocation_gate,
  validate_product_gate, validate_not_before_gate, check_version, has_constraint,
  check_version_bounds, check_device, check_maintenance_ceiling, validate, first_failure,
  evaluate_expiry, evaluate_by_type, evaluate_bounded, accepted, is_usable, grace_end,
}
use grantseal.Manager.{
  Manager, invalidate_cache, validate_license, validate_at, authorize, authenticate_license,
  check_and_persist_rollback, after_rollback, fill_context, store_cache, cached_result, fresh,
}
use grantseal.Manager.Grants.{IsPermitted, validate_license_iff}
use grantseal.Manager.Cache.{cache_is_last_success}
use grantseal.Manager.RollbackFile.{MayAdvance, rollback_file_guarded}
use grantseal.Samples.{subscription, context, on_day, library, no_codec, manager, license_file}

-- JSON as the numbers themselves, and a tag of one number.
abbrev codec : Codec
codec = record {
  times_json = λ t v. some (t ∷ v ∷ []);
  state_json = λ st. some (st.last_trusted_time ∷ st.last_verified_at ∷ st.mac);
  read_json = λ b. none;
  hmac = λ k b. k;
  hex_encode = λ b. b;
  hex_decode = some;
}

-- A manager whose store has no file yet.
abbrev guarded_manager : Manager
guarded_manager = record manager {
  rollback = some (record { path = codes "state.json"; hmac_key = codes "k"; skew = 0 });
}

abbrev first_mark : File
first_mark = some (on_day 5 ∷ on_day 5 ∷ codes "k")

validate_license_iff_example :
    (((validate_license codec library no_faults
          (some (on_day 5))
          0
          license_file
          context
          guarded_manager).1.error
        ≡ none)
      × ((validate_license codec library no_faults
            (some (on_day 5))
            0
            license_file
            context
            guarded_manager).0.rollback_file
          ≡ first_mark))
    ↔ ((now : Time) × (some (on_day 5) ≡ some now)
        × ((vr : VerifyResult) × IsPermitted codec library no_faults context
              (invalidate_cache guarded_manager)
              license_file
              now
              vr
              first_mark))
validate_license_iff_example =
    validate_license_iff codec library no_faults context guarded_manager (some (on_day 5)) 0
      license_file first_mark

mark_saved :
    (validate_license codec library no_faults
      (some (on_day 5))
      0
      license_file
      context
      guarded_manager).0.rollback_file
    ≡ first_mark
unfolding validate_license validate_at authorize authenticate_license check_and_persist_rollback
    after_rollback fill_context store_cache cached_result fresh parse_envelope decode_canonical
    decode_signature decode_payload check_payload check_signature verify lookup_public_key resolve
    check_key_policy gates validate_static_gate validate_issued_at_gate validate_revocation_gate
    validate_product_gate validate_not_before_gate check_version has_constraint check_version_bounds
    check_device check_maintenance_ceiling validate first_failure evaluate_expiry evaluate_by_type
    evaluate_bounded accepted is_usable grace_end validate_static validate_identity validate_enums
    edition_valid license_type_valid device_mode_valid validate_cardinality validate_caps
    validate_metadata validate_device_id_format validate_device_ids parses validate_limits_range
    validate_time_semantics validate_expiry_presence algorithm_valid eqb is_zero add_duration
    scale_int64 parse compare_versions_strict cmp_uint lookup canonical_bytes encode_canonical write
    sorted check_and_save save_checked save encode write_encoded load mac_of check_rollback
    atomic_write_file fsync_state_dir
mark_saved = refl

rollback_file_guarded_example :
    ((validate_license no_codec library no_faults
        (some (on_day 5))
        0
        license_file
        context
        manager).0.rollback_file
      ≡ none)
    ⊎ ((now : Time) × (some (on_day 5) ≡ some now)
        × MayAdvance no_codec library no_faults context manager now
            (authenticate_license library manager.ring license_file))
rollback_file_guarded_example =
    rollback_file_guarded no_codec library no_faults context manager (some (on_day 5)) 0
      license_file

abbrev granted : ValidationResult
granted =
    accepted subscription (on_day 5) (codes "k-1")
      (evaluate_expiry subscription (on_day 5) default_clock_skew)

read_back :
    cached_result
      (validate_license no_codec library no_faults
        (some (on_day 5))
        0
        license_file
        context
        manager).0
      (some (on_day 6))
    ≡ some granted
unfolding validate_license validate_at authorize authenticate_license check_and_persist_rollback
    after_rollback fill_context store_cache cached_result fresh parse_envelope decode_canonical
    decode_signature decode_payload check_payload check_signature verify lookup_public_key resolve
    check_key_policy gates validate_static_gate validate_issued_at_gate validate_revocation_gate
    validate_product_gate validate_not_before_gate check_version has_constraint check_version_bounds
    check_device check_maintenance_ceiling validate first_failure evaluate_expiry evaluate_by_type
    evaluate_bounded accepted is_usable grace_end validate_static validate_identity validate_enums
    edition_valid license_type_valid device_mode_valid validate_cardinality validate_caps
    validate_metadata validate_device_id_format validate_device_ids parses validate_limits_range
    validate_time_semantics validate_expiry_presence algorithm_valid eqb is_zero add_duration
    scale_int64 parse compare_versions_strict cmp_uint lookup canonical_bytes encode_canonical write
    sorted
read_back = refl

cache_is_last_success_example :
    ((validate_license no_codec library no_faults
        (some (on_day 5))
        0
        license_file
        context
        manager).1.error
      ≡ none)
    × ((validate_license no_codec library no_faults
          (some (on_day 5))
          0
          license_file
          context
          manager).1.result
        ≡ granted)
cache_is_last_success_example =
    cache_is_last_success no_codec library no_faults context manager (some (on_day 5))
      (some (on_day 6)) 0 license_file granted read_back
