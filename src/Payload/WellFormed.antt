-- ===== src/Payload/WellFormed.antt =====
-- What makes a payload valid, stated without the code of model.go, and one lemma for each check.
use grantseal.Prelude.{
  ℕ, ◌^◌, ◌≤◌, true, false, Option, none, some, List, [], ◌∷◌, Bytes, eqb, eqb_iff, length, is_nil,
  All, ℤ, pos, negsuc, is_some, ◌≡◌, ◌≢◌, ◌⊎◌, ◌↔◌, inl, inr, refl, arith,
}
use grantseal.Prelude.Results.{ok, Result-cases}
use grantseal.Time.{Time, zero_time, is_zero}
use grantseal.Fingerprint.Scheme.{Scheme, parse}
use grantseal.Payload.{
  Payload, DeviceBinding, edition_valid, edition_trial, edition_basic, edition_professional,
  edition_enterprise, license_type_valid, license_type_trial, license_type_subscription,
  license_type_lifetime, device_mode_valid, device_mode_none, device_mode_single, device_mode_multi,
  license_schema_version, validate_identity, validate_cardinality, validate_metadata, validate_caps,
  parses, validate_device_ids, validate_device_id_format, validate_limits_range, both_before,
  validate_expiry_presence,
}

abbrev pub IsEdition : Bytes → Type 0
IsEdition e =
    (e ≡ edition_trial)
    ⊎ (e ≡ edition_basic)
    ⊎ (e ≡ edition_professional)
    ⊎ (e ≡ edition_enterprise)

abbrev pub IsLicenseType : Bytes → Type 0
IsLicenseType t =
    (t ≡ license_type_trial) ⊎ (t ≡ license_type_subscription) ⊎ (t ≡ license_type_lifetime)

-- The device ids fit the mode.
abbrev pub FitsMode : DeviceBinding → Type 0
FitsMode b =
    ((b.mode ≡ device_mode_none) × (length b.device_ids ≡ 0))
    ⊎ ((b.mode ≡ device_mode_single) × (length b.device_ids ≡ 1))
    ⊎ ((b.mode ≡ device_mode_multi) × (1 ≤ length b.device_ids))

abbrev pub Parses : Bytes → Type 0
Parses id = (s : Scheme) × (parse id ≡ ok s)

abbrev pub IsSmallEntry : Bytes × Bytes → Type 0
IsSmallEntry (k, v) = (length k ≤ 1024) × (length v ≤ 1024)

abbrev pub IsLimit : Bytes × ℤ → Type 0
IsLimit (k, v) = (is_nil k ≡ false) × ((n : ℕ) × (v ≡ pos n) × (n ≤ 2 ^ 40))

-- t ≤ u, where both are there
abbrev pub NotAfter : Option Time → Option Time → Type 0
NotAfter (some t) (some u) = t ≤ u
NotAfter none u = Unit
NotAfter (some t) none = Unit

-- A lifetime license does not expire, and every other license does.
abbrev pub FitsType : Bytes → Option Time → Type 0
FitsType t expires_at =
    ((t ≡ license_type_lifetime) × (is_some expires_at ≡ false))
    ⊎ (((t ≡ license_type_trial) ⊎ (t ≡ license_type_subscription)) × (is_some expires_at ≡ true))

pub record IsWellFormed (p : Payload) : Type 0 where
  pub schema : p.schema_version ≡ license_schema_version
  pub license_id : is_nil p.license_id ≡ false
  pub product_id : is_nil p.product_id ≡ false
  pub key_id : is_nil p.key_id ≡ false
  pub issued : p.issued_at ≢ zero_time
  pub edition : IsEdition p.edition
  pub binding : FitsMode p.device_binding
  pub device_ids : All Parses p.device_binding.device_ids
  pub grace : (n : ℕ) × (p.grace_period_days ≡ pos n) × (n ≤ 3650)
  pub features : length p.features ≤ 256
  pub few_limits : length p.limits ≤ 256
  pub few_devices : length p.device_binding.device_ids ≤ 256
  pub few_metadata : length p.metadata ≤ 256
  pub metadata : All IsSmallEntry p.metadata
  pub limits : All IsLimit p.limits
  pub expiry : FitsType p.license_type p.expires_at
  pub starts_before_end : NotAfter p.not_before p.expires_at
  pub issued_before_end : NotAfter (some p.issued_at) p.expires_at
  pub issued_before_start : NotAfter (some p.issued_at) p.not_before

pub edition_valid_iff : (e : Bytes) → (edition_valid e ≡ true) ↔ IsEdition e
unfolding edition_valid
edition_valid_iff e = (
  λ h. ground (
    arith,
    eqb_iff e edition_trial,
    eqb_iff e edition_basic,
    eqb_iff e edition_professional,
    eqb_iff e edition_enterprise,
  ),
  λ h. ground (
    arith,
    eqb_iff e edition_trial,
    eqb_iff e edition_basic,
    eqb_iff e edition_professional,
    eqb_iff e edition_enterprise,
  ),
)

pub license_type_valid_iff : (t : Bytes) → (license_type_valid t ≡ true) ↔ IsLicenseType t
unfolding license_type_valid
license_type_valid_iff t = (
  λ h. ground (
    arith,
    eqb_iff t license_type_trial,
    eqb_iff t license_type_subscription,
    eqb_iff t license_type_lifetime,
  ),
  λ h. ground (
    arith,
    eqb_iff t license_type_trial,
    eqb_iff t license_type_subscription,
    eqb_iff t license_type_lifetime,
  ),
)

pub identity_iff :
    (p : Payload)
    → (validate_identity p ≡ ok tt) ↔ (
        (p.schema_version ≡ license_schema_version)
        × (is_nil p.license_id ≡ false)
        × (is_nil p.product_id ≡ false)
        × (is_nil p.key_id ≡ false)
        × (p.issued_at ≢ zero_time))
unfolding validate_identity is_zero
identity_iff p = (λ h. ground arith, λ h. ground arith)

pub cardinality_iff :
    (b : DeviceBinding)
    → device_mode_valid b.mode ≡ true
    → (validate_cardinality b ≡ ok tt) ↔ FitsMode b
unfolding validate_cardinality device_mode_valid
cardinality_iff b v = (
  λ h. ground (
    arith,
    eqb_iff b.mode device_mode_none,
    eqb_iff b.mode device_mode_single,
    eqb_iff b.mode device_mode_multi,
  ),
  λ h. ground (
    arith,
    eqb_iff b.mode device_mode_none,
    eqb_iff b.mode device_mode_single,
    eqb_iff b.mode device_mode_multi,
  ),
)

metadata_iff : (m : List (Bytes × Bytes)) → (validate_metadata m ≡ ok tt) ↔ All IsSmallEntry m
unfolding validate_metadata
metadata_iff [] = (λ h. tt, λ h. refl)
metadata_iff ((k, v) ∷ m) =
    (λ h. ground (arith, metadata_iff m), λ h. ground (arith, metadata_iff m))

pub limits_iff : (m : List (Bytes × ℤ)) → (validate_limits_range m ≡ ok tt) ↔ All IsLimit m
unfolding validate_limits_range
limits_iff [] = (λ h. tt, λ h. refl)
limits_iff ((k, pos n) ∷ m) = (λ h. ground (arith, limits_iff m), λ h. ground (arith, limits_iff m))
limits_iff ((k, negsuc n) ∷ m) =
    (λ h. ground (arith, limits_iff m), λ h. ground (arith, limits_iff m))

parses_iff : (id : Bytes) → (parses id ≡ true) ↔ Parses id
unfolding parses
parses_iff id = (
  λ h. elim (Result-cases (parse id)) [ inl found ↦ found | inr (e, no_parse) ↦ absurd (cc) ],
  λ (s, h). rw (h, parses),
)

device_ids_iff : (ids : List Bytes) → (validate_device_ids ids ≡ ok tt) ↔ All Parses ids
unfolding validate_device_ids
device_ids_iff [] = (λ h. tt, λ h. refl)
device_ids_iff (id ∷ ids) = (
  λ h. ((parses_iff id).0 (ground arith), (device_ids_iff ids).0 (ground arith)),
  λ (h, hs). ground (arith, (parses_iff id).1 h, (device_ids_iff ids).1 hs),
)

All-empty : (ids : List Bytes) → length ids ≡ 0 → All Parses ids
All-empty [] h = tt
All-empty (id ∷ ids) h = absurd (omega arith)

format_none : (b : DeviceBinding) → b.mode ≡ device_mode_none → validate_device_id_format b ≡ ok tt
unfolding validate_device_id_format eqb
format_none b h = rw (h, validate_device_id_format)

format_bound :
    (b : DeviceBinding)
    → (b.mode ≡ device_mode_single) ⊎ (b.mode ≡ device_mode_multi)
    → validate_device_id_format b ≡ validate_device_ids b.device_ids
unfolding validate_device_id_format
format_bound b h =
    ground (arith, eqb_iff b.mode device_mode_single, eqb_iff b.mode device_mode_multi)

-- Mode none demands no device id, so it passes the format check as well.
pub format_iff :
    (b : DeviceBinding)
    → FitsMode b
    → (validate_device_id_format b ≡ ok tt) ↔ All Parses b.device_ids
format_iff b (inl (m, n)) = (λ h. All-empty b.device_ids n, λ h. format_none b m)
format_iff b (inr (inl (m, n))) = rw (format_bound b (inl m)) (device_ids_iff b.device_ids)
format_iff b (inr (inr (m, n))) = rw (format_bound b (inr m)) (device_ids_iff b.device_ids)

pub caps_iff :
    (p : Payload)
    → (validate_caps p ≡ ok tt) ↔ (
        ((n : ℕ) × (p.grace_period_days ≡ pos n) × (n ≤ 3650))
        × (length p.features ≤ 256)
        × (length p.limits ≤ 256)
        × (length p.device_binding.device_ids ≤ 256)
        × (length p.metadata ≤ 256)
        × All IsSmallEntry p.metadata)
unfolding validate_caps
caps_iff p =
    (λ h. ground (arith, metadata_iff p.metadata), λ h. ground (arith, metadata_iff p.metadata))

pub expiry_iff :
    (t : Bytes) (e : Option Time)
    → IsLicenseType t
    → (validate_expiry_presence t e ≡ ok tt) ↔ FitsType t e
unfolding validate_expiry_presence
expiry_iff t e v = (
  λ h. ground (
    arith,
    eqb_iff t license_type_trial,
    eqb_iff t license_type_subscription,
    eqb_iff t license_type_lifetime,
  ),
  λ h. ground (
    arith,
    eqb_iff t license_type_trial,
    eqb_iff t license_type_subscription,
    eqb_iff t license_type_lifetime,
  ),
)

pub both_before_iff : (t u : Option Time) → (both_before t u ≡ false) ↔ NotAfter u t
both_before_iff (some t) (some u) = (λ h. ground arith, λ h. ground arith)
both_before_iff none (some u) = (λ h. tt, λ h. refl)
both_before_iff none none = (λ h. tt, λ h. refl)
both_before_iff (some t) none = (λ h. tt, λ h. refl)
