-- ===== src/Payload/Static.antt =====
-- validateStatic of model.go accepts the well-formed payloads and no other.
use grantseal.Prelude.{Bool, true, false, not, some, ◌≡◌, ◌↔◌, inl, inr, refl, arith, eqb_iff}
use grantseal.Prelude.Results.{ok, fail_if, >>-eq-ok, fail_if-eq-ok, >>-intro}
use grantseal.Code.{Code, malformed, invalid_enum}
use grantseal.Payload.{
  Payload, validate_enums, validate_time_semantics, validate_static, device_mode_valid,
  edition_valid, license_type_valid, device_mode_none, device_mode_single, device_mode_multi,
}
use grantseal.Payload.WellFormed.{
  IsWellFormed, IsEdition, IsLicenseType, FitsMode, FitsType, NotAfter, edition_valid_iff,
  license_type_valid_iff, identity_iff, cardinality_iff, limits_iff, format_iff, caps_iff,
  expiry_iff, both_before_iff,
}

enums_sound :
    (p : Payload)
    → validate_enums p ≡ ok tt
    → IsEdition p.edition × IsLicenseType p.license_type × FitsMode p.device_binding
unfolding validate_enums
enums_sound p h =
    let (e, h1) = >>-eq-ok _ _ h in
    let (t, h2) = >>-eq-ok _ _ h1 in
    let (m, h3) = >>-eq-ok _ _ h2 in
    (
      (edition_valid_iff p.edition).0 (passed (edition_valid p.edition) invalid_enum e),
      (license_type_valid_iff p.license_type).0
          (passed (license_type_valid p.license_type) invalid_enum t),
      (cardinality_iff p.device_binding
            (passed (device_mode_valid p.device_binding.mode) invalid_enum m)).0
          h3,
    )
  where
    passed : (b : Bool) (c : Code) → fail_if (not b) c ≡ ok tt → b ≡ true
    passed true c h = refl
    passed false c h = cc

times_sound :
    (p : Payload)
    → IsLicenseType p.license_type
    → validate_time_semantics p ≡ ok tt
    → FitsType p.license_type p.expires_at
      × NotAfter p.not_before p.expires_at
      × NotAfter (some p.issued_at) p.expires_at
      × NotAfter (some p.issued_at) p.not_before
unfolding validate_time_semantics
times_sound p t h =
    let (e, h1) = >>-eq-ok _ _ h in
    let (x, h2) = >>-eq-ok _ _ h1 in
    let (i, n) = >>-eq-ok _ _ h2 in
    (
      (expiry_iff p.license_type p.expires_at t).0 x,
      (both_before_iff p.expires_at p.not_before).0 (fail_if-eq-ok _ malformed e),
      (both_before_iff p.expires_at (some p.issued_at)).0 (fail_if-eq-ok _ malformed i),
      (both_before_iff p.not_before (some p.issued_at)).0 (fail_if-eq-ok _ malformed n),
    )

static_sound : (p : Payload) → validate_static (some p) ≡ ok tt → IsWellFormed p
unfolding validate_static
static_sound p h =
    let (i, h1) = >>-eq-ok _ _ h in
    let (e, h2) = >>-eq-ok _ _ h1 in
    let (c, h3) = >>-eq-ok _ _ h2 in
    let (d, h4) = >>-eq-ok _ _ h3 in
    let (l, t) = >>-eq-ok _ _ h4 in
    let identity = (identity_iff p).0 i in
    let enums = enums_sound p e in
    let caps = (caps_iff p).0 c in
    let times = times_sound p enums.1 t in
    record {
      schema = identity.0;
      license_id = identity.1;
      product_id = identity.2;
      key_id = identity.3;
      issued = identity.4;
      edition = enums.0;
      binding = enums.2;
      device_ids = (format_iff p.device_binding enums.2).0 d;
      grace = caps.0;
      features = caps.1;
      few_limits = caps.2;
      few_devices = caps.3;
      few_metadata = caps.4;
      metadata = caps.5;
      limits = (limits_iff p.limits).0 l;
      expiry = times.0;
      starts_before_end = times.1;
      issued_before_end = times.2;
      issued_before_start = times.3;
    }

FitsType-license_type : {p : Payload} → IsWellFormed p → IsLicenseType p.license_type
FitsType-license_type {p} w = go w.expiry
  where
    go : FitsType p.license_type p.expires_at → IsLicenseType p.license_type
    go (inl (e, _)) = inr (inr e)
    go (inr (inl e, _)) = inl e
    go (inr (inr e, _)) = inr (inl e)

mode_known :
    (p : Payload) → FitsMode p.device_binding → device_mode_valid p.device_binding.mode ≡ true
unfolding device_mode_valid
mode_known p h = ground (
  arith,
  eqb_iff p.device_binding.mode device_mode_none,
  eqb_iff p.device_binding.mode device_mode_single,
  eqb_iff p.device_binding.mode device_mode_multi,
)

enums_complete : (p : Payload) → IsWellFormed p → validate_enums p ≡ ok tt
unfolding validate_enums
enums_complete p w =
    rw
      (
        (edition_valid_iff p.edition).1 w.edition,
        (license_type_valid_iff p.license_type).1 (FitsType-license_type w),
        mode_known p w.binding,
      )
      ((cardinality_iff p.device_binding (mode_known p w.binding)).1 w.binding)

times_complete : (p : Payload) → IsWellFormed p → validate_time_semantics p ≡ ok tt
unfolding validate_time_semantics
times_complete p w = rw (
  (both_before_iff p.expires_at p.not_before).1 w.starts_before_end,
  (expiry_iff p.license_type p.expires_at (FitsType-license_type w)).1 w.expiry,
  (both_before_iff p.expires_at (some p.issued_at)).1 w.issued_before_end,
  (both_before_iff p.not_before (some p.issued_at)).1 w.issued_before_start,
)

static_complete : (p : Payload) → IsWellFormed p → validate_static (some p) ≡ ok tt
unfolding validate_static
static_complete p w =
    >>-intro ((identity_iff p).1 (w.schema, w.license_id, w.product_id, w.key_id, w.issued)) (
      >>-intro (enums_complete p w) (
        >>-intro
          ((caps_iff p).1
            (w.grace, w.features, w.few_limits, w.few_devices, w.few_metadata, w.metadata))
          (>>-intro ((format_iff p.device_binding w.binding).1 w.device_ids)
            (>>-intro ((limits_iff p.limits).1 w.limits) (times_complete p w)))))

-- Static validation accepts a payload exactly when it is well formed: the schema is 2, the identity
-- fields are there, the enumerations are known, the device ids fit the mode and parse, every cap and
-- limit is kept, the expiry fits the license type, and the instants are in order.
pub validate_static_iff : (p : Payload) → (validate_static (some p) ≡ ok tt) ↔ IsWellFormed p
validate_static_iff p = (static_sound p, static_complete p)
