-- ===== src/Validator/Refusal.antt =====
-- The code of validate in validator.go when several of its conditions fail at once.
use grantseal.Prelude.{
  ℕ, ◌+◌, ◌≤◌, true, false, Bool, List, [], ◌∷◌, ◌++◌, Bytes, is_nil, All, ◌≡◌, ◌≢◌, ◌⊎◌, ◌↔◌, inl,
  inr, refl, ◌∙◌, ap, arith, some, none, Option, eqb, eqb_iff, sym,
}
use grantseal.Prelude.Results.{err}
use grantseal.Code.{
  Code, license_ok, not_yet_valid, revoked, product_mismatch, version_unsupported, device_mismatch,
  expired,
}
use grantseal.Time.{Time}
use grantseal.Payload.{
  Payload, DeviceBinding, VersionConstraint, validate_static, license_type_lifetime,
  device_mode_none, device_mode_single, device_mode_multi,
}
use grantseal.Payload.WellFormed.{IsWellFormed, FitsMode}
use grantseal.Validator.{
  ValidationContext, invalid_result, is_revoked, is_failure, first_failure, gates, evaluate_expiry,
  evaluate_by_type, evaluate_bounded, validate, validate_static_gate, validate_issued_at_gate,
  validate_revocation_gate, validate_product_gate, validate_not_before_gate, check_version,
  check_version_bounds, check_maintenance_ceiling, check_device,
}
use grantseal.Validator.Version.{CoversVersion, check_version_iff}
use grantseal.Validator.Device.{BindsDevice, check_device_iff}
use grantseal.Validator.Expiry.{IsAlive, evaluate_expiry_iff}
use grantseal.Validator.Gates.{
  HasStarted, failure-ne, first_failure-append, static_gate_iff, static_gate_err, issued_iff,
  revocation_iff, product_iff, not_before_iff, gates_iff,
}
use grantseal.Validator.Decision.{skew_of, validate_refused, validate_expired}

module _ (p : Payload) (now : Time) (skew : ℕ) (ctx : ValidationContext) where
  -- The conditions that a license has met so far, in the order of the gates.
  abbrev pub Issued : Type 0
  Issued = IsWellFormed p × (p.issued_at ≤ now + skew)

  abbrev pub Unrevoked : Type 0
  Unrevoked = Issued × (is_revoked ctx.revocation p.license_id ≡ false)

  abbrev pub ForProduct : Type 0
  ForProduct = Unrevoked × ((is_nil ctx.product_id ≡ true) ⊎ (p.product_id ≡ ctx.product_id))

  abbrev pub Started : Type 0
  Started = ForProduct × HasStarted p.not_before (now + skew)

  abbrev pub ForVersion : Type 0
  ForVersion = Started × CoversVersion p.version_constraint ctx.product_version now skew

  abbrev pub ForDevice : Type 0
  ForDevice = ForVersion × BindsDevice p.device_binding ctx.device_fingerprint

  -- The first condition that a license misses, and the code that stands for it.
  pub data Refused : Code → Type 0 where
    ill_formed : (c : Code) → validate_static (some p) ≡ err c → Refused c
    issued_later : IsWellFormed p → ¬ (p.issued_at ≤ now + skew) → Refused not_yet_valid
    on_list : Issued → is_revoked ctx.revocation p.license_id ≡ true → Refused revoked
    other_product :
        Unrevoked → ctx.product_id ≢ [] → p.product_id ≢ ctx.product_id → Refused product_mismatch
    starts_later : ForProduct → ¬ HasStarted p.not_before (now + skew) → Refused not_yet_valid
    other_version :
        Started
        → ¬ CoversVersion p.version_constraint ctx.product_version now skew
        → Refused version_unsupported
    other_device :
        ForVersion → ¬ BindsDevice p.device_binding ctx.device_fingerprint → Refused device_mismatch
    is_past : ForDevice → ¬ IsAlive p now skew → Refused expired

nil_of : (b : Bytes) → is_nil b ≡ true → b ≡ []
nil_of [] h = refl
nil_of (c ∷ b) h = absurd (cc)

-- A gate whose condition fails gives its code.
fails :
    {A : Type 0} (g code : Code)
    → (g ≡ license_ok) ↔ A
    → (g ≡ license_ok) ⊎ (g ≡ code)
    → ¬ A
    → g ≡ code
fails g code i (inl e) n = absurd (n (i.0 e))
fails g code i (inr e) n = e

module _ (p : Payload) (now : Time) (skew : ℕ) (ctx : ValidationContext) where
  issued_code :
      (validate_issued_at_gate p now skew ≡ license_ok)
      ⊎ (validate_issued_at_gate p now skew ≡ not_yet_valid)
  unfolding validate_issued_at_gate
  issued_code = ground arith

  revocation_code :
      (validate_revocation_gate p ctx ≡ license_ok) ⊎ (validate_revocation_gate p ctx ≡ revoked)
  unfolding validate_revocation_gate
  revocation_code = ground arith

  product_code :
      (validate_product_gate p ctx ≡ license_ok) ⊎ (validate_product_gate p ctx ≡ product_mismatch)
  unfolding validate_product_gate
  product_code = ground arith

  not_before_code :
      (validate_not_before_gate p now skew ≡ license_ok)
      ⊎ (validate_not_before_gate p now skew ≡ not_yet_valid)
  unfolding validate_not_before_gate
  not_before_code = ground arith

version_code :
    (vc : VersionConstraint) (v : Bytes) (now : Time) (skew : ℕ)
    → (check_version vc v now skew ≡ license_ok)
      ⊎ (check_version vc v now skew ≡ version_unsupported)
unfolding check_version check_version_bounds check_maintenance_ceiling
version_code vc v now skew = ground arith

device_code :
    (b : DeviceBinding) (fp : Bytes)
    → FitsMode b
    → (check_device b fp ≡ license_ok) ⊎ (check_device b fp ≡ device_mismatch)
unfolding check_device
device_code b fp w = ground (
  arith,
  eqb_iff b.mode device_mode_none,
  eqb_iff b.mode device_mode_single,
  eqb_iff b.mode device_mode_multi,
)

expiry_code :
    (p : Payload) (now : Time) (skew : ℕ)
    → ((evaluate_expiry p now skew).code ≡ license_ok)
      ⊎ ((evaluate_expiry p now skew).code ≡ expired)
unfolding evaluate_expiry
expiry_code p now skew = by_type (eqb p.license_type license_type_lifetime) p.expires_at
  where
    by_type :
        (b : Bool) (o : Option Time)
        → ((evaluate_by_type b o p.grace_period_days now skew).code ≡ license_ok)
          ⊎ ((evaluate_by_type b o p.grace_period_days now skew).code ≡ expired)
    by_type true o = inl (unfold evaluate_by_type in refl)
    by_type false none = inl (unfold evaluate_by_type in refl)
    by_type false (some exp) = unfold evaluate_by_type evaluate_bounded in ground arith

module _ (p : Payload) (now : Time) (key_id : Bytes) (ctx : ValidationContext) where
  gate_refuses :
      (passed : List Code) (gate : Code) (rest : List Code) (c : Code)
      → gates p now (skew_of ctx) ctx ≡ passed ++ gate ∷ rest
      → All (λ d. d ≡ license_ok) passed
      → gate ≡ c
      → c ≢ license_ok
      → validate p now key_id ctx ≡ invalid_result c now
  gate_refuses passed gate rest c e h g n =
      let first =
        ap first_failure e ∙ first_failure-append passed gate rest h (λ k. n (sym g ∙ k)) ∙ g in
      validate_refused p now key_id ctx (rw first (failure-ne c n))
      ∙ ap (λ d. invalid_result d now) first

  -- The condition of a gate is missed, behind gates that pass.
  refuses :
      {A : Type 0} (passed : List Code) (gate : Code) (rest : List Code) (c : Code)
      → gates p now (skew_of ctx) ctx ≡ passed ++ gate ∷ rest
      → All (λ d. d ≡ license_ok) passed
      → (gate ≡ license_ok) ↔ A
      → (gate ≡ license_ok) ⊎ (gate ≡ c)
      → ¬ A
      → c ≢ license_ok
      → validate p now key_id ctx ≡ invalid_result c now
  refuses passed gate rest c e h i o n k =
      gate_refuses passed gate rest c e h (fails gate c i o n) k

  abbrev skew : ℕ
  skew = skew_of ctx

  abbrev shape : Code
  shape = validate_static_gate p

  abbrev issue : Code
  issue = validate_issued_at_gate p now skew

  abbrev revocation : Code
  revocation = validate_revocation_gate p ctx

  abbrev product : Code
  product = validate_product_gate p ctx

  abbrev start : Code
  start = validate_not_before_gate p now skew

  abbrev version : Code
  version = check_version p.version_constraint ctx.product_version now skew

  abbrev device : Code
  device = check_device p.device_binding ctx.device_fingerprint

  sh : IsWellFormed p → shape ≡ license_ok
  sh w = (static_gate_iff p).1 w

  -- The first condition that a license misses, in the fixed order shape, issue, revocation, product, start,
  -- version, device and expiry, gives the code, and the result carries nothing else but the instant.
  pub validate_first_failure :
      (c : Code)
      → Refused p now (skew_of ctx) ctx c
      → validate p now key_id ctx ≡ invalid_result c now
  unfolding gates
  validate_first_failure c (ill_formed d e) =
      let (g, n) = static_gate_err p d e in gate_refuses [] shape _ d refl tt g n
  validate_first_failure c (issued_later w n) =
      refuses (shape ∷ []) issue _ not_yet_valid refl (sh w, tt) (issued_iff p now skew)
        (issued_code p now skew ctx) n (λ e. cc)
  validate_first_failure c (on_list (w, i) r) =
      refuses (shape ∷ issue ∷ []) revocation _ revoked refl
        (sh w, ((issued_iff p now skew).1 i, tt)) (revocation_iff p ctx)
        (revocation_code p now skew ctx) (λ e. cc (r, e)) (λ e. cc)
  validate_first_failure c (other_product ((w, i), r) g n) =
      refuses (shape ∷ issue ∷ revocation ∷ []) product _ product_mismatch refl
        (sh w, ((issued_iff p now skew).1 i, ((revocation_iff p ctx).1 r, tt))) (product_iff p ctx)
        (product_code p now skew ctx)
        (λ h. elim h [ inl e ↦ g (nil_of ctx.product_id e) | inr e ↦ n e ]) (λ e. cc)
  validate_first_failure c (starts_later (((w, i), r), q) n) =
      refuses (shape ∷ issue ∷ revocation ∷ product ∷ []) start _ not_yet_valid refl
        (
          sh w,
          (
            (issued_iff p now skew).1 i,
            ((revocation_iff p ctx).1 r, ((product_iff p ctx).1 q, tt)),
          ),
        )
        (not_before_iff p now skew) (not_before_code p now skew ctx) n (λ e. cc)
  validate_first_failure c (other_version ((((w, i), r), q), s) n) =
      refuses (shape ∷ issue ∷ revocation ∷ product ∷ start ∷ []) version _ version_unsupported refl
        (
          sh w,
          (
            (issued_iff p now skew).1 i,
            (
              (revocation_iff p ctx).1 r,
              ((product_iff p ctx).1 q, ((not_before_iff p now skew).1 s, tt)),
            ),
          ),
        )
        (check_version_iff p.version_constraint ctx.product_version now skew)
        (version_code p.version_constraint ctx.product_version now skew) n (λ e. cc)
  validate_first_failure c (other_device (((((w, i), r), q), s), v) n) =
      refuses (shape ∷ issue ∷ revocation ∷ product ∷ start ∷ version ∷ []) device _ device_mismatch
        refl
        (
          sh w,
          (
            (issued_iff p now skew).1 i,
            (
              (revocation_iff p ctx).1 r,
              (
                (product_iff p ctx).1 q,
                (
                  (not_before_iff p now skew).1 s,
                  ((check_version_iff p.version_constraint ctx.product_version now skew).1 v, tt),
                ),
              ),
            ),
          ),
        )
        (check_device_iff p.device_binding ctx.device_fingerprint)
        (device_code p.device_binding ctx.device_fingerprint w.binding) n (λ e. cc)
  validate_first_failure c (is_past ((((((w, i), r), q), s), v), d) n) =
      let passed = (gates_iff p now skew ctx).1 (
        sh w,
        (
          (issued_iff p now skew).1 i,
          (
            (revocation_iff p ctx).1 r,
            (
              (product_iff p ctx).1 q,
              (
                (not_before_iff p now skew).1 s,
                (
                  (check_version_iff p.version_constraint ctx.product_version now skew).1 v,
                  ((check_device_iff p.device_binding ctx.device_fingerprint).1 d, tt),
                ),
              ),
            ),
          ),
        ),
      ) in
      let past =
        fails (evaluate_expiry p now skew).code expired (evaluate_expiry_iff p now skew w)
          (expiry_code p now skew) n in
      validate_expired p now key_id ctx (ap is_failure passed) (ap is_failure past)
      ∙ ap (λ d. invalid_result d now) past
