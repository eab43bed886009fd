-- ===== src/Validator/Decision.antt =====
-- The whole decision of validate in validator.go.
use grantseal.Prelude.{
  ℕ, ◌+◌, ◌≤◌, true, false, Bytes, is_nil, ◌≡◌, ◌⊎◌, ◌↔◌, inl, inr, refl, Bool-cases, ap,
}
use grantseal.Code.{Code, license_ok}
use grantseal.Time.{Time, positive_or, default_clock_skew}
use grantseal.Payload.{Payload}
use grantseal.Payload.WellFormed.{IsWellFormed}
use grantseal.Validator.{
  valid, grace, ValidationContext, invalid_result, is_usable, is_revoked, is_failure, first_failure,
  gates, ExpiryDecision, evaluate_expiry, accepted, validate,
}
use grantseal.Validator.Version.{CoversVersion, check_version_iff}
use grantseal.Validator.Device.{BindsDevice, check_device_iff}
use grantseal.Validator.Expiry.{IsAlive, evaluate_expiry_iff, expiry_status_known}
use grantseal.Validator.Gates.{
  is_failure-license_ok, HasStarted, static_gate_iff, issued_iff, revocation_iff, product_iff,
  not_before_iff, gates_iff,
}

-- What a license must meet at the instant `now`.
pub record IsGranted (p : Payload) (now skew : ℕ) (ctx : ValidationContext) : Type 0 where
  pub well_formed : IsWellFormed p
  pub issued : p.issued_at ≤ now + skew
  pub not_revoked : is_revoked ctx.revocation p.license_id ≡ false
  pub product : (is_nil ctx.product_id ≡ true) ⊎ (p.product_id ≡ ctx.product_id)
  pub started : HasStarted p.not_before (now + skew)
  pub version : CoversVersion p.version_constraint ctx.product_version now skew
  pub device : BindsDevice p.device_binding ctx.device_fingerprint
  pub alive : IsAlive p now skew

abbrev pub skew_of : ValidationContext → ℕ
skew_of ctx = positive_or ctx.clock_skew default_clock_skew

validate-accepted :
    (p : Payload) (now : Time) (key_id : Bytes) (ctx : ValidationContext)
    → first_failure (gates p now (skew_of ctx) ctx) ≡ license_ok
    → (evaluate_expiry p now (skew_of ctx)).code ≡ license_ok
    → validate p now key_id ctx ≡ accepted p now key_id (evaluate_expiry p now (skew_of ctx))
unfolding validate
validate-accepted p now key_id ctx h k = rw (h, k, validate)

pub validate_refused :
    (p : Payload) (now : Time) (key_id : Bytes) (ctx : ValidationContext)
    → is_failure (first_failure (gates p now (skew_of ctx) ctx)) ≡ true
    → validate p now key_id ctx ≡ invalid_result (first_failure (gates p now (skew_of ctx) ctx)) now
unfolding validate
validate_refused p now key_id ctx h = rw (h, validate)

pub validate_expired :
    (p : Payload) (now : Time) (key_id : Bytes) (ctx : ValidationContext)
    → is_failure (first_failure (gates p now (skew_of ctx) ctx)) ≡ false
    → is_failure (evaluate_expiry p now (skew_of ctx)).code ≡ true
    → validate p now key_id ctx ≡ invalid_result (evaluate_expiry p now (skew_of ctx)).code now
unfolding validate
validate_expired p now key_id ctx h k = rw (h, k, validate)

usable-invalid_result : (c : Code) (now : Time) → is_usable (invalid_result c now) ≡ false
unfolding is_usable invalid_result
usable-invalid_result c now = refl

usable-status :
    (p : Payload) (now : Time) (key_id : Bytes) (d : ExpiryDecision)
    → (d.status ≡ valid) ⊎ (d.status ≡ grace)
    → is_usable (accepted p now key_id d) ≡ true
unfolding is_usable accepted
usable-status p now key_id d (inl e) = rw e
usable-status p now key_id d (inr e) = rw e

usable-accepted :
    (p : Payload) (now skew : ℕ) (key_id : Bytes)
    → is_usable (accepted p now key_id (evaluate_expiry p now skew)) ≡ true
usable-accepted p now skew key_id =
    usable-status p now key_id (evaluate_expiry p now skew) (expiry_status_known p now skew)

module _ (p : Payload) (now : Time) (key_id : Bytes) (ctx : ValidationContext) where
  -- A result is usable exactly when no gate fails and the expiry does not stop the license.
  usable_iff : (is_usable (validate p now key_id ctx) ≡ true) ↔ (
      (first_failure (gates p now (skew_of ctx) ctx) ≡ license_ok)
      × ((evaluate_expiry p now (skew_of ctx)).code ≡ license_ok))
  usable_iff = (
    forth,
    λ (h, k).
        rw (validate-accepted p now key_id ctx h k) (usable-accepted p now (skew_of ctx) key_id),
  )
    where
      clash :
          (c : Code)
          → validate p now key_id ctx ≡ invalid_result c now
          → is_usable (validate p now key_id ctx) ≡ true
          → ⊥
      clash c e h = cc (usable-invalid_result c now, ap is_usable e, h)

      forth :
          is_usable (validate p now key_id ctx) ≡ true
          → (first_failure (gates p now (skew_of ctx) ctx) ≡ license_ok)
            × ((evaluate_expiry p now (skew_of ctx)).code ≡ license_ok)
      forth h = elim (Bool-cases (is_failure (first_failure (gates p now (skew_of ctx) ctx)))) [
        | inl f ↦ absurd (clash _ (validate_refused p now key_id ctx f) h)
        | inr n ↦ elim (Bool-cases (is_failure (evaluate_expiry p now (skew_of ctx)).code)) [
          | inl f ↦ absurd (clash _ (validate_expired p now key_id ctx n f) h)
          | inr m ↦ (is_failure-license_ok _ n, is_failure-license_ok _ m)
        ]
      ]

  -- A license is usable, valid or within its grace period, exactly when it is well formed, issued,
  -- not revoked, for the product, started, for the device, not past its expiry and grace period, each with the
  -- tolerated clock skew, and covers the running version. The last asks that a constrained license is
  -- given a version, and that the version parses only where it is compared: with a minimum, with a
  -- maximum, or with the covered version once the maintenance window has lapsed.
  pub validate_iff :
      (is_usable (validate p now key_id ctx) ≡ true) ↔ IsGranted p now (skew_of ctx) ctx
  validate_iff = (λ h. forth (usable_iff.0 h), λ g. usable_iff.1 (back g))
    where
      forth :
          (first_failure (gates p now (skew_of ctx) ctx) ≡ license_ok)
            × ((evaluate_expiry p now (skew_of ctx)).code ≡ license_ok)
          → IsGranted p now (skew_of ctx) ctx
      forth (h, k) =
          let (a, (b, (c, (d, (e, (f, (g, u))))))) = (gates_iff p now (skew_of ctx) ctx).0 h in
          let w = (static_gate_iff p).0 a in
          record {
            well_formed = w;
            issued = (issued_iff p now (skew_of ctx)).0 b;
            not_revoked = (revocation_iff p ctx).0 c;
            product = (product_iff p ctx).0 d;
            started = (not_before_iff p now (skew_of ctx)).0 e;
            version =
                (check_version_iff p.version_constraint ctx.product_version now (skew_of ctx)).0 f;
            device = (check_device_iff p.device_binding ctx.device_fingerprint).0 g;
            alive = (evaluate_expiry_iff p now (skew_of ctx) w).0 k;
          }

      back :
          IsGranted p now (skew_of ctx) ctx
          → (first_failure (gates p now (skew_of ctx) ctx) ≡ license_ok)
            × ((evaluate_expiry p now (skew_of ctx)).code ≡ license_ok)
      back g = (
        (gates_iff p now (skew_of ctx) ctx).1 (
          (static_gate_iff p).1 g.well_formed,
          (
            (issued_iff p now (skew_of ctx)).1 g.issued,
            (
              (revocation_iff p ctx).1 g.not_revoked,
              (
                (product_iff p ctx).1 g.product,
                (
                  (not_before_iff p now (skew_of ctx)).1 g.started,
                  (
                    (check_version_iff p.version_constraint ctx.product_version now (skew_of ctx)).1
                        g.version,
                    ((check_device_iff p.device_binding ctx.device_fingerprint).1 g.device, tt),
                  ),
                ),
              ),
            ),
          ),
        ),
        (evaluate_expiry_iff p now (skew_of ctx) g.well_formed).1 g.alive,
      )
