-- ===== src/Validator/Expiry.antt =====
-- What evaluateExpiry of validator.go decides.
use grantseal.Prelude.{
  ℕ, ◌+◌, ◌*◌, ◌-◌, ◌≤◌, ◌<◌, Bool, true, false, Option, none, some, eqb, eqb_iff, ℤ, pos, negsuc,
  scale_int64, Bool-cases, eqb→eq, ap, sym, ◌∙◌, ◌≡◌, ◌≢◌, ◌⊎◌, ◌↔◌, inl, inr, refl, arith,
}
use grantseal.Code.{license_ok}
use grantseal.Time.{Time, day, add_duration}
use grantseal.Payload.{Payload, license_type_lifetime}
use grantseal.Payload.WellFormed.{IsWellFormed}
use grantseal.Validator.{
  valid, grace, ExpiryDecision, grace_end, evaluate_bounded, evaluate_by_type, evaluate_expiry,
}

-- Within the static cap the grace period does not overflow int64: the boundary is exact.
pub grace_end_exact : (exp n : ℕ) → n ≤ 3650 → grace_end exp (pos n) ≡ exp + n * day
unfolding grace_end scale_int64 add_duration
grace_end_exact exp n h = ground arith

module _ (exp n now skew : ℕ) (small : n ≤ 3650) where
  bounded_iff :
      ((evaluate_bounded exp (pos n) now skew).code ≡ license_ok) ↔ (now - skew ≤ exp + n * day)
  unfolding evaluate_bounded
  bounded_iff = (
    λ h. ground (arith, grace_end_exact exp n small),
    λ h. ground (arith, grace_end_exact exp n small),
  )

  bounded_status :
      (evaluate_bounded exp (pos n) now skew).code ≡ license_ok
      → (((evaluate_bounded exp (pos n) now skew).status ≡ valid) × (now - skew ≤ exp))
        ⊎ (((evaluate_bounded exp (pos n) now skew).status ≡ grace) × (exp < now - skew))
  unfolding evaluate_bounded
  bounded_status h = ground (arith, grace_end_exact exp n small)

-- The expiry, if there is one, and the grace period behind it are not over.
abbrev pub NotPast : Option Time → ℤ → Time → ℕ → Type 0
NotPast none days now skew = Unit
NotPast (some exp) (pos n) now skew = now - skew ≤ exp + n * day
NotPast (some exp) (negsuc n) now skew = now - skew ≤ exp

abbrev pub IsAlive : Payload → Time → ℕ → Type 0
IsAlive p now skew =
    (p.license_type ≡ license_type_lifetime)
    ⊎ ((p.license_type ≢ license_type_lifetime) × NotPast p.expires_at p.grace_period_days now skew)

by_type_iff :
    (o : Option Time) (n now skew : ℕ)
    → n ≤ 3650
    → ((evaluate_by_type false o (pos n) now skew).code ≡ license_ok) ↔ NotPast o (pos n) now skew
unfolding evaluate_by_type
by_type_iff none n now skew small = (λ h. tt, λ h. refl)
by_type_iff (some exp) n now skew small = bounded_iff exp n now skew small

evaluate_expiry_forever :
    (p : Payload) (now skew : ℕ)
    → p.license_type ≡ license_type_lifetime
    → evaluate_expiry p now skew ≡ record { status = valid; grace_until = none; code = license_ok }
unfolding evaluate_expiry evaluate_by_type
evaluate_expiry_forever p now skew h = rw ((eqb_iff p.license_type license_type_lifetime).1 h)

evaluate_expiry_bounded :
    (p : Payload) (n now skew : ℕ)
    → p.license_type ≢ license_type_lifetime
    → p.grace_period_days ≡ pos n
    → evaluate_expiry p now skew ≡ evaluate_by_type false p.expires_at (pos n) now skew
unfolding evaluate_expiry
evaluate_expiry_bounded p n now skew h e = rw (not_lifetime, e)
  where
    not_lifetime : eqb p.license_type license_type_lifetime ≡ false
    not_lifetime = ground (arith, eqb_iff p.license_type license_type_lifetime)

-- The expiry does not stop a well-formed license exactly when it is a lifetime license, or the
-- instant, moved back by the tolerated skew, is not after the expiry and its grace period.
pub evaluate_expiry_iff :
    (p : Payload) (now skew : ℕ)
    → IsWellFormed p
    → ((evaluate_expiry p now skew).code ≡ license_ok) ↔ IsAlive p now skew
evaluate_expiry_iff p now skew w = elim (Bool-cases (eqb p.license_type license_type_lifetime)) [
  | inl t ↦ (
    λ h. inl (eqb→eq p.license_type license_type_lifetime t),
    λ h. rw (evaluate_expiry_forever p now skew (eqb→eq p.license_type license_type_lifetime t)),
  )
  | inr f ↦ bounded (λ e. cc (f, (eqb_iff p.license_type license_type_lifetime).1 e)) w.grace
]
  where
    bounded :
        p.license_type ≢ license_type_lifetime
        → ((n : ℕ) × (p.grace_period_days ≡ pos n) × (n ≤ 3650))
        → ((evaluate_expiry p now skew).code ≡ license_ok) ↔ IsAlive p now skew
    bounded k (n, e, small) = (
      λ h. inr (
        k,
        rw e (
            (by_type_iff p.expires_at n now skew small).0 (
              ap (λ (d : ExpiryDecision). d.code) (sym (evaluate_expiry_bounded p n now skew k e))
              ∙ h)),
      ),
      λ a.
          rw (evaluate_expiry_bounded p n now skew k e)
            ((by_type_iff p.expires_at n now skew small).1 (rw e at (alive a))),
    )
      where
        alive : IsAlive p now skew → NotPast p.expires_at p.grace_period_days now skew
        alive (inl t) = absurd (k t)
        alive (inr (_, x)) = x

bounded_known :
    (exp : ℕ) (days : ℤ) (now skew : ℕ)
    → ((evaluate_bounded exp days now skew).status ≡ valid)
      ⊎ ((evaluate_bounded exp days now skew).status ≡ grace)
unfolding evaluate_bounded
bounded_known exp days now skew = ground arith

by_type_known :
    (b : Bool) (o : Option Time) (days : ℤ) (now skew : ℕ)
    → ((evaluate_by_type b o days now skew).status ≡ valid)
      ⊎ ((evaluate_by_type b o days now skew).status ≡ grace)
unfolding evaluate_by_type
by_type_known true o days now skew = inl refl
by_type_known false none days now skew = inl refl
by_type_known false (some exp) days now skew = bounded_known exp days now skew

pub expiry_status_known :
    (p : Payload) (now skew : ℕ)
    → ((evaluate_expiry p now skew).status ≡ valid) ⊎ ((evaluate_expiry p now skew).status ≡ grace)
unfolding evaluate_expiry
expiry_status_known p now skew =
    by_type_known (eqb p.license_type license_type_lifetime) p.expires_at p.grace_period_days now
      skew
