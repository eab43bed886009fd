-- ===== src/Validator/Version.antt =====
-- What checkVersion of validator.go lets pass.
use Prim.Native.Nat.Ordering.{lt, eq, gt}
use grantseal.Prelude.{
  ℕ, ◌-◌, ◌<◌, true, false, Option, none, some, Bytes, is_nil, is_some, Ordering, ◌≡◌, ◌≢◌, ◌⊎◌,
  ◌↔◌, inl, inr, refl, arith,
}
use grantseal.Code.{license_ok}
use grantseal.Time.{Time}
use grantseal.Payload.{VersionConstraint}
use grantseal.Version.{compare_versions_strict}
use grantseal.Validator.{
  fails_min, fails_max, check_version_bounds, lapsed, check_maintenance_ceiling, has_constraint,
  check_version,
}

-- Both texts parse, and the first is not before, or not after, the second.
abbrev pub AtLeast : Bytes → Bytes → Type 0
AtLeast v m = (o : Ordering) × (compare_versions_strict v m ≡ some o) × (o ≢ lt)

abbrev pub AtMost : Bytes → Bytes → Type 0
AtMost v m = (o : Ordering) × (compare_versions_strict v m ≡ some o) × (o ≢ gt)

-- A bound that is not set, the empty text, is no bound.
abbrev pub IfSet : Bytes → Type 0 → Type 0
IfSet bound P = (is_nil bound ≡ true) ⊎ ((is_nil bound ≡ false) × P)

-- The maintenance window is open or not set.
abbrev pub InMaintenance : Option Time → Time → ℕ → Type 0
InMaintenance none now skew = Unit
InMaintenance (some until) now skew = ¬ (until < now - skew)

-- After the window, the ceiling is the covered version, or else the minimum as the old baseline.
abbrev pub BelowCeiling : VersionConstraint → Bytes → Type 0
BelowCeiling vc v =
    ((is_nil vc.covered_max_version ≡ false) × AtMost v vc.covered_max_version)
    ⊎ ((is_nil vc.covered_max_version ≡ true) × IfSet vc.min_version (AtMost v vc.min_version))

abbrev pub Unconstrained : VersionConstraint → Type 0
Unconstrained vc =
    (is_nil vc.min_version ≡ true)
    × (is_nil vc.max_version ≡ true)
    × (is_some vc.maintenance_until ≡ false)
    × (is_nil vc.covered_max_version ≡ true)

abbrev pub CoversVersion : VersionConstraint → Bytes → Time → ℕ → Type 0
CoversVersion vc v now skew =
    Unconstrained vc
    ⊎ ((is_nil v ≡ false)
        × IfSet vc.min_version (AtLeast v vc.min_version)
        × IfSet vc.max_version (AtMost v vc.max_version)
        × (InMaintenance vc.maintenance_until now skew ⊎ BelowCeiling vc v))

fails_min_iff : (v m : Bytes) → (fails_min (compare_versions_strict v m) ≡ false) ↔ AtLeast v m
fails_min_iff v m = (λ h. go (compare_versions_strict v m) h, λ (o, e, n). rw e (back o n))
  where
    go : (r : Option Ordering) → fails_min r ≡ false → (o : Ordering) × (r ≡ some o) × (o ≢ lt)
    go none h = cc
    go (some lt) h = cc
    go (some eq) h = (eq, refl, λ e. cc)
    go (some gt) h = (gt, refl, λ e. cc)

    back : (o : Ordering) → o ≢ lt → fails_min (some o) ≡ false
    back lt n = absurd (n refl)
    back eq n = refl
    back gt n = refl

fails_max_iff : (v m : Bytes) → (fails_max (compare_versions_strict v m) ≡ false) ↔ AtMost v m
fails_max_iff v m = (λ h. go (compare_versions_strict v m) h, λ (o, e, n). rw e (back o n))
  where
    go : (r : Option Ordering) → fails_max r ≡ false → (o : Ordering) × (r ≡ some o) × (o ≢ gt)
    go none h = cc
    go (some lt) h = (lt, refl, λ e. cc)
    go (some eq) h = (eq, refl, λ e. cc)
    go (some gt) h = cc

    back : (o : Ordering) → o ≢ gt → fails_max (some o) ≡ false
    back lt n = refl
    back eq n = refl
    back gt n = absurd (n refl)

lapsed_iff :
    (m : Option Time) (now : Time) (skew : ℕ)
    → (lapsed m now skew ≡ false) ↔ InMaintenance m now skew
lapsed_iff none now skew = (λ h. tt, λ h. refl)
lapsed_iff (some until) now skew = (λ h. ground arith, λ h. ground arith)

bounds_iff :
    (vc : VersionConstraint) (v : Bytes)
    → (check_version_bounds vc v ≡ license_ok) ↔ (
        IfSet vc.min_version (fails_min (compare_versions_strict v vc.min_version) ≡ false)
        × IfSet vc.max_version (fails_max (compare_versions_strict v vc.max_version) ≡ false))
unfolding check_version_bounds
bounds_iff vc v = (λ h. ground arith, λ h. ground arith)

ceiling_iff :
    (vc : VersionConstraint) (v : Bytes) (now : Time) (skew : ℕ)
    → (check_maintenance_ceiling vc v now skew ≡ license_ok) ↔ (
        (lapsed vc.maintenance_until now skew ≡ false)
        ⊎ ((is_nil vc.covered_max_version ≡ false)
            × (fails_max (compare_versions_strict v vc.covered_max_version) ≡ false))
        ⊎ ((is_nil vc.covered_max_version ≡ true)
            × IfSet vc.min_version (fails_max (compare_versions_strict v vc.min_version) ≡ false)))
unfolding check_maintenance_ceiling
ceiling_iff vc v now skew = (λ h. ground arith, λ h. ground arith)

IfSet-map : (m : Bytes) {P Q : Type 0} → (P → Q) → IfSet m P → IfSet m Q
IfSet-map m f (inl e) = inl e
IfSet-map m f (inr (e, p)) = inr (e, f p)

no_constraint_iff : (vc : VersionConstraint) → (has_constraint vc ≡ false) ↔ Unconstrained vc
unfolding has_constraint
no_constraint_iff vc = (λ h. ground arith, λ h. ground arith)

gate_iff :
    (vc : VersionConstraint) (v : Bytes) (now : Time) (skew : ℕ)
    → (check_version vc v now skew ≡ license_ok) ↔ (
        (has_constraint vc ≡ false)
        ⊎ ((is_nil v ≡ false)
            × (check_version_bounds vc v ≡ license_ok)
            × (check_maintenance_ceiling vc v now skew ≡ license_ok)))
unfolding check_version
gate_iff vc v now skew = (λ h. ground arith, λ h. ground arith)

-- The version gate passes exactly when the license has no version constraint, or the running version is
-- given, is neither before a minimum nor after a maximum that is set, and, once a maintenance window that is
-- set has lapsed, is not after the covered version, or else, where none is set, the minimum as baseline. Only these
-- comparisons ask that the running version and the bound parse: with neither a minimum nor a maximum, a
-- text that is not a version passes while the window is open or not set, and also after it has lapsed
-- where there is no covered version.
pub check_version_iff :
    (vc : VersionConstraint) (v : Bytes) (now : Time) (skew : ℕ)
    → (check_version vc v now skew ≡ license_ok) ↔ CoversVersion vc v now skew
check_version_iff vc v now skew =
    (λ h. forth ((gate_iff vc v now skew).0 h), λ c. (gate_iff vc v now skew).1 (back c))
  where
    ceiling_forth :
        check_maintenance_ceiling vc v now skew ≡ license_ok
        → InMaintenance vc.maintenance_until now skew ⊎ BelowCeiling vc v
    ceiling_forth h = elim ((ceiling_iff vc v now skew).0 h) [
      | inl e ↦ inl ((lapsed_iff vc.maintenance_until now skew).0 e)
      | inr (inl (e, k)) ↦ inr (inl (e, (fails_max_iff v vc.covered_max_version).0 k))
      | inr (inr (e, k)) ↦
          inr (inr (e, IfSet-map vc.min_version (fails_max_iff v vc.min_version).0 k))
    ]

    ceiling_back :
        InMaintenance vc.maintenance_until now skew ⊎ BelowCeiling vc v
        → check_maintenance_ceiling vc v now skew ≡ license_ok
    ceiling_back (inl m) =
        (ceiling_iff vc v now skew).1 (inl ((lapsed_iff vc.maintenance_until now skew).1 m))
    ceiling_back (inr (inl (e, k))) =
        (ceiling_iff vc v now skew).1 (inr (inl (e, (fails_max_iff v vc.covered_max_version).1 k)))
    ceiling_back (inr (inr (e, k))) =
        (ceiling_iff vc v now skew).1
          (inr (inr (e, IfSet-map vc.min_version (fails_max_iff v vc.min_version).1 k)))

    forth :
        (has_constraint vc ≡ false)
          ⊎ ((is_nil v ≡ false)
              × (check_version_bounds vc v ≡ license_ok)
              × (check_maintenance_ceiling vc v now skew ≡ license_ok))
        → CoversVersion vc v now skew
    forth (inl e) = inl ((no_constraint_iff vc).0 e)
    forth (inr (n, b, c)) =
        let (low, high) = (bounds_iff vc v).0 b in
        inr (
          n,
          IfSet-map vc.min_version (fails_min_iff v vc.min_version).0 low,
          IfSet-map vc.max_version (fails_max_iff v vc.max_version).0 high,
          ceiling_forth c,
        )

    back :
        CoversVersion vc v now skew
        → (has_constraint vc ≡ false)
          ⊎ ((is_nil v ≡ false)
              × (check_version_bounds vc v ≡ license_ok)
              × (check_maintenance_ceiling vc v now skew ≡ license_ok))
    back (inl u) = inl ((no_constraint_iff vc).1 u)
    back (inr (n, low, high, c)) = inr (
      n,
      (bounds_iff vc v).1 (
        IfSet-map vc.min_version (fails_min_iff v vc.min_version).1 low,
        IfSet-map vc.max_version (fails_max_iff v vc.max_version).1 high,
      ),
      ceiling_back c,
    )
