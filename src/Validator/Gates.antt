-- ===== src/Validator/Gates.antt =====
-- What each gate of validate in validator.go lets pass, and the first one that fails.
use grantseal.Prelude.{
  ℕ, ltb, ◌+◌, ◌≤◌, true, false, Option, none, some, List, [], ◌∷◌, ◌++◌, eqb_iff, is_nil, All, ◌≡◌,
  ◌≢◌, ◌⊎◌, ◌↔◌, inl, inr, refl, arith, Bool-cases, if◌then◌else◌,
}
use grantseal.Prelude.Results.{ok, err}
use grantseal.Code.{Code, license_ok, not_yet_valid}
use grantseal.Time.{Time}
use grantseal.Payload.{Payload, Check, validate_static}
use grantseal.Payload.Errors.{
  IsStaticCode, malformed_code, schema_code, enum_code, limits_code, validate_static-code,
}
use grantseal.Payload.WellFormed.{IsWellFormed}
use grantseal.Payload.Static.{validate_static_iff}
use grantseal.Validator.{
  ValidationContext, is_revoked, validate_static_gate, validate_issued_at_gate,
  validate_revocation_gate, validate_product_gate, validate_not_before_gate, check_version,
  check_device, is_failure, first_failure, gates,
}

pub is_failure-license_ok : (c : Code) → is_failure c ≡ false → c ≡ license_ok
is_failure-license_ok license_ok h = refl
is_failure-license_ok _ h = cc

pub failure-ne : (c : Code) → c ≢ license_ok → is_failure c ≡ true
failure-ne license_ok h = absurd (h refl)
failure-ne _ h = refl

first_failure-ok : (cs : List Code) → first_failure cs ≡ license_ok → All (λ c. c ≡ license_ok) cs
unfolding first_failure
first_failure-ok [] h = tt
first_failure-ok (c ∷ cs) h = elim (Bool-cases (is_failure c)) [
  | inl f ↦ absurd (ground arith)
  | inr n ↦ (is_failure-license_ok c n, first_failure-ok cs (ground arith))
]

ok-first_failure : (cs : List Code) → All (λ c. c ≡ license_ok) cs → first_failure cs ≡ license_ok
unfolding first_failure
ok-first_failure [] h = refl
ok-first_failure (c ∷ cs) (h, hs) = rw h (ok-first_failure cs hs)

pub first_failure-append :
    (passed : List Code) (c : Code) (rest : List Code)
    → All (λ d. d ≡ license_ok) passed
    → c ≢ license_ok
    → first_failure (passed ++ c ∷ rest) ≡ c
unfolding first_failure
first_failure-append [] c rest h n = rw (failure-ne c n)
first_failure-append (d ∷ ds) c rest (h, hs) n = rw h (first_failure-append ds c rest hs n)

abbrev gate_code : Check → Code
gate_code r = elim r [ ok u ↦ license_ok | err c ↦ c ]

not_ok : {c : Code} → IsStaticCode c → c ≢ license_ok
not_ok malformed_code e = cc
not_ok schema_code e = cc
not_ok enum_code e = cc
not_ok limits_code e = cc

static_gate_ok :
    (p : Payload) → validate_static (some p) ≡ ok tt → validate_static_gate p ≡ license_ok
unfolding validate_static_gate
static_gate_ok p h = rw (h, validate_static_gate)

pub static_gate_err :
    (p : Payload) (c : Code)
    → validate_static (some p) ≡ err c
    → (validate_static_gate p ≡ c) × (c ≢ license_ok)
unfolding validate_static_gate
static_gate_err p c h = (rw (h, validate_static_gate), not_ok (validate_static-code (some p) h))

pub static_gate_iff : (p : Payload) → (validate_static_gate p ≡ license_ok) ↔ IsWellFormed p
static_gate_iff p = (
  λ h. (validate_static_iff p).0 (go (validate_static (some p)) refl (unfold_gate h)),
  λ w. static_gate_ok p ((validate_static_iff p).1 w),
)
  where
    unfold_gate :
        validate_static_gate p ≡ license_ok → gate_code (validate_static (some p)) ≡ license_ok
    unfold_gate h = unfold validate_static_gate in h

    go :
        (r : Check)
        → validate_static (some p) ≡ r
        → gate_code r ≡ license_ok
        → validate_static (some p) ≡ ok tt
    go (ok tt) e h = e
    go (err c) e h = absurd (not_ok (validate_static-code (some p) e) h)

pub issued_iff :
    (p : Payload) (now skew : ℕ)
    → (validate_issued_at_gate p now skew ≡ license_ok) ↔ (p.issued_at ≤ now + skew)
unfolding validate_issued_at_gate
issued_iff p now skew = (λ h. ground arith, λ h. ground arith)

pub revocation_iff :
    (p : Payload) (ctx : ValidationContext)
    → (validate_revocation_gate p ctx ≡ license_ok)
      ↔ (is_revoked ctx.revocation p.license_id ≡ false)
unfolding validate_revocation_gate
revocation_iff p ctx = (λ h. ground arith, λ h. ground arith)

pub product_iff :
    (p : Payload) (ctx : ValidationContext)
    → (validate_product_gate p ctx ≡ license_ok)
      ↔ ((is_nil ctx.product_id ≡ true) ⊎ (p.product_id ≡ ctx.product_id))
unfolding validate_product_gate
product_iff p ctx = (
  λ h. ground (arith, eqb_iff p.product_id ctx.product_id),
  λ h. ground (arith, eqb_iff p.product_id ctx.product_id),
)

abbrev pub HasStarted : Option Time → Time → Type 0
HasStarted none t = Unit
HasStarted (some start) t = start ≤ t

start_iff :
    (o : Option Time) (t : Time)
    → (◌≡◌ {A = Code}
        (elim o [
          | none ↦ license_ok
          | some start ↦ if ltb t start then not_yet_valid else license_ok
        ])
        license_ok)
      ↔ HasStarted o t
start_iff none t = (λ h. tt, λ h. refl)
start_iff (some start) t = (λ h. ground arith, λ h. ground arith)

pub not_before_iff :
    (p : Payload) (now skew : ℕ)
    → (validate_not_before_gate p now skew ≡ license_ok) ↔ HasStarted p.not_before (now + skew)
unfolding validate_not_before_gate
not_before_iff p now skew = start_iff p.not_before (now + skew)

-- The gates of a license that all pass.
abbrev AllPass : Payload → Time → ℕ → ValidationContext → Type 0
AllPass p now skew ctx =
    (validate_static_gate p ≡ license_ok)
    × ((validate_issued_at_gate p now skew ≡ license_ok)
        × ((validate_revocation_gate p ctx ≡ license_ok)
            × ((validate_product_gate p ctx ≡ license_ok)
                × ((validate_not_before_gate p now skew ≡ license_ok)
                    × ((check_version p.version_constraint ctx.product_version now skew
                          ≡ license_ok)
                        × ((check_device p.device_binding ctx.device_fingerprint ≡ license_ok)
                            × Unit {0}))))))

pub gates_iff :
    (p : Payload) (now : Time) (skew : ℕ) (ctx : ValidationContext)
    → (first_failure (gates p now skew ctx) ≡ license_ok) ↔ AllPass p now skew ctx
unfolding gates
gates_iff p now skew ctx =
    (λ h. first_failure-ok (gates p now skew ctx) h, λ h. ok-first_failure (gates p now skew ctx) h)
