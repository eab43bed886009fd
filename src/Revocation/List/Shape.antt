-- ===== src/Revocation/List/Shape.antt =====
-- The shape and the freshness of a revocation list: validateRevocationV2Static and
-- checkRevocationFreshness of pkg/license/revocation.go.
use grantseal.Prelude.{
  ℕ, zero, suc, ◌+◌, ◌-◌, ◌≤◌, ◌<◌, ltb, ◌==◌, Bool, true, false, ◌&&◌, not, Option, none, some, [],
  ◌∷◌, Bytes, is_nil, ℤ, pos, negsuc, eq_ℤ, ltb_ℤ, pos_part, ◌≡◌, ◌≢◌, ◌↔◌, refl, sym, subst, arith,
}
use grantseal.Prelude.Results.{Result, ok, ◌>>◌, fail_if}
use grantseal.Prelude.Options.{of_some}
use grantseal.Code.{Code, malformed, revocation_from_future, revocation_expired}
use grantseal.Time.{Time, is_zero, after, before, positive_or, default_clock_skew}
use grantseal.Revocation.List.{
  RevocationList, RevocationPolicy, revocation_schema_version, expires_later,
  validate_revocation_v2_static, check_window,
}

-- The shape of a version 2 list, whatever the time.
pub record IsList (rl : RevocationList) : Type 0 where
  pub schema : rl.schema_version ≡ revocation_schema_version
  pub list_id : rl.list_id ≢ []
  pub sequence : 0 < rl.sequence
  pub issued : is_zero rl.issued_at ≡ false
  pub expiry : Time
  pub expires : rl.expires_at ≡ some expiry
  pub ordered : rl.issued_at < expiry

-- A positive largest age bounds the age of the list.
abbrev pub IsYoung : ℤ → Time → Time → Type 0
IsYoung (pos zero) issued now = Unit
IsYoung (pos (suc n)) issued now = now ≤ issued + suc n
IsYoung (negsuc n) issued now = Unit

-- At `now` the list is not from the future, not expired, and not too old.
abbrev pub IsFresh : RevocationList → RevocationPolicy → Time → Type 0
IsFresh rl pol now =
    (rl.issued_at ≤ now + positive_or pol.clock_skew default_clock_skew)
    × ((t : Time) × (rl.expires_at ≡ some t)
        × (now ≤ t + positive_or pol.clock_skew default_clock_skew))
    × IsYoung pol.max_age rl.issued_at now

age_iff :
    (age : ℤ) (issued now : Time)
    → (ltb_ℤ (pos 0) age && before issued (now - pos_part age) ≡ false) ↔ IsYoung age issued now
age_iff (pos zero) issued now = (λ h. tt, λ u. refl)
age_iff (pos (suc n)) issued now = (λ h. ground arith, λ h. ground arith)
age_iff (negsuc n) issued now = (λ h. tt, λ u. ground arith)

pub fail_if_iff :
    (b : Bool) (c : Code) (m : Result Code (Unit {0}))
    → ((fail_if b c >> m) ≡ ok tt) ↔ ((b ≡ false) × (m ≡ ok tt))
fail_if_iff true c m = (λ h. absurd cc, λ (e, h). absurd cc)
fail_if_iff false c m = (λ h. (refl, h), λ (e, h). h)

last_iff : (b : Bool) (c : Code) → (fail_if b c ≡ ok tt) ↔ (b ≡ false)
last_iff true c = (λ h. absurd cc, λ e. absurd cc)
last_iff false c = (λ h. refl, λ e. refl)

not_nil : (b : Bytes) → (is_nil b ≡ false) ↔ (b ≢ [])
not_nil [] = (λ h. absurd cc, λ h. absurd (h refl))
not_nil (c ∷ b) = (λ h e. cc, λ h. refl)

three :
    (a b c : Bool)
    → (fail_if a revocation_from_future
          >> (fail_if b revocation_expired >> fail_if c revocation_expired)
        ≡ ok tt)
      ↔ ((a ≡ false) × (b ≡ false) × (c ≡ false))
three false false false = (λ h. (refl, refl, refl), λ h. refl)
three true b c = (λ h. absurd cc, λ (d, e, f). absurd cc)
three false true c = (λ h. absurd cc, λ (d, e, f). absurd cc)
three false false true = (λ h. absurd cc, λ (d, e, f). absurd cc)

pub window_iff :
    (rl : RevocationList) (o : Option Time) (now : Time) (skew : ℕ) (age : ℤ)
    → (check_window rl o now skew age ≡ ok tt) ↔ (
        (rl.issued_at ≤ now + skew)
        × ((t : Time) × (o ≡ some t) × (now ≤ t + skew))
        × IsYoung age rl.issued_at now)
unfolding check_window
window_iff rl none now skew age = (λ h. absurd cc, λ (a, (t, e, b), c). absurd cc)
window_iff rl (some t) now skew age = (forth, back)
  where
    compared : (a b : ℕ) → (ltb b a ≡ false) ↔ (a ≤ b)
    compared a b = (λ h. ground arith, λ h. ground arith)

    tests :
        (fail_if (after rl.issued_at (now + skew)) revocation_from_future
            >> (fail_if (after now (t + skew)) revocation_expired
                >> fail_if
                    (ltb_ℤ (pos 0) age && before rl.issued_at (now - pos_part age))
                    revocation_expired)
          ≡ ok tt)
        ↔ ((after rl.issued_at (now + skew) ≡ false)
            × (after now (t + skew) ≡ false)
            × (ltb_ℤ (pos 0) age && before rl.issued_at (now - pos_part age) ≡ false))
    tests =
        three (after rl.issued_at (now + skew)) (after now (t + skew))
          (ltb_ℤ (pos 0) age && before rl.issued_at (now - pos_part age))

    forth :
        (fail_if (after rl.issued_at (now + skew)) revocation_from_future
            >> (fail_if (after now (t + skew)) revocation_expired
                >> fail_if
                    (ltb_ℤ (pos 0) age && before rl.issued_at (now - pos_part age))
                    revocation_expired)
          ≡ ok tt)
        → (rl.issued_at ≤ now + skew)
          × ((u : Time) × (some t ≡ some u) × (now ≤ u + skew))
          × IsYoung age rl.issued_at now
    forth h =
        let (a, b, c) = tests.0 h in
        (
          (compared rl.issued_at (now + skew)).0 a,
          (t, refl, (compared now (t + skew)).0 b),
          (age_iff age rl.issued_at now).0 c,
        )

    back :
        (rl.issued_at ≤ now + skew)
          × ((u : Time) × (some t ≡ some u) × (now ≤ u + skew))
          × IsYoung age rl.issued_at now
        → (fail_if (after rl.issued_at (now + skew)) revocation_from_future
              >> (fail_if (after now (t + skew)) revocation_expired
                  >> fail_if
                      (ltb_ℤ (pos 0) age && before rl.issued_at (now - pos_part age))
                      revocation_expired)
            ≡ ok tt)
    back (a, (u, e, b), c) = tests.1 (
      (compared rl.issued_at (now + skew)).1 a,
      (compared now (t + skew)).1 (subst (λ v. now ≤ v + skew) (sym (of_some e)) b),
      (age_iff age rl.issued_at now).1 c,
    )

schema_iff : (z : ℤ) → (not (eq_ℤ z (pos 2)) ≡ false) ↔ (z ≡ pos 2)
schema_iff (pos n) = (λ h. ground arith, λ h. ground arith)
schema_iff (negsuc n) = (λ h. ground arith, λ h. absurd cc)

later_iff :
    (rl : RevocationList) (o : Option Time)
    → (expires_later rl o ≡ ok tt) ↔ ((t : Time) × (o ≡ some t) × (rl.issued_at < t))
unfolding expires_later
later_iff rl none = (λ h. absurd cc, λ (t, e, l). absurd cc)
later_iff rl (some t) = (
  λ h. (t, refl, ground arith),
  λ (u, e, l). let k = subst (λ v. rl.issued_at < v) (sym (of_some e)) l in ground arith,
)

pub static_iff : (rl : RevocationList) → (validate_revocation_v2_static rl ≡ ok tt) ↔ IsList rl
unfolding validate_revocation_v2_static
static_iff rl = (forth, back)
  where
    steps :
        (a b c d : Bool) (m : Result Code (Unit {0}))
        → ((fail_if a malformed
              >> (fail_if b malformed >> (fail_if c malformed >> (fail_if d malformed >> m))))
            ≡ ok tt)
          ↔ ((a ≡ false) × (b ≡ false) × (c ≡ false) × (d ≡ false) × (m ≡ ok tt))
    steps true b c d m = (λ h. absurd cc, λ (e, f, g, i, h). absurd cc)
    steps false true c d m = (λ h. absurd cc, λ (e, f, g, i, h). absurd cc)
    steps false false true d m = (λ h. absurd cc, λ (e, f, g, i, h). absurd cc)
    steps false false false true m = (λ h. absurd cc, λ (e, f, g, i, h). absurd cc)
    steps false false false false m = (λ h. (refl, refl, refl, refl, h), λ (e, f, g, i, h). h)

    positive : (n : ℕ) → ((n == 0) ≡ false) ↔ (0 < n)
    positive n = (λ h. ground arith, λ h. ground arith)

    forth : validate_revocation_v2_static rl ≡ ok tt → IsList rl
    forth h =
        let (a, b, c, d, m) =
          (steps (not (eq_ℤ rl.schema_version revocation_schema_version)) (is_nil rl.list_id)
              (rl.sequence == 0) (is_zero rl.issued_at) (expires_later rl rl.expires_at)).0
            h in
        let (t, e, l) = (later_iff rl rl.expires_at).0 m in
        record {
          schema = (schema_iff rl.schema_version).0 a;
          list_id = (not_nil rl.list_id).0 b;
          sequence = (positive rl.sequence).0 c;
          issued = d;
          expiry = t;
          expires = e;
          ordered = l;
        }

    back : IsList rl → validate_revocation_v2_static rl ≡ ok tt
    back w =
        (steps (not (eq_ℤ rl.schema_version revocation_schema_version)) (is_nil rl.list_id)
            (rl.sequence == 0) (is_zero rl.issued_at) (expires_later rl rl.expires_at)).1
          (
            (schema_iff rl.schema_version).1 w.schema,
            (not_nil rl.list_id).1 w.list_id,
            (positive rl.sequence).1 w.sequence,
            w.issued,
            (later_iff rl rl.expires_at).1 (w.expiry, w.expires, w.ordered),
          )
