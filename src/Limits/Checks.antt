-- ===== src/Limits/Checks.antt =====
-- What the limit checks accept, and how they compare.
use grantseal.Prelude.{
  ℕ, if◌then◌else◌, Bool, true, false, not, Option, none, some, [], ◌∷◌, Bytes, is_nil, ℤ, pos,
  negsuc, ltb_ℤ, ◌≡◌, ◌≢◌, ◌↔◌, refl, sym, subst, arith,
}
use grantseal.Prelude.Maps.{lookup}
use grantseal.Prelude.Results.{Result, ok, err}
use grantseal.Prelude.Options.{of_some}
use grantseal.Code.{Code, limit_exceeded, limit_required}
use grantseal.Validator.{ValidationResult, is_usable}
use grantseal.Limits.{
  within, check_declared, check_required, check_limit, check_limit_strict, require_declared,
  require_limit,
}

-- What RequireLimit demands of the limit that is declared.
abbrev pub IsWithin : Option ℤ → ℤ → Type 0
IsWithin o current =
    (n : ℕ) × (current ≡ pos n) × ((top : ℤ) × (o ≡ some top) × (ltb_ℤ top (pos n) ≡ false))

require_declared_iff :
    (o : Option ℤ) (current : ℤ) → (require_declared o current ≡ ok tt) ↔ IsWithin o current
unfolding require_declared within
require_declared_iff none current = (λ h. absurd cc, λ (n, e, (d, f, g)). absurd cc)
require_declared_iff (some top) (pos n) =
    (λ h. (n, refl, (top, refl, ground arith)), λ (k, e, (d, f, g)). at_limit k d e f g)
  where
    at_limit :
        (k : ℕ) (d : ℤ)
        → ◌≡◌ {A = ℤ} (pos n) (pos k)
        → ◌≡◌ {A = Option ℤ} (some top) (some d)
        → ltb_ℤ d (pos k) ≡ false
        → require_declared (some top) (pos n) ≡ ok tt
    at_limit k d e f g =
        let here : ltb_ℤ top (pos n) ≡ false =
          subst (λ z. ltb_ℤ top z ≡ false) (sym e)
            (subst (λ z. ltb_ℤ z (pos k) ≡ false) (sym (of_some f)) g) in
        let up : ltb_ℤ (pos n) (pos 0) ≡ false = ground arith in
        unfold require_declared within in rw (up, here) refl
require_declared_iff (some top) (negsuc n) =
    (λ h. absurd (ground arith), λ (k, e, (d, f, g)). absurd cc)

guards_iff :
    {P : Type 0} (u : Bool) (key : Bytes) (m : Result Code (Unit {0}))
    → (m ≡ ok tt) ↔ P
    → ((if not u then err limit_required else if is_nil key then err limit_required else m) ≡ ok tt)
      ↔ ((u ≡ true) × (key ≢ []) × P)
guards_iff false key m h = (λ e. absurd cc, λ (e, k, p). absurd cc)
guards_iff true [] m h = (λ e. absurd cc, λ (e, k, p). absurd (k refl))
guards_iff true (c ∷ key) m h = (λ e. (refl, (λ n. cc), h.0 e), λ (e, k, p). h.1 p)

-- RequireLimit passes exactly when the result is usable, the key is not empty and declared, and the usage
-- is not negative and not over the declared limit.
pub require_limit_iff :
    (r : ValidationResult) (key : Bytes) (current : ℤ)
    → (require_limit r key current ≡ ok tt)
      ↔ ((is_usable r ≡ true) × (key ≢ []) × IsWithin (lookup key r.limits) current)
unfolding require_limit
require_limit_iff r key current =
    guards_iff (is_usable r) key (require_declared (lookup key r.limits) current)
      (require_declared_iff (lookup key r.limits) current)

declared-required :
    (o : Option ℤ) (current : ℤ)
    → require_declared o current ≡ ok tt
    → check_required o current ≡ ok tt
unfolding require_declared check_required within
declared-required none current h = absurd cc
declared-required (some top) current h = ground arith

required-declared :
    (o : Option ℤ) (current : ℤ)
    → check_required o current ≡ ok tt
    → check_declared o current ≡ ok tt
unfolding check_required check_declared
required-declared none current h = refl
required-declared (some top) current h = h

declared_same :
    (o : Option ℤ) (top current : ℤ)
    → o ≡ some top
    → check_declared o current ≡ check_required o current
unfolding check_required check_declared
declared_same none top current e = absurd cc
declared_same (some c) top current e = refl

-- The three checks are ordered: what RequireLimit lets pass, CheckLimitStrict does, and what that lets
-- pass, CheckLimit does; the last two agree on every declared key.
pub checks_ordered :
    (r : ValidationResult) (key : Bytes) (current : ℤ)
    → (require_limit r key current ≡ ok tt → check_limit_strict r key current ≡ ok tt)
      × (check_limit_strict r key current ≡ ok tt → check_limit r key current ≡ ok tt)
      × ((top : ℤ)
          → lookup key r.limits ≡ some top
          → check_limit r key current ≡ check_limit_strict r key current)
unfolding require_limit check_limit_strict check_limit
checks_ordered r key current = ordered (is_usable r) (is_nil key) (lookup key r.limits)
  where
    ordered :
        (u n : Bool) (o : Option ℤ)
        → ((if not u
                then err limit_required
                else if n
                then err limit_required
                else require_declared o current)
              ≡ ok tt
            → (if not u then err limit_exceeded else check_required o current) ≡ ok tt)
          × ((if not u then err limit_exceeded else check_required o current) ≡ ok tt
              → (if not u then err limit_exceeded else check_declared o current) ≡ ok tt)
          × ((top : ℤ)
              → o ≡ some top
              → (if not u then err limit_exceeded else check_declared o current)
                ≡ (if not u then err limit_exceeded else check_required o current))
    ordered false n o = (λ h. absurd cc, λ h. absurd cc, λ top e. refl)
    ordered true true o =
        (λ h. absurd cc, required-declared o current, λ top e. declared_same o top current e)
    ordered true false o = (
      declared-required o current,
      required-declared o current,
      λ top e. declared_same o top current e,
    )
