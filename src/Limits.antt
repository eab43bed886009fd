-- ===== src/Limits.antt =====
-- The questions that a client asks of a validation result: the feature gate, the limit checks and the
-- remaining time of pkg/license/result.go.
pub mod Checks
mod Tests
use grantseal.Prelude.{
  ℕ, ◌+◌, ◌-◌, ◌*◌, ◌/◌, ◌^◌, min, if◌then◌else◌, Bool, true, false, ◌||◌, not, Option, none, some,
  Bytes, eqb, is_nil, ℤ, pos, negsuc, ltb_ℤ,
}
use grantseal.Prelude.Maps.{lookup}
use grantseal.Prelude.Results.{Result, ok, err}
use grantseal.Code.{Code, limit_exceeded, limit_required, invalid_limits, feature_unavailable}
use grantseal.Time.{Time, day}
use grantseal.Payload.{license_type_lifetime}
use grantseal.Features.{has_feature}
use grantseal.Validator.{ValidationResult, is_usable}

-- RequireFeature
unfoldable pub require_feature : ValidationResult → Bytes → Result Code (Unit {0})
require_feature r name =
    if not (is_usable r)
    then err feature_unavailable
    else if has_feature r.features name
    then ok tt
    else err feature_unavailable

-- Limit and GetLimit
unfoldable pub limit : ValidationResult → Bytes → Option ℤ
limit r key = lookup key r.limits

-- current > limit
unfoldable pub within : ℤ → ℤ → Result Code (Unit {0})
within current cap = if ltb_ℤ cap current then err limit_exceeded else ok tt

-- What CheckLimit and CheckLimitStrict do with the declared limit, or without one
unfoldable pub check_declared : Option ℤ → ℤ → Result Code (Unit {0})
check_declared none current = ok tt
check_declared (some cap) current = within current cap

unfoldable pub check_required : Option ℤ → ℤ → Result Code (Unit {0})
check_required none current = err limit_required
check_required (some cap) current = within current cap

-- CheckLimit
unfoldable pub check_limit : ValidationResult → Bytes → ℤ → Result Code (Unit {0})
check_limit r key current =
    if not (is_usable r) then err limit_exceeded else check_declared (lookup key r.limits) current

-- CheckLimitStrict
unfoldable pub check_limit_strict : ValidationResult → Bytes → ℤ → Result Code (Unit {0})
check_limit_strict r key current =
    if not (is_usable r) then err limit_exceeded else check_required (lookup key r.limits) current

-- RequireLimit past the test of the key
unfoldable pub require_declared : Option ℤ → ℤ → Result Code (Unit {0})
require_declared none current = err limit_required
require_declared (some cap) current =
    if ltb_ℤ current (pos 0) then err invalid_limits else within current cap

-- RequireLimit
unfoldable pub require_limit : ValidationResult → Bytes → ℤ → Result Code (Unit {0})
require_limit r key current =
    if not (is_usable r)
    then err limit_required
    else if is_nil key
    then err limit_required
    else require_declared (lookup key r.limits) current

-- The largest time.Duration, to which Sub saturates
abbrev pub max_duration : ℕ
max_duration = 2 ^ 63 - 1

-- A lifetime license, or one without an expiry
unfoldable pub is_perpetual : ValidationResult → Bool
is_perpetual r =
    eqb r.license_type license_type_lifetime || elim r.expires_at [ none ↦ true | some t ↦ false ]

-- r.expiresAt.Sub(r.checkedAt), with 0 for a negative duration
unfoldable pub left_until : Option Time → Time → ℕ
left_until none checked = 0
left_until (some t) checked = min (t - checked) max_duration

-- RemainingTime
unfoldable pub remaining_time : ValidationResult → ℕ
remaining_time r = if is_perpetual r then max_duration else left_until r.expires_at r.checked_at

-- GetRemainingDays
unfoldable pub get_remaining_days : ValidationResult → ℤ
get_remaining_days r =
    if is_perpetual r then negsuc 0 else pos (left_until r.expires_at r.checked_at / day)
