-- ===== src/Limits/Tests.antt =====
-- Runs of the limit checks on a result of the sample license.
use grantseal.Prelude.{◌≡◌, ◌≢◌, ◌↔◌, refl, true, codes, [], pos, eqb}
use grantseal.Prelude.Maps.{lookup}
use grantseal.Prelude.Results.{ok}
use grantseal.Time.{default_clock_skew}
use grantseal.Validator.{ValidationResult, is_usable, accepted, evaluate_expiry}
use grantseal.Limits.{require_limit, get_remaining_days, left_until, is_perpetual}
use grantseal.Limits.Checks.{IsWithin, require_limit_iff}
use grantseal.Samples.{subscription, on_day}

abbrev result : ValidationResult
result =
    accepted subscription (on_day 5) (codes "k-1")
      (evaluate_expiry subscription (on_day 5) default_clock_skew)

require_limit_iff_example : (require_limit result (codes "seats") (pos 5) ≡ ok tt) ↔ (
    (is_usable result ≡ true)
    × (codes "seats" ≢ [])
    × IsWithin (lookup (codes "seats") result.limits) (pos 5))
require_limit_iff_example = require_limit_iff result (codes "seats") (pos 5)

days_left : get_remaining_days result ≡ pos 25
unfolding get_remaining_days is_perpetual left_until accepted eqb
days_left = refl
