-- ===== src/Rollback/Check.antt =====
-- The decision of CheckRollback.
use grantseal.Prelude.{ℕ, ◌+◌, ◌≤◌, ◌<◌, some, ◌≡◌, ◌↔◌, arith}
use grantseal.Prelude.Results.{ok, err}
use grantseal.Code.{clock_rollback}
use grantseal.Time.{Time}
use grantseal.Rollback.{RollbackState, check_mark, check_rollback}

-- A time is accepted over a mark exactly when it is no more than the skew behind it; or else the answer is
-- clock_rollback. The new mark is the later of the two times.
pub check_rollback_iff :
    (skew : ℕ) (prev : RollbackState) (now : Time)
    → ((check_rollback skew (some prev) now ≡ err clock_rollback)
        ↔ ((now + skew) < prev.last_trusted_time))
      × ((next : RollbackState)
          → check_rollback skew (some prev) now ≡ ok next
          → (prev.last_trusted_time ≤ (now + skew))
            × (prev.last_trusted_time ≤ next.last_trusted_time)
            × (now ≤ next.last_trusted_time)
            × (next.last_verified_at ≡ now))
unfolding check_rollback check_mark
check_rollback_iff skew prev now = ((λ h. ground arith, λ h. ground arith), λ next h. ground arith)
