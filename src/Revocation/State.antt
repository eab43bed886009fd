-- ===== src/Revocation/State.antt =====
-- The anti-replay high-water marks: classifyRevocationTransition of pkg/license/revocation.go and the
-- in-memory store of pkg/license/revocation_state.go. A nil pointer is `none`; the mutex makes each
-- method one step, so concurrent callers are a sequence of calls.
pub mod Marks
pub mod Replay
pub mod Taken
mod Tests
use grantseal.Prelude.{
  ℕ, ltb, ◌==◌, if◌then◌else◌, Bool, true, false, not, Option, none, some, List, [], ◌∷◌, Bytes,
  eqb,
}
use grantseal.Prelude.Maps.{Map, lookup, insert}
use grantseal.Prelude.Results.{Result, ok, err}
use grantseal.Code.{Code, revocation_stale, revocation_rollback, revocation_state_integrity_failure}
use grantseal.Time.{Time}

pub record RevocationState : Type 0 where
  pub list_id : Bytes
  pub sequence : ℕ  -- uint64
  pub issued_at : Time
  pub payload_digest : Bytes

-- The decision for a candidate over an existing mark; `true` asks the caller to write it.
unfoldable pub classify : RevocationState → RevocationState → Result Code Bool
classify prev next =
    if ltb next.sequence prev.sequence
    then err revocation_stale
    else if next.sequence == prev.sequence
    then (if not (eqb prev.payload_digest next.payload_digest)
        then err revocation_rollback
        else ok false)
    else ok true

-- classifyRevocationTransition
unfoldable pub classify_revocation_transition :
    Option RevocationState → Option RevocationState → Result Code Bool
classify_revocation_transition prev none = err revocation_state_integrity_failure
classify_revocation_transition none (some next) = ok true
classify_revocation_transition (some prev) (some next) = classify prev next

-- MemRevocationStateStore
abbrev pub MemStore : Type 0
MemStore = Map RevocationState

-- LoadRevocationState
unfoldable pub load_revocation_state : Bytes → MemStore → Result Code (Option RevocationState)
load_revocation_state list_id m = ok (lookup list_id m)

-- SaveRevocationState
unfoldable pub save_revocation_state :
    Option RevocationState → MemStore → MemStore × Result Code (Unit {0})
save_revocation_state none m = (m, err revocation_state_integrity_failure)
save_revocation_state (some st) m = (insert st.list_id st m, ok tt)

-- What a caller that holds the entries does after the decision.
unfoldable pub commit :
    Result Code Bool → RevocationState → MemStore → MemStore × Result Code (Unit {0})
commit (err c) next m = (m, err c)
commit (ok true) next m = (insert next.list_id next m, ok tt)
commit (ok false) next m = (m, ok tt)

-- CheckAndSaveRevocationState
unfoldable pub check_and_save :
    Option RevocationState → MemStore → MemStore × Result Code (Unit {0})
check_and_save none m = (m, err revocation_state_integrity_failure)
check_and_save (some next) m =
    commit (classify_revocation_transition (lookup next.list_id m) (some next)) next m

-- A history of calls, with the answer to each.
unfoldable pub run : List RevocationState → MemStore → MemStore
run [] m = m
run (next ∷ calls) m = run calls (check_and_save (some next) m).0
