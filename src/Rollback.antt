-- ===== src/Rollback.antt =====
-- The local anti-rollback record of pkg/license/rollback.go. The lock makes each method one step.
-- JSON, HMAC-SHA256 and hex are libraries: the fields of `Codec`.
pub mod Advance
pub mod Check
pub mod Load
pub mod Mark
mod Tests
use grantseal.Prelude.{
  ℕ, ◌+◌, ◌*◌, ltb, if◌then◌else◌, Bool, true, false, not, Option, none, some, List, [], ◌∷◌, ◌++◌,
  length, Bytes, codes, eqb, is_nil, ℤ, pos,
}
use grantseal.Prelude.Results.{Result, ok, err, ◌>>=◌, ◌>>◌, fail_if}
use grantseal.Code.{Code, state_integrity_failure, clock_rollback}
use grantseal.Time.{Time, after, before, add, positive_or}
use grantseal.AtomicFile.{File, Faults, atomic_write_file}

pub record RollbackState : Type 0 where
  pub last_trusted_time : Time
  pub last_verified_at : Time
  pub mac : Bytes

-- `times_json` is json.Marshal of a rollbackMACInput and `state_json` that of a RollbackState;
-- `read_json` is decodeStrictJSON into a RollbackState. Each can fail.
pub record Codec : Type 0 where
  pub times_json : Time → Time → Option Bytes
  pub state_json : RollbackState → Option Bytes
  pub read_json : Bytes → Option RollbackState
  pub hmac : Bytes → Bytes → Bytes
  pub hex_encode : Bytes → Bytes
  pub hex_decode : Bytes → Option Bytes

pub record RollbackStore : Type 0 where
  pub path : Bytes
  pub hmac_key : Bytes
  pub skew : ℕ

abbrev pub max_rollback_state_size : ℕ
max_rollback_state_size = 4 * 1024

-- NewRollbackStore
unfoldable pub new_rollback_store : Bytes → Bytes → ℤ → Result Code RollbackStore
new_rollback_store path hmac_key skew =
    if is_nil path
    then err state_integrity_failure
    else if is_nil hmac_key
    then err state_integrity_failure
    else ok (record { path = path; hmac_key = hmac_key; skew = positive_or skew 0 })

-- The error of a library call, as the store reports it.
abbrev pub or_integrity_failure : {A : Type 0} → Option A → Result Code A
or_integrity_failure none = err state_integrity_failure
or_integrity_failure (some a) = ok a

abbrev pub or_empty : Option Bytes → Bytes
or_empty none = []
or_empty (some b) = b

-- CheckRollback past the nil test
unfoldable pub check_mark : ℕ → RollbackState → Time → Result Code RollbackState
check_mark skew prev now =
    if before (add now skew) prev.last_trusted_time
    then err clock_rollback
    else ok (record {
      last_trusted_time = if after prev.last_trusted_time now then prev.last_trusted_time else now;
      last_verified_at = now;
      mac = [];
    })

-- CheckRollback
unfoldable pub check_rollback : ℕ → Option RollbackState → Time → Result Code RollbackState
check_rollback skew none now =
    ok (record { last_trusted_time = now; last_verified_at = now; mac = [] })
check_rollback skew (some prev) now = check_mark skew prev now

module _ (c : Codec) where
  -- mac
  unfoldable pub mac_of : RollbackStore → Time → Time → Result Code Bytes
  mac_of s trusted verified = or_integrity_failure (c.times_json trusted verified) >>= λ b.
      ok (c.hex_encode (c.hmac s.hmac_key b))

  -- loadLocked once the record is decoded: `want` is hex, and its decoding error is dropped.
  unfoldable pub check_mac : RollbackState → Bytes → Result Code RollbackState
  check_mac st want = or_integrity_failure (c.hex_decode st.mac) >>= λ got.
      if not (eqb got (or_empty (c.hex_decode want))) then err state_integrity_failure else ok st

  unfoldable pub authenticate : RollbackStore → RollbackState → Result Code RollbackState
  authenticate s st = mac_of s st.last_trusted_time st.last_verified_at >>= check_mac st

  -- loadLocked
  unfoldable pub load : RollbackStore → Faults → File → Result Code (Option RollbackState)
  load s f none = if f.read then err state_integrity_failure else ok none
  load s f (some content) =
      if f.read
      then err state_integrity_failure
      else if ltb max_rollback_state_size (length content)
      then err state_integrity_failure
      else or_integrity_failure (c.read_json content) >>= authenticate s >>= λ st. ok (some st)

  -- st.MAC = m
  abbrev pub sealed : RollbackState → Bytes → RollbackState
  sealed st m = record {
    last_trusted_time = st.last_trusted_time;
    last_verified_at = st.last_verified_at;
    mac = m;
  }

  -- The bytes that saveLocked writes
  unfoldable pub encode : RollbackStore → RollbackState → Result Code Bytes
  encode s st = mac_of s st.last_trusted_time st.last_verified_at >>= λ m.
      or_integrity_failure (c.state_json (sealed st m))

  unfoldable pub write_encoded : Faults → Result Code Bytes → File → File × Result Code (Unit {0})
  write_encoded f (err e) file = (file, err e)
  write_encoded f (ok content) file = atomic_write_file f content file

  -- saveLocked of a state that is not nil
  unfoldable pub save :
      RollbackStore → Faults → RollbackState → File → File × Result Code (Unit {0})
  save s f st file = write_encoded f (encode s st) file

  unfoldable pub save_checked :
      RollbackStore → Faults → Result Code RollbackState → File → File × Result Code (Unit {0})
  save_checked s f (err e) file = (file, err e)
  save_checked s f (ok next) file = save s f next file

  -- CheckAndSave
  unfoldable pub check_and_save :
      RollbackStore → Faults → Time → File → File × Result Code (Unit {0})
  check_and_save s f now file =
      save_checked s f (load s f file >>= λ prev. check_rollback s.skew prev now) file

  -- A history of calls, each at its time and with its failures.
  unfoldable pub run : RollbackStore → List (Faults × Time) → File → File
  run s [] file = file
  run s ((f, now) ∷ calls) file = run s calls (check_and_save s f now file).0

-- DeriveRollbackKey
unfoldable pub derive_rollback_key : Codec → Bytes → Bytes → Bytes
derive_rollback_key c secret fingerprint =
    c.hmac secret (codes "grantseal:rollback:v1" ++ fingerprint)

-- DeriveRollbackKeyStrict
unfoldable pub derive_rollback_key_strict : Codec → Bytes → Bytes → Result Code Bytes
derive_rollback_key_strict c secret fingerprint =
    if is_nil fingerprint
    then err state_integrity_failure
    else ok (derive_rollback_key c secret fingerprint)
