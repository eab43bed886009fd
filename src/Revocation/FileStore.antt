-- ===== src/Revocation/FileStore.antt =====
-- FileRevocationStateStore of pkg/license/revocation_state.go: the marks in one authenticated file. The
-- lock of the path makes each method one step. JSON, HMAC-SHA256 and hex are the fields of `FileLibrary`.
pub mod Loads
pub mod Steps
pub mod Refines
pub mod Marked
pub mod Writers
mod Tests
use grantseal.Prelude.{
  ◌*◌, ltb, if◌then◌else◌, Bool, true, false, not, Option, none, some, List, [], ◌∷◌, length, Bytes,
  eqb, is_nil,
}
use grantseal.Prelude.Maps.{lookup, insert}
use grantseal.Prelude.Results.{Result, ok, err, ◌>>=◌}
use grantseal.Code.{Code, revocation_state_integrity_failure}
use grantseal.AtomicFile.{File, Faults, atomic_write_file}
use grantseal.Payload.{max_revocation_file_size}
use grantseal.Revocation.State.{RevocationState, classify_revocation_transition, MemStore}

-- fileRevocationStateFile as it is decoded; `none` is a nil map.
pub record StateFile : Type 0 where
  pub entries : Option MemStore
  pub mac : Bytes

-- `entries_json` is json.Marshal of a map of marks and `file_json` that of such a map with its tag;
-- `read_json` is decodeStrictJSON into a fileRevocationStateFile. Each can fail.
pub record FileLibrary : Type 0 where
  pub entries_json : MemStore → Option Bytes
  pub file_json : MemStore → Bytes → Option Bytes
  pub read_json : Bytes → Option StateFile
  pub hmac : Bytes → Bytes → Bytes
  pub hex_encode : Bytes → Bytes
  pub hex_decode : Bytes → Option Bytes

-- The path and the key of a store, and what Close needs: the key under which the store is registered as the
-- only writer, empty where it is not, and whether it is closed.
pub record FileStore : Type 0 where
  pub path : Bytes
  pub hmac_key : Bytes
  pub exclusive_key : Bytes
  pub closed : Bool

-- NewFileRevocationStateStore
unfoldable pub new_file_store : Bytes → Bytes → Result Code FileStore
new_file_store path hmac_key =
    if is_nil path
    then err revocation_state_integrity_failure
    else if is_nil hmac_key
    then err revocation_state_integrity_failure
    else ok (record { path = path; hmac_key = hmac_key; exclusive_key = []; closed = false })

-- The error of a library call, as the store reports it.
abbrev pub or_failure : {A : Type 0} → Option A → Result Code A
or_failure none = err revocation_state_integrity_failure
or_failure (some a) = ok a

-- `wantRaw, _ :=`: the error of the decoding is dropped.
abbrev pub or_no_bytes : Option Bytes → Bytes
or_no_bytes none = []
or_no_bytes (some b) = b

-- `if f.Entries == nil`
abbrev pub or_no_entries : Option MemStore → MemStore
or_no_entries none = []
or_no_entries (some m) = m

-- The error of atomicWriteFile gets the code of the marks.
unfoldable pub as_persisted : Result Code (Unit {0}) → Result Code (Unit {0})
as_persisted (ok u) = ok tt
as_persisted (err e) = err revocation_state_integrity_failure

module _ (c : FileLibrary) (s : FileStore) where
  -- mac
  unfoldable pub entries_mac : MemStore → Result Code Bytes
  entries_mac m = or_failure (c.entries_json m) >>= λ b. ok (c.hex_encode (c.hmac s.hmac_key b))

  -- loadFileLocked once the tag of the entries is computed
  unfoldable pub check_entries_mac : MemStore → Bytes → Bytes → Result Code MemStore
  check_entries_mac m mac want = or_failure (c.hex_decode mac) >>= λ got.
      if not (eqb got (or_no_bytes (c.hex_decode want)))
      then err revocation_state_integrity_failure
      else ok m

  -- loadFileLocked once the file is decoded
  unfoldable pub check_state_file : StateFile → Result Code MemStore
  check_state_file f =
      entries_mac (or_no_entries f.entries) >>= check_entries_mac (or_no_entries f.entries) f.mac

  -- loadFileLocked
  unfoldable pub load_file : Faults → File → Result Code MemStore
  load_file f none = if f.read then err revocation_state_integrity_failure else ok []
  load_file f (some content) =
      if f.read
      then err revocation_state_integrity_failure
      else if ltb max_revocation_file_size (length content)
      then err revocation_state_integrity_failure
      else or_failure (c.read_json content) >>= check_state_file

  -- LoadRevocationState
  unfoldable pub load_state : Faults → Bytes → File → Result Code (Option RevocationState)
  load_state f list_id file = load_file f file >>= λ m. ok (lookup list_id m)

  -- The bytes that writeEntriesLocked writes
  unfoldable pub encode_entries : MemStore → Result Code Bytes
  encode_entries m = entries_mac m >>= λ mac. or_failure (c.file_json m mac)

  unfoldable pub write_content : Faults → Result Code Bytes → File → File × Result Code (Unit {0})
  write_content f (err e) file = (file, err e)
  write_content f (ok content) file =
      let (after_call, done) = atomic_write_file f content file in (after_call, as_persisted done)

  -- writeEntriesLocked
  unfoldable pub write_entries : Faults → MemStore → File → File × Result Code (Unit {0})
  write_entries f m file = write_content f (encode_entries m) file

  unfoldable pub save_over :
      Faults → RevocationState → Result Code MemStore → File → File × Result Code (Unit {0})
  save_over f st (err e) file = (file, err e)
  save_over f st (ok m) file = write_entries f (insert st.list_id st m) file

  -- SaveRevocationState
  unfoldable pub save_state : Faults → Option RevocationState → File → File × Result Code (Unit {0})
  save_state f none file = (file, err revocation_state_integrity_failure)
  save_state f (some st) file = save_over f st (load_file f file) file

  -- CheckAndSaveRevocationState past the decision
  unfoldable pub commit_decided :
      Faults → Result Code Bool → RevocationState → MemStore → File → File × Result Code (Unit {0})
  commit_decided f (err e) next m file = (file, err e)
  commit_decided f (ok false) next m file = (file, ok tt)
  commit_decided f (ok true) next m file = write_entries f (insert next.list_id next m) file

  unfoldable pub decide :
      Faults → RevocationState → Result Code MemStore → File → File × Result Code (Unit {0})
  decide f next (err e) file = (file, err e)
  decide f next (ok m) file =
      commit_decided f (classify_revocation_transition (lookup next.list_id m) (some next)) next m
        file

  -- CheckAndSaveRevocationState
  unfoldable pub check_and_save_state :
      Faults → Option RevocationState → File → File × Result Code (Unit {0})
  check_and_save_state f none file = (file, err revocation_state_integrity_failure)
  check_and_save_state f (some next) file = decide f next (load_file f file) file

  -- A history of calls, each with its failures.
  unfoldable pub run_states : List (Faults × RevocationState) → File → File
  run_states [] file = file
  run_states ((f, next) ∷ calls) file = run_states calls (check_and_save_state f (some next) file).0
