-- ===== src/AtomicFile.antt =====
-- atomicWriteFile and fsyncStateDir of pkg/license/rollback.go. The file is its bytes, or `none` while it
-- is missing; the operating system's failures of one call are given as a record, one for each call that can
-- fail, and any combination of them can be given.
use grantseal.Prelude.{if◌then◌else◌, Bool, false, Option, some, Bytes, ◌≡◌, ◌⊎◌, arith}
use grantseal.Prelude.Results.{Result, ok, err}
use grantseal.Code.{Code, state_integrity_failure}

abbrev pub File : Type 0
File = Option Bytes

pub record Faults : Type 0 where
  pub read : Bool
  pub create_temp : Bool
  pub write : Bool
  pub chmod : Bool
  pub sync : Bool
  pub close : Bool
  pub rename : Bool
  pub open_dir : Bool
  pub sync_dir : Bool
  pub close_dir : Bool
  pub on_windows : Bool  -- runtimeGOOS == "windows"

abbrev pub no_faults : Faults
no_faults = record {
  read = false;
  create_temp = false;
  write = false;
  chmod = false;
  sync = false;
  close = false;
  rename = false;
  open_dir = false;
  sync_dir = false;
  close_dir = false;
  on_windows = false;
}

-- fsyncStateDir
unfoldable pub fsync_state_dir : Faults → Result Code (Unit {0})
fsync_state_dir f =
    if f.open_dir
    then (if f.on_windows then ok tt else err state_integrity_failure)
    else if f.sync_dir
    then (if f.on_windows then ok tt else err state_integrity_failure)
    else if f.close_dir
    then err state_integrity_failure
    else ok tt

-- atomicWriteFile
unfoldable pub atomic_write_file : Faults → Bytes → File → File × Result Code (Unit {0})
atomic_write_file f content file =
    if f.create_temp
    then (file, err state_integrity_failure)
    else if f.write
    then (file, err state_integrity_failure)
    else if f.chmod
    then (file, err state_integrity_failure)
    else if f.sync
    then (file, err state_integrity_failure)
    else if f.close
    then (file, err state_integrity_failure)
    else if f.rename
    then (file, err state_integrity_failure)
    else (some content, fsync_state_dir f)

-- The write is all or nothing: after it the file is as before or holds exactly the content, and it holds the
-- content when the write is reported done.
pub atomic_write_file_lem :
    (f : Faults) (content : Bytes) (file : File)
    → ((((atomic_write_file f content file).0 ≡ file)
          × ((atomic_write_file f content file).1 ≡ err state_integrity_failure))
        ⊎ ((atomic_write_file f content file).0 ≡ some content))
unfolding atomic_write_file
atomic_write_file_lem f content file = ground arith

pub atomic_write_file-ok :
    (f : Faults) (content : Bytes) (file : File)
    → (atomic_write_file f content file).1 ≡ ok tt
    → (atomic_write_file f content file).0 ≡ some content
unfolding atomic_write_file
atomic_write_file-ok f content file h = ground arith
