-- ===== src/Issuer/KeyFiles.antt =====
-- The two key files of a key id in internal/issuer/keygen.go: WriteKeyFiles, commitStagedKeyFiles and their
-- helpers. A target file and its backup are a slot; a failure of each system call is given, and any of them
-- can be given together.
pub mod Commit
pub mod Written
mod Tests
use grantseal.Prelude.{
  if◌then◌else◌, Bool, true, false, ◌||◌, not, Option, none, some, [], ◌∷◌, ◌++◌, Bytes, eqb,
  is_nil,
}
use grantseal.Prelude.Results.{Result, ok, err, ◌>>=◌, ◌>>◌, fail_if}
use grantseal.Issuer.PrivateKey.{
  KeyError, empty_key_id, generate_key, mkdir, refusing_to_overwrite, stat_key, stage_key,
  verify_pair, back_up_private, back_up_public, commit_private, sync_after_private, commit_public,
  sync_after_public, chmod_private, read_key, KeyLibrary, KeyFile, trim_space, or_decode_base64,
  load_private_key, public_key_base64, private_key_base64,
}

pub record KeyPair : Type 0 where
  pub key_id : Bytes
  pub public_key : Bytes
  pub private_key : Bytes

-- GenerateKeyPair, with the public and the private key that ed25519.GenerateKey gives
unfoldable pub generate_key_pair : Bytes → Option (Bytes × Bytes) → Result KeyError KeyPair
generate_key_pair key_id none = if is_nil key_id then err empty_key_id else err generate_key
generate_key_pair key_id (some (public, private)) =
    if is_nil key_id
    then err empty_key_id
    else ok (record { key_id = key_id; public_key = public; private_key = private })

-- A target path and the name of its backup.
pub record Slot : Type 0 where
  pub target : Option KeyFile
  pub backup : Option KeyFile

-- The failures of the calls for one slot: os.Stat, os.CreateTemp and the rename of backupExisting, the
-- removal and the rename of restoreBackup, and the removal of removeBackup.
pub record SlotFaults : Type 0 where
  pub stat : Bool
  pub create_temp : Bool
  pub rename_aside : Bool
  pub remove : Bool
  pub rename_back : Bool
  pub discard : Bool

-- backupExisting of a target that was found, or of one that does not exist
unfoldable pub move_aside : SlotFaults → Slot → Option KeyFile → Slot × Bool
move_aside f s none = (s, true)
move_aside f s (some file) =
    if f.create_temp
    then (s, false)
    else if f.rename_aside
    then (s, false)
    else (record { target = none; backup = some file }, true)

-- backupExisting; the flag is false where it fails.
unfoldable pub backup_existing : SlotFaults → Slot → Slot × Bool
backup_existing f s = if f.stat then (s, false) else move_aside f s s.target

unfoldable pub restore_over : SlotFaults → Slot → Option KeyFile → Slot
restore_over f s none = s
restore_over f s (some file) =
    if f.rename_back
    then record { target = if f.remove then s.target else none; backup = s.backup }
    else record { target = some file; backup = none }

-- restoreBackup: a backup name that is empty is a backup that is not there.
unfoldable pub restore_backup : SlotFaults → Slot → Slot
restore_backup f s = restore_over f s s.backup

-- removeBackup
unfoldable pub remove_backup : SlotFaults → Slot → Slot
remove_backup f s = if f.discard then s else record { target = s.target; backup = none }

-- The failures of opening, syncing and closing the directory.
pub record DirFaults : Type 0 where
  pub open_dir : Bool
  pub sync_dir : Bool
  pub close_dir : Bool
  pub on_windows : Bool  -- runtimeGOOS == "windows"

-- fsyncDirIssuer; the flag is false where it fails.
unfoldable pub fsync_dir_issuer : DirFaults → Bool
fsync_dir_issuer f =
    if f.open_dir then f.on_windows else if f.sync_dir then f.on_windows else not f.close_dir

pub record CommitFaults : Type 0 where
  pub private : SlotFaults
  pub public : SlotFaults
  pub rename_private : Bool
  pub sync_private : DirFaults
  pub remove_private : Bool
  pub rename_public : Bool
  pub sync_public : DirFaults

pub record KeyDir : Type 0 where
  pub private : Slot
  pub public : Slot

abbrev pub put : KeyFile → Slot → Slot
put file s = record { target = some file; backup = s.backup }

-- os.Remove of a target
unfoldable pub clear : Bool → Slot → Slot
clear failed s = record { target = if failed then s.target else none; backup = s.backup }

-- commitStagedKeyFiles once both targets are moved aside
unfoldable pub commit_over :
    CommitFaults → KeyFile → KeyFile → Slot → Slot → KeyDir × Result KeyError (Unit {0})
commit_over f new_private new_public p q =
    if f.rename_private
    then (
      record { private = restore_backup f.private p; public = restore_backup f.public q },
      err commit_private,
    )
    else if not (fsync_dir_issuer f.sync_private)
    then (
      record {
        private = restore_backup f.private (clear f.remove_private (put new_private p));
        public = restore_backup f.public q;
      },
      err sync_after_private,
    )
    else if f.rename_public
    then (
      record {
        private = remove_backup f.private (put new_private p);
        public = restore_backup f.public q;
      },
      err commit_public,
    )
    else (
      record {
        private = remove_backup f.private (put new_private p);
        public = remove_backup f.public (put new_public q);
      },
      if fsync_dir_issuer f.sync_public then ok tt else err sync_after_public,
    )

-- commitStagedKeyFiles from the backup of the public key on
unfoldable pub commit_public_aside :
    CommitFaults → KeyFile → KeyFile → Slot → Slot × Bool → KeyDir × Result KeyError (Unit {0})
commit_public_aside f new_private new_public p (q, false) =
    (record { private = restore_backup f.private p; public = q }, err back_up_public)
commit_public_aside f new_private new_public p (q, true) = commit_over f new_private new_public p q

unfoldable pub commit_private_aside :
    CommitFaults → KeyFile → KeyFile → Slot → Slot × Bool → KeyDir × Result KeyError (Unit {0})
commit_private_aside f new_private new_public q (p, false) =
    (record { private = p; public = q }, err back_up_private)
commit_private_aside f new_private new_public q (p, true) =
    commit_public_aside f new_private new_public p (backup_existing f.public q)

-- commitStagedKeyFiles
unfoldable pub commit_staged_key_files :
    CommitFaults → KeyFile → KeyFile → KeyDir → KeyDir × Result KeyError (Unit {0})
commit_staged_key_files f new_private new_public d =
    commit_private_aside f new_private new_public d.public (backup_existing f.private d.private)

-- The failures of WriteKeyFiles: of the calls before the commit, those of the two stagings (each for any of its
-- five calls), of reading the staged files back, of the commit, and of the last chmod.
pub record WriteFaults : Type 0 where
  pub make_dir : Bool
  pub stat_private : Bool
  pub stat_public : Bool
  pub stage_private : Bool
  pub stage_public : Bool
  pub read_private : Bool
  pub read_public : Bool
  pub commit : CommitFaults
  pub chmod : Bool
  pub on_windows : Bool

abbrev pub no_slot_faults : SlotFaults
no_slot_faults = record {
  stat = false;
  create_temp = false;
  rename_aside = false;
  remove = false;
  rename_back = false;
  discard = false;
}

abbrev pub no_dir_faults : DirFaults
no_dir_faults = record { open_dir = false; sync_dir = false; close_dir = false; on_windows = false }

abbrev pub no_commit_faults : CommitFaults
no_commit_faults = record {
  private = no_slot_faults;
  public = no_slot_faults;
  rename_private = false;
  sync_private = no_dir_faults;
  remove_private = false;
  rename_public = false;
  sync_public = no_dir_faults;
}

abbrev pub no_write_faults : WriteFaults
no_write_faults = record {
  make_dir = false;
  stat_private = false;
  stat_public = false;
  stage_private = false;
  stage_public = false;
  read_private = false;
  read_public = false;
  commit = no_commit_faults;
  chmod = false;
  on_windows = false;
}

abbrev pub is_there : Option KeyFile → Bool
is_there none = false
is_there (some file) = true

-- stageKeyFile
unfoldable pub stage_key_file : Bool → Bytes → Bool → Result KeyError KeyFile
stage_key_file failed content secret =
    if failed
    then err stage_key
    else ok (record { content = content; mode = if secret then 0o600 else 0o644 })

-- The check of WriteKeyFiles that is left out under force
unfoldable pub check_targets : WriteFaults → KeyDir → Result KeyError (Unit {0})
check_targets f d = do
  fail_if f.stat_private stat_key
  fail_if (is_there d.private.target) refusing_to_overwrite
  fail_if f.stat_public stat_key
  fail_if (is_there d.public.target) refusing_to_overwrite

module _ (lib : KeyLibrary) where
  -- verifyStagedPair
  unfoldable pub verify_staged_pair : WriteFaults → KeyFile → KeyFile → Result KeyError (Unit {0})
  verify_staged_pair f private public = do
    key ← load_private_key lib f.on_windows f.read_private private
    fail_if f.read_public read_key
    staged ← or_decode_base64 (lib.b64_decode (trim_space public.content))
    fail_if (not (eqb staged (lib.public_part key))) verify_pair

  -- WriteKeyFiles before the commit: the two staged files
  unfoldable pub stage_pair :
      WriteFaults → KeyPair → Bool → KeyDir → Result KeyError (KeyFile × KeyFile)
  stage_pair f kp force d = do
    fail_if f.make_dir mkdir
    if force then ok tt else check_targets f d
    private ←
        stage_key_file f.stage_private (private_key_base64 lib kp.private_key ++ (10 ∷ [])) true
    public ← stage_key_file f.stage_public (public_key_base64 lib kp.public_key ++ (10 ∷ [])) false
    verify_staged_pair f private public
    ok (private, public)

  -- WriteKeyFiles after the commit: os.Chmod of the private key
  unfoldable pub restrict :
      Bool → KeyDir × Result KeyError (Unit {0}) → KeyDir × Result KeyError (Unit {0})
  restrict failed (d, err e) = (d, err e)
  restrict failed (d, ok u) = (d, if failed then err chmod_private else ok tt)

  unfoldable pub commit_pair :
      WriteFaults
      → Result KeyError (KeyFile × KeyFile)
      → KeyDir
      → KeyDir × Result KeyError (Unit {0})
  commit_pair f (err e) d = (d, err e)
  commit_pair f (ok (private, public)) d =
      restrict f.chmod (commit_staged_key_files f.commit private public d)

  -- WriteKeyFiles
  unfoldable pub write_key_files :
      WriteFaults → KeyPair → Bool → KeyDir → KeyDir × Result KeyError (Unit {0})
  write_key_files f kp force d = commit_pair f (stage_pair f kp force d) d
