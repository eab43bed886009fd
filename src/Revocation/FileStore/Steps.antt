-- ===== src/Revocation/FileStore/Steps.antt =====
-- The ways one call of CheckAndSaveRevocationState on the file can end, next to the same call on the
-- in-memory store.
use grantseal.Prelude.{
  ltb, if◌then◌else◌, Bool, true, false, not, eqb, length, arith, Option, none, some, Bytes, ◌≡◌,
  ◌⊎◌, inl, inr, refl, ap, ◌∙◌, Bool-cases,
}
use grantseal.Prelude.Maps.{lookup, insert}
use grantseal.Prelude.Results.{Result, ok, err, ◌>>=◌}
use grantseal.Code.{Code, state_integrity_failure, revocation_state_integrity_failure}
use grantseal.AtomicFile.{File, Faults, no_faults, atomic_write_file, atomic_write_file_lem}
use grantseal.Payload.{max_revocation_file_size}
use grantseal.Revocation.State.{
  RevocationState, classify_revocation_transition, MemStore, commit, check_and_save,
}
use grantseal.Revocation.FileStore.{
  StateFile, FileLibrary, FileStore, check_entries_mac, check_state_file, or_no_bytes,
  or_no_entries, or_failure, entries_mac, load_file, encode_entries, as_persisted, write_content,
  write_entries, commit_decided, decide, check_and_save_state,
}
use grantseal.Revocation.FileStore.Loads.{load_file_readable, load_file_unreadable}

-- A store and a file failed: nothing changed. They agreed and there was nothing to write. Or the new entries are
-- in the file, whether or not the call could be reported done.
abbrev pub Outcome :
    FileLibrary
    → FileStore
    → RevocationState
    → MemStore
    → MemStore × Result Code (Unit {0})
    → File
    → File × Result Code (Unit {0})
    → Type 0
Outcome c s next m mem file r =
    ((r ≡ (file, err revocation_state_integrity_failure)) ⊎ ((r ≡ (file, mem.1)) × (mem.0 ≡ m)))
    ⊎ ((b : Bytes) × (r.0 ≡ some b)
        × (encode_entries c s (insert next.list_id next m) ≡ ok b)
        × ((r.1 ≡ ok tt) ⊎ (r.1 ≡ err revocation_state_integrity_failure))
        × (mem ≡ (insert next.list_id next m, ok tt)))

stored_failure :
    (r : File × Result Code (Unit {0})) (file : File)
    → r.0 ≡ file
    → r.1 ≡ err state_integrity_failure
    → ◌≡◌ {A = File × Result Code (Unit {0})}
        (r.0, as_persisted r.1)
        (file, err revocation_state_integrity_failure)
unfolding as_persisted
stored_failure r file h k = rw (h, k) refl

as_persisted-cases :
    (r : Result Code (Unit {0}))
    → (as_persisted r ≡ ok tt) ⊎ (as_persisted r ≡ err revocation_state_integrity_failure)
unfolding as_persisted
as_persisted-cases (ok u) = inl refl
as_persisted-cases (err e) = inr refl

module _ (c : FileLibrary) (s : FileStore) where
  encode_entries-err :
      (m : MemStore) (e : Code)
      → encode_entries c s m ≡ err e
      → e ≡ revocation_state_integrity_failure
  unfolding encode_entries entries_mac
  encode_entries-err m e h = failed (c.entries_json m) h
    where
      last :
          {A : Type 0} (o : Option A)
          → or_failure o ≡ err e
          → e ≡ revocation_state_integrity_failure
      last none h = cc
      last (some a) h = cc

      failed :
          (o : Option Bytes)
          → ((or_failure o >>= λ b. ok (c.hex_encode (c.hmac s.hmac_key b))) >>= λ mac.
              or_failure (c.file_json m mac))
            ≡ err e
          → e ≡ revocation_state_integrity_failure
      failed none h = cc
      failed (some b) h = last (c.file_json m (c.hex_encode (c.hmac s.hmac_key b))) h

  written_outcome :
      (f : Faults) (next : RevocationState) (m : MemStore) (file : File) (r : Result Code Bytes)
      → encode_entries c s (insert next.list_id next m) ≡ r
      → Outcome c s next m (insert next.list_id next m, ok tt) file (write_content c s f r file)
  unfolding write_content
  written_outcome f next m file (err e) h =
      inl (inl (ap (λ e. (file, err e)) (encode_entries-err (insert next.list_id next m) e h)))
  written_outcome f next m file (ok b) h = elim (atomic_write_file_lem f b file) [
    | inl (same, failed) ↦ inl (inl (stored_failure (atomic_write_file f b file) file same failed))
    | inr stored ↦ inr (b, stored, h, as_persisted-cases (atomic_write_file f b file).1, refl)
  ]

  decided_outcome :
      (f : Faults) (next : RevocationState) (m : MemStore) (file : File) (d : Result Code Bool)
      → Outcome c s next m (commit d next m) file (commit_decided c s f d next m file)
  unfolding commit commit_decided write_entries
  decided_outcome f next m file (err e) = inl (inr (refl, refl))
  decided_outcome f next m file (ok false) = inl (inr (refl, refl))
  decided_outcome f next m file (ok true) =
      written_outcome f next m file (encode_entries c s (insert next.list_id next m)) refl

  check_state_file-err :
      (f : StateFile) (e : Code)
      → check_state_file c s f ≡ err e
      → e ≡ revocation_state_integrity_failure
  unfolding check_state_file entries_mac check_entries_mac
  check_state_file-err f e h = tagged (c.entries_json (or_no_entries f.entries)) h
    where
      compared :
          (b : Bool)
          → (if b then err revocation_state_integrity_failure else ok (or_no_entries f.entries))
            ≡ err e
          → e ≡ revocation_state_integrity_failure
      compared true h = cc
      compared false h = cc

      tested :
          (o : Option Bytes) (w : Bytes)
          → (or_failure o >>= λ got.
              if not (eqb got w)
              then err revocation_state_integrity_failure
              else ok (or_no_entries f.entries))
            ≡ err e
          → e ≡ revocation_state_integrity_failure
      tested none w h = cc
      tested (some got) w h = compared (not (eqb got w)) h

      tagged :
          (o : Option Bytes)
          → ((or_failure o >>= λ b. ok (c.hex_encode (c.hmac s.hmac_key b)))
              >>= check_entries_mac c s (or_no_entries f.entries) f.mac)
            ≡ err e
          → e ≡ revocation_state_integrity_failure
      tagged none h = cc
      tagged (some b) h =
          tested (c.hex_decode f.mac)
            (or_no_bytes (c.hex_decode (c.hex_encode (c.hmac s.hmac_key b)))) h

  pub check_and_save_state-Outcome :
      (f : Faults) (next : RevocationState) (m : MemStore) (file : File)
      → load_file c s no_faults file ≡ ok m
      → Outcome c s next m
          (check_and_save (some next) m)
          file
          (check_and_save_state c s f (some next) file)
  unfolding check_and_save_state decide check_and_save
  check_and_save_state-Outcome f next m file h = elim (Bool-cases f.read) [
    | inl failed ↦ inl (inl (rw (load_file_unreadable c s f file failed) refl))
    | inr read ↦ rw (load_file_readable c s f file read ∙ h) (
        decided_outcome f next m file
          (classify_revocation_transition (lookup next.list_id m) (some next)))
  ]

  load_file-err :
      (f : Faults) (file : File) (e : Code)
      → load_file c s f file ≡ err e
      → e ≡ revocation_state_integrity_failure
  unfolding load_file
  load_file-err f none e h = ground arith
  load_file-err f (some content) e h = read f.read (ltb max_revocation_file_size (length content)) h
    where
      read :
          (unread long : Bool)
          → (if unread
              then err revocation_state_integrity_failure
              else if long
              then err revocation_state_integrity_failure
              else (or_failure (c.read_json content) >>= check_state_file c s))
            ≡ err e
          → e ≡ revocation_state_integrity_failure
      read true long h = cc
      read false true h = cc
      read false false h = decoded (c.read_json content) h
        where
          decoded :
              (o : Option StateFile)
              → (or_failure o >>= check_state_file c s) ≡ err e
              → e ≡ revocation_state_integrity_failure
          decoded none h = cc
          decoded (some g) h = check_state_file-err g e h

  -- A file that does not load is refused by every call, and stays as it is.
  pub undecided :
      (f : Faults) (next : RevocationState) (file : File) (e : Code)
      → load_file c s no_faults file ≡ err e
      → check_and_save_state c s f (some next) file ≡ (file, err revocation_state_integrity_failure)
  unfolding check_and_save_state decide
  undecided f next file e h = elim (Bool-cases f.read) [
    | inl failed ↦ rw (load_file_unreadable c s f file failed) refl
    | inr read ↦ rw (load_file_readable c s f file read ∙ h, load_file-err no_faults file e h) refl
  ]

  -- A refusal by the decision is the answer, where the file can be read.
  pub decided-err :
      (f : Faults) (next : RevocationState) (m : MemStore) (file : File) (e : Code)
      → load_file c s no_faults file ≡ ok m
      → classify_revocation_transition (lookup next.list_id m) (some next) ≡ err e
      → (check_and_save_state c s f (some next) file ≡ (file, err e))
        ⊎ (check_and_save_state c s f (some next) file
            ≡ (file, err revocation_state_integrity_failure))
  unfolding check_and_save_state decide commit_decided
  decided-err f next m file e h d = elim (Bool-cases f.read) [
    | inl failed ↦ inr (rw (load_file_unreadable c s f file failed) refl)
    | inr read ↦ inl (rw (load_file_readable c s f file read ∙ h, d) refl)
  ]
