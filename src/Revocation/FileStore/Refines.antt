-- ===== src/Revocation/FileStore/Refines.antt =====
-- The file store implements the in-memory one.
use grantseal.Prelude.{
  ◌≤◌, Bool, true, false, if◌then◌else◌, Option, some, Bytes, length, eqb, ◌≡◌, ◌⊎◌, inl, inr, refl,
  ap, ◌∙◌, sym, subst,
}
use grantseal.Prelude.Maps.{lookup, insert, lookup-insert}
use grantseal.Prelude.Results.{Result, ok, err}
use grantseal.Code.{Code, revocation_state_integrity_failure}
use grantseal.AtomicFile.{File, Faults, no_faults, atomic_write_file, fsync_state_dir}
use grantseal.Payload.{max_revocation_file_size}
use grantseal.Revocation.State.{
  RevocationState, classify_revocation_transition, MemStore, commit, check_and_save,
}
use grantseal.Revocation.FileStore.{
  FileLibrary, FileStore, load_file, encode_entries, check_and_save_state, commit_decided, decide,
  write_entries, write_content, as_persisted,
}
use grantseal.Revocation.FileStore.Loads.{
  Same, IsFileLibrary, load_file-AllText, insert-AllText, encode_entries-load_file,
}
use grantseal.Revocation.FileStore.Steps.{Outcome, check_and_save_state-Outcome}

-- The file loads, to these entries in some order.
abbrev pub Holds : FileLibrary → FileStore → File → MemStore → Type 0
Holds c s file m = (n : MemStore) × (load_file c s no_faults file ≡ ok n) × Same n m

-- Whatever the encoding of these entries is, it is at most 4 MB.
abbrev pub Fits : FileLibrary → FileStore → MemStore → Type 0
Fits c s m =
    (n : MemStore) (b : Bytes)
    → Same n m
    → encode_entries c s n ≡ ok b
    → length b ≤ max_revocation_file_size

-- How a call on the file relates to the call on the in-memory store: the file holds the entries of before or
-- those of after, a call that is reported done was done, with the answer of the in-memory store, and an answer
-- that is not the in-memory one is the integrity failure.
abbrev pub Implements :
    FileLibrary
    → FileStore
    → MemStore
    → MemStore × Result Code (Unit {0})
    → File × Result Code (Unit {0})
    → Type 0
Implements c s m mem r =
    (Holds c s r.0 m ⊎ Holds c s r.0 mem.0)
    × (r.1 ≡ ok tt → (mem.1 ≡ ok tt) × Holds c s r.0 mem.0)
    × ((r.1 ≡ mem.1) ⊎ (r.1 ≡ err revocation_state_integrity_failure))

Same-insert :
    (st : RevocationState) (n m : MemStore)
    → Same n m
    → Same (insert st.list_id st n) (insert st.list_id st m)
Same-insert st n m h k =
    lookup-insert st.list_id k st n
    ∙ ap (λ o. if eqb st.list_id k then some st else o) (h k)
    ∙ sym (lookup-insert st.list_id k st m)

-- The decision is made on the mark of the list only, so the order of the entries does not matter.
commit-Same :
    (next : RevocationState) (n m : MemStore) (d : Result Code Bool)
    → Same n m
    → Same (commit d next n).0 (commit d next m).0 × ((commit d next n).1 ≡ (commit d next m).1)
unfolding commit
commit-Same next n m (err e) h = (h, refl)
commit-Same next n m (ok true) h = (Same-insert next n m h, refl)
commit-Same next n m (ok false) h = (h, refl)

check_and_save-Same :
    (next : RevocationState) (n m : MemStore)
    → Same n m
    → Same (check_and_save (some next) n).0 (check_and_save (some next) m).0
      × ((check_and_save (some next) n).1 ≡ (check_and_save (some next) m).1)
unfolding check_and_save
check_and_save-Same next n m h = at (lookup next.list_id n) (lookup next.list_id m) (h next.list_id)
  where
    at :
        (o p : Option RevocationState)
        → o ≡ p
        → Same
            (commit (classify_revocation_transition o (some next)) next n).0
            (commit (classify_revocation_transition p (some next)) next m).0
          × ((commit (classify_revocation_transition o (some next)) next n).1
              ≡ (commit (classify_revocation_transition p (some next)) next m).1)
    at o p e = rw e (commit-Same next n m (classify_revocation_transition p (some next)) h)

module _ (c : FileLibrary) (laws : IsFileLibrary c) (s : FileStore) where
  Holds-Same : (file : File) (n m : MemStore) → Same n m → Holds c s file n → Holds c s file m
  Holds-Same file n m h (k, l, same) = (k, l, λ j. same j ∙ h j)

  -- The same, next to the entries as they are loaded.
  loaded_Implements :
      (next : RevocationState) (n : MemStore) (file : File) (r : File × Result Code (Unit {0}))
      → load_file c s no_faults file ≡ ok n
      → laws.IsText next.list_id next
      → Fits c s (check_and_save (some next) n).0
      → Outcome c s next n (check_and_save (some next) n) file r
      → Implements c s n (check_and_save (some next) n) r
  loaded_Implements next n file r l t fits (inl (inl same)) =
      rw same (inl (n, l, λ k. refl), λ d. absurd (cc), inr refl)
  loaded_Implements next n file r l t fits (inl (inr (same, u))) =
      rw (same, u) (inl (n, l, λ k. refl), λ d. (d, (n, l, λ k. refl)), inl refl)
  loaded_Implements next n file r l t fits (inr (b, stored, h, said, mem)) =
      let now : Holds c s r.0 (check_and_save (some next) n).0 =
        rw (stored, mem)
          (encode_entries-load_file c laws s (insert next.list_id next n) b
            (insert-AllText c laws s next n t (load_file-AllText c laws s no_faults file n l)) h
            (fits (insert next.list_id next n) b (λ k. ap (λ p. lookup k p.0) (sym mem)) h)) in
      (inr now, λ d. (ap (λ p. p.1) mem, now), last said)
    where
      last :
          ((r.1 ≡ ok tt) ⊎ (r.1 ≡ err revocation_state_integrity_failure))
          → (r.1 ≡ (check_and_save (some next) n).1)
            ⊎ (r.1 ≡ err revocation_state_integrity_failure)
      last (inl d) = inl (d ∙ sym (ap (λ p. p.1) mem))
      last (inr e) = inr e

  held_Same :
      (r : File × Result Code (Unit {0})) (n m x y : MemStore)
      → Same n m
      → Same x y
      → (Holds c s r.0 n ⊎ Holds c s r.0 x)
      → Holds c s r.0 m ⊎ Holds c s r.0 y
  held_Same r n m x y h k (inl a) = inl (Holds-Same r.0 n m h a)
  held_Same r n m x y h k (inr a) = inr (Holds-Same r.0 x y k a)

  -- One call on a file that holds the entries of an in-memory store, with any failures, implements the call on
  -- that store, as long as JSON carries the mark and the result is at most 4 MB.
  pub check_and_save_state-Implements :
      (f : Faults) (next : RevocationState) (m : MemStore) (file : File)
      → Holds c s file m
      → laws.IsText next.list_id next
      → Fits c s (check_and_save (some next) m).0
      → Implements c s m
          (check_and_save (some next) m)
          (check_and_save_state c s f (some next) file)
  check_and_save_state-Implements f next m file (n, l, same) t fits =
      let (stores, answers) = check_and_save-Same next n m same in
      let (held, done, said) =
        loaded_Implements next n file (check_and_save_state c s f (some next) file) l t
          (λ k b h. fits k b (λ j. h j ∙ stores j))
          (check_and_save_state-Outcome c s f next n file l) in
      (
        held_Same (check_and_save_state c s f (some next) file) n m (check_and_save (some next) n).0
            (check_and_save (some next) m).0 same stores held,
        λ d. (
          sym answers ∙ (done d).0,
          Holds-Same (check_and_save_state c s f (some next) file).0
              (check_and_save (some next) n).0 (check_and_save (some next) m).0 stores (done d).1,
        ),
        subst
            (λ a.
              ((check_and_save_state c s f (some next) file).1 ≡ a)
              ⊎ ((check_and_save_state c s f (some next) file).1
                  ≡ err revocation_state_integrity_failure))
            answers said,
      )

  decided_exact :
      (next : RevocationState) (n : MemStore) (file : File) (d : Result Code Bool)
      → ((b : Bytes) × (encode_entries c s (commit d next n).0 ≡ ok b))
      → (commit_decided c s no_faults d next n file).1 ≡ (commit d next n).1
  unfolding commit commit_decided write_entries write_content atomic_write_file as_persisted
      fsync_state_dir
  decided_exact next n file (err e) w = refl
  decided_exact next n file (ok true) (b, h) = rw h refl
  decided_exact next n file (ok false) w = refl

  loaded_exact :
      (next : RevocationState) (n : MemStore) (file : File)
      → load_file c s no_faults file ≡ ok n
      → ((b : Bytes) × (encode_entries c s (check_and_save (some next) n).0 ≡ ok b))
      → (check_and_save_state c s no_faults (some next) file).1 ≡ (check_and_save (some next) n).1
  unfolding check_and_save_state decide check_and_save
  loaded_exact next n file l w = rw l (
      decided_exact next n file (classify_revocation_transition (lookup next.list_id n) (some next))
        w)

  -- When nothing fails and JSON encodes the resulting entries, the call gives the answer of the in-memory
  -- store.
  pub check_and_save_state_exact :
      (next : RevocationState) (m : MemStore) (file : File)
      → Holds c s file m
      → ((n : MemStore)
          → Same n (check_and_save (some next) m).0
          → (b : Bytes) × (encode_entries c s n ≡ ok b))
      → (check_and_save_state c s no_faults (some next) file).1 ≡ (check_and_save (some next) m).1
  check_and_save_state_exact next m file (n, l, same) encodes =
      let (stores, answers) = check_and_save-Same next n m same in
      loaded_exact next n file l (encodes (check_and_save (some next) n).0 stores) ∙ answers
