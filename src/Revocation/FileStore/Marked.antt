-- ===== src/Revocation/FileStore/Marked.antt =====
-- The marks of the file over the calls of CheckAndSaveRevocationState, whatever fails.
use grantseal.Prelude.{
  ◌<◌, Option, none, some, List, [], ◌∷◌, Bytes, ◌≡◌, ◌⊎◌, inl, inr, ap, ◌∙◌, sym, subst, arith,
}
use grantseal.Prelude.Options.{of_some}
use grantseal.Prelude.Maps.{lookup, insert}
use grantseal.Prelude.Results.{Result, ok, err, Result-cases, of_ok}
use grantseal.Code.{Code, revocation_stale, revocation_state_integrity_failure}
use grantseal.AtomicFile.{File, Faults, no_faults}
use grantseal.Revocation.State.{
  RevocationState, classify, classify_revocation_transition, MemStore, check_and_save,
}
use grantseal.Revocation.State.Marks.{
  Advances, Advances-trans, Keeps, check_and_save-Keeps, check_and_save_self, check_and_save-answer,
  classify_refusals,
}
use grantseal.Revocation.State.Replay.{Keeps-some, accepted_mark}
use grantseal.Revocation.FileStore.{
  FileLibrary, FileStore, load_file, encode_entries, check_and_save_state, run_states,
}
use grantseal.Revocation.FileStore.Loads.{
  Same, IsFileLibrary, load_file-AllText, insert-AllText, written_load,
}
use grantseal.Revocation.FileStore.Steps.{
  Outcome, check_and_save_state-Outcome, undecided, decided-err,
}

-- Whatever loads of the file has a mark of the list of `a` that is `a` or ahead of it.
abbrev pub Guards : FileLibrary → FileStore → RevocationState → File → Type 0
Guards c s a file =
    (m : MemStore)
    → load_file c s no_faults file ≡ ok m
    → (st : RevocationState) × (lookup a.list_id m ≡ some st) × Advances a st

-- Each call of a history is of a mark that JSON carries as it is.
abbrev pub AllCarried :
    {c : FileLibrary} → IsFileLibrary c → List (Faults × RevocationState) → Type 0
AllCarried laws [] = Unit
AllCarried laws ((f, next) ∷ calls) = laws.IsText next.list_id next × AllCarried laws calls

module _ (c : FileLibrary) (laws : IsFileLibrary c) (s : FileStore) where
  marked_by :
      (a : RevocationState) (m n : MemStore)
      → Same n m
      → ((st : RevocationState) × (lookup a.list_id m ≡ some st) × Advances a st)
      → (st : RevocationState) × (lookup a.list_id n ≡ some st) × Advances a st
  marked_by a m n same (st, h, w) = (st, same a.list_id ∙ h, w)

  kept :
      (a next : RevocationState) (m : MemStore)
      → ((st : RevocationState) × (lookup a.list_id m ≡ some st) × Advances a st)
      → (st : RevocationState) × (lookup a.list_id (check_and_save (some next) m).0 ≡ some st)
        × Advances a st
  kept a next m (st, h, w) =
      let (t, ht, further) = Keeps-some st (lookup a.list_id (check_and_save (some next) m).0) (
        subst (λ o. Keeps o (lookup a.list_id (check_and_save (some next) m).0)) h
          (check_and_save-Keeps next m a.list_id)) in
      (t, ht, Advances-trans a st t w further)

  -- What is written is the entries of the in-memory store after the same call.
  written_Guards :
      (a next : RevocationState) (m : MemStore) (file : File) (b : Bytes)
      → load_file c s no_faults file ≡ ok m
      → laws.IsText next.list_id next
      → encode_entries c s (insert next.list_id next m) ≡ ok b
      → ((st : RevocationState) × (lookup a.list_id (insert next.list_id next m) ≡ some st)
          × Advances a st)
      → Guards c s a (some b)
  written_Guards a next m file b l t h w n ln =
      marked_by a (insert next.list_id next m) n
        (written_load c laws s (insert next.list_id next m) n b
          (insert-AllText c laws s next m t (load_file-AllText c laws s no_faults file m l)) h ln)
        w

  step_Guards :
      (a next : RevocationState) (m : MemStore) (file : File) (r : File × Result Code (Unit {0}))
      → load_file c s no_faults file ≡ ok m
      → laws.IsText next.list_id next
      → ((st : RevocationState) × (lookup a.list_id m ≡ some st) × Advances a st)
      → Guards c s a file
      → Outcome c s next m (check_and_save (some next) m) file r
      → Guards c s a r.0
  step_Guards a next m file r l t w g (inl (inl same)) =
      subst (Guards c s a) (sym (ap (λ r. r.0) same)) g
  step_Guards a next m file r l t w g (inl (inr (same, u))) =
      subst (Guards c s a) (sym (ap (λ r. r.0) same)) g
  step_Guards a next m file r l t w g (inr (b, stored, h, said, mem)) =
      subst (Guards c s a) (sym stored) (
        written_Guards a next m file b l t h (
          subst (λ p. (st : RevocationState) × (lookup a.list_id p.0 ≡ some st) × Advances a st) mem
            (kept a next m w)))

  -- Whatever the call answers, and whichever of its system calls fail, the file stays guarded.
  pub check_and_save_state-Guards :
      (f : Faults) (a next : RevocationState) (file : File)
      → laws.IsText next.list_id next
      → Guards c s a file
      → Guards c s a (check_and_save_state c s f (some next) file).0
  check_and_save_state-Guards f a next file t g =
      elim (Result-cases (load_file c s no_faults file)) [
        | inl (m, l) ↦
            step_Guards a next m file (check_and_save_state c s f (some next) file) l t (g m l) g
              (check_and_save_state-Outcome c s f next m file l)
        | inr (e, l) ↦ subst (Guards c s a) (sym (ap (λ r. r.0) (undecided c s f next file e l))) g
      ]

  run_states-Guards :
      (calls : List (Faults × RevocationState)) (a : RevocationState) (file : File)
      → AllCarried laws calls
      → Guards c s a file
      → Guards c s a (run_states c s calls file)
  unfolding run_states
  run_states-Guards [] a file t g = g
  run_states-Guards ((f, next) ∷ calls) a file (t, ts) g =
      run_states-Guards calls a (check_and_save_state c s f (some next) file).0 ts
        (check_and_save_state-Guards f a next file t g)

  mark_after :
      (next : RevocationState) (m : MemStore)
      → (check_and_save (some next) m).1 ≡ ok tt
      → (st : RevocationState) × (lookup next.list_id (check_and_save (some next) m).0 ≡ some st)
        × Advances next st
  mark_after next m h =
      let (st, e, w) =
        accepted_mark (lookup next.list_id m) next (sym (check_and_save-answer next m) ∙ h) in
      (st, check_and_save_self next m ∙ e, w)

  done_Guards :
      (next : RevocationState) (m : MemStore) (file : File) (r : File × Result Code (Unit {0}))
      → load_file c s no_faults file ≡ ok m
      → laws.IsText next.list_id next
      → r.1 ≡ ok tt
      → Outcome c s next m (check_and_save (some next) m) file r
      → Guards c s next r.0
  done_Guards next m file r l t d (inl (inl same)) = absurd (failed (sym (ap (λ r. r.1) same) ∙ d))
    where
      failed : ◌≡◌ {A = Result Code (Unit {0})} (err revocation_state_integrity_failure) (ok tt) → ⊥
      failed h = absurd (cc)
  done_Guards next m file r l t d (inl (inr (same, u))) =
      subst (Guards c s next) (sym (ap (λ r. r.0) same)) (λ n ln.
        subst (λ n. (st : RevocationState) × (lookup next.list_id n ≡ some st) × Advances next st)
          (u ∙ of_ok (sym l ∙ ln)) (mark_after next m (sym (ap (λ r. r.1) same) ∙ d)))
  done_Guards next m file r l t d (inr (b, stored, h, said, mem)) =
      subst (Guards c s next) (sym stored) (
        written_Guards next next m file b l t h (
          subst
            (λ p. (st : RevocationState) × (lookup next.list_id p.0 ≡ some st) × Advances next st)
            mem (mark_after next m (ap (λ p. p.1) mem))))

  -- A call that is reported done leaves a file that guards its mark.
  pub check_and_save_state-ok :
      (f : Faults) (next : RevocationState) (file : File)
      → laws.IsText next.list_id next
      → (check_and_save_state c s f (some next) file).1 ≡ ok tt
      → Guards c s next (check_and_save_state c s f (some next) file).0
  check_and_save_state-ok f next file t d = elim (Result-cases (load_file c s no_faults file)) [
    | inl (m, l) ↦
        done_Guards next m file (check_and_save_state c s f (some next) file) l t d
          (check_and_save_state-Outcome c s f next m file l)
    | inr (e, l) ↦ absurd (failed (sym (ap (λ r. r.1) (undecided c s f next file e l)) ∙ d))
  ]
    where
      failed : {e : Code} → ◌≡◌ {A = Result Code (Unit {0})} (err e) (ok tt) → ⊥
      failed h = absurd (cc)

  stale_over :
      (st old : RevocationState) (o : Option RevocationState)
      → o ≡ some st
      → old.sequence < st.sequence
      → classify_revocation_transition o (some old) ≡ err revocation_stale
  unfolding classify_revocation_transition
  stale_over st old none h w = cc
  stale_over st old (some t) h w =
      ap (λ t. classify t old) (of_some h) ∙ (classify_refusals st old).0.1 w

  refused_older :
      (g : Faults) (next old : RevocationState) (file : File)
      → Guards c s next file
      → old.list_id ≡ next.list_id
      → old.sequence < next.sequence
      → (check_and_save_state c s g (some old) file ≡ (file, err revocation_stale))
        ⊎ (check_and_save_state c s g (some old) file
            ≡ (file, err revocation_state_integrity_failure))
  refused_older g next old file guarded id lower =
      elim (Result-cases (load_file c s no_faults file)) [
        | inl (m, l) ↦
            let (st, met, ahead) = guarded m l in
            decided-err c s g old m file revocation_stale l
              (stale_over st old (lookup old.list_id m) (rw id met) (below st ahead))
        | inr (e, l) ↦ inr (undecided c s g old file e l)
      ]
    where
      below : (st : RevocationState) → Advances next st → old.sequence < st.sequence
      below st a = ground arith

  -- Replay on the file: once a call was reported done, and after any further calls with any failures, an older
  -- list of that id is refused and the file stays as it is: as stale, or as an integrity failure where the file
  -- cannot be read. JSON carries the texts of all these lists as they are.
  pub no_replay_on_file :
      (f g : Faults) (next old : RevocationState) (calls : List (Faults × RevocationState))
      (file : File)
      → laws.IsText next.list_id next
      → AllCarried laws calls
      → (check_and_save_state c s f (some next) file).1 ≡ ok tt
      → old.list_id ≡ next.list_id
      → old.sequence < next.sequence
      → let here = run_states c s calls (check_and_save_state c s f (some next) file).0 in
        (check_and_save_state c s g (some old) here ≡ (here, err revocation_stale))
        ⊎ (check_and_save_state c s g (some old) here
            ≡ (here, err revocation_state_integrity_failure))
  no_replay_on_file f g next old calls file t ts d id lower =
      refused_older g next old
        (run_states c s calls (check_and_save_state c s f (some next) file).0)
        (run_states-Guards calls next (check_and_save_state c s f (some next) file).0 ts
          (check_and_save_state-ok f next file t d))
        id lower
