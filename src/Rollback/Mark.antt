-- ===== src/Rollback/Mark.antt =====
-- The high-water mark over the calls of CheckAndSave.
use grantseal.Prelude.{
  ◌+◌, ◌≤◌, ◌<◌, false, Option, none, some, List, [], ◌∷◌, Bytes, ◌≡◌, ◌⊎◌, inl, inr, refl, ap, ◌∙◌,
  sym, subst, arith, Bool-cases,
}
use grantseal.Prelude.Results.{Result, ok, err, ◌>>=◌}
use grantseal.Code.{Code, state_integrity_failure, clock_rollback}
use grantseal.Time.{Time}
use grantseal.AtomicFile.{File, Faults, atomic_write_file_lem, atomic_write_file-ok}
use grantseal.Rollback.{
  RollbackState, Codec, RollbackStore, check_rollback, load, encode, write_encoded, save,
  save_checked, check_and_save, run,
}
use grantseal.Rollback.Check.{check_rollback_iff}
use grantseal.Rollback.Load.{IsCodec, HasMark, load_readable, load_unreadable, encode-load}

-- A state file that cannot be read or authenticated is never reset: the call answers with the error and the
-- file stays as it is.
pub corrupt_file_kept :
    (c : Codec) (s : RollbackStore) (f : Faults) (now : Time) (file : File) (e : Code)
    → load c s f file ≡ err e
    → check_and_save c s f now file ≡ (file, err e)
unfolding check_and_save save_checked
corrupt_file_kept c s f now file e h = rw h refl

HasMark-down :
    (c : Codec) (s : RollbackStore) (t u : Time) (file : File)
    → t ≤ u
    → HasMark c s u file
    → HasMark c s t file
HasMark-down c s t u file h (st, l, w) = (st, l, ground arith)

module _ (c : Codec) (laws : IsCodec c) (s : RollbackStore) where
  written_HasMark :
      (f : Faults) (st : RollbackState) (r : Result Code Bytes) (file : File)
      → encode c s st ≡ r
      → ((write_encoded c f r file).0 ≡ file)
        ⊎ HasMark c s st.last_trusted_time (write_encoded c f r file).0
  unfolding write_encoded
  written_HasMark f st (err e) file h = inl refl
  written_HasMark f st (ok b) file h = elim (atomic_write_file_lem f b file) [
    | inl (same, failed) ↦ inl same
    | inr stored ↦
        inr (subst (HasMark c s st.last_trusted_time) (sym stored) (encode-load c laws s st b h))
  ]

  done_HasMark :
      (f : Faults) (st : RollbackState) (r : Result Code Bytes) (file : File)
      → encode c s st ≡ r
      → (write_encoded c f r file).1 ≡ ok tt
      → HasMark c s st.last_trusted_time (write_encoded c f r file).0
  unfolding write_encoded
  done_HasMark f st (err e) file h d = cc
  done_HasMark f st (ok b) file h d =
      subst (HasMark c s st.last_trusted_time) (sym (atomic_write_file-ok f b file d))
        (encode-load c laws s st b h)

  -- The decision keeps a mark that the file has: the state to be saved is no earlier.
  decided_mark :
      (t now : Time) (prev : RollbackState) (next : RollbackState)
      → t ≤ prev.last_trusted_time
      → check_rollback s.skew (some prev) now ≡ ok next
      → t ≤ next.last_trusted_time
  decided_mark t now prev next h e =
      let facts = (check_rollback_iff s.skew prev now).1 next e in ground arith

  saved_HasMark :
      (f : Faults) (t now : Time) (prev : RollbackState) (file : File)
      (r : Result Code RollbackState)
      → HasMark c s t file
      → t ≤ prev.last_trusted_time
      → check_rollback s.skew (some prev) now ≡ r
      → HasMark c s t (save_checked c s f r file).0
  unfolding save_checked save
  saved_HasMark f t now prev file (err e) had h d = had
  saved_HasMark f t now prev file (ok next) had h d =
      elim (written_HasMark f next (encode c s next) file refl) [
        | inl same ↦ subst (HasMark c s t) (sym same) had
        | inr marked ↦
            HasMark-down c s t next.last_trusted_time (write_encoded c f (encode c s next) file).0
              (decided_mark t now prev next h d) marked
      ]

  readable_HasMark :
      (f : Faults) (now t : Time) (file : File)
      → f.read ≡ false
      → HasMark c s t file
      → HasMark c s t (check_and_save c s f now file).0
  unfolding check_and_save
  readable_HasMark f now t file h (st, l, w) =
      rw (load_readable c s f file h ∙ l)
        (saved_HasMark f t now st file (check_rollback s.skew (some st) now) (st, l, w) w refl)

  -- Whatever the call answers, and whichever of its system calls fail, a file that had a mark still loads,
  -- with a mark that is no earlier.
  pub check_and_save-HasMark :
      (f : Faults) (now t : Time) (file : File)
      → HasMark c s t file
      → HasMark c s t (check_and_save c s f now file).0
  check_and_save-HasMark f now t file h = elim (Bool-cases f.read) [
    | inl failed ↦
        subst (HasMark c s t)
          (sym (
            ap (λ p. p.0)
              (corrupt_file_kept c s f now file state_integrity_failure
                (load_unreadable c s f file failed))))
          h
    | inr read ↦ readable_HasMark f now t file read h
  ]

  -- However many calls follow one another, with any failures, the mark never regresses.
  pub run-HasMark :
      (calls : List (Faults × Time)) (t : Time) (file : File)
      → HasMark c s t file
      → HasMark c s t (run c s calls file)
  unfolding run
  run-HasMark [] t file h = h
  run-HasMark ((f, now) ∷ calls) t file h =
      run-HasMark calls t (check_and_save c s f now file).0 (check_and_save-HasMark f now t file h)

  next_is_later :
      (prev : Option RollbackState) (now : Time) (next : RollbackState)
      → check_rollback s.skew prev now ≡ ok next
      → now ≤ next.last_trusted_time
  next_is_later none now next e = first e
    where
      first : check_rollback s.skew none now ≡ ok next → now ≤ next.last_trusted_time
      first e = unfold check_rollback in ground arith
  next_is_later (some prev) now next e =
      let facts = (check_rollback_iff s.skew prev now).1 next e in ground arith

  accepted_by :
      (f : Faults) (now : Time) (file : File) (l : Result Code (Option RollbackState))
      → (save_checked c s f (l >>= λ prev. check_rollback s.skew prev now) file).1 ≡ ok tt
      → HasMark c s now (save_checked c s f (l >>= λ prev. check_rollback s.skew prev now) file).0
  accepted_by f now file (err e) h = refused h
    where
      refused :
          (save_checked c s f (err e) file).1 ≡ ok tt
          → HasMark c s now (save_checked c s f (err e) file).0
      refused h = unfold save_checked in cc
  accepted_by f now file (ok prev) h = go (check_rollback s.skew prev now) refl h
    where
      go :
          (r : Result Code RollbackState)
          → check_rollback s.skew prev now ≡ r
          → (save_checked c s f r file).1 ≡ ok tt
          → HasMark c s now (save_checked c s f r file).0
      go (err e) d h = unfold save_checked in cc
      go (ok next) d h =
          unfold save_checked save in
          HasMark-down c s now next.last_trusted_time (write_encoded c f (encode c s next) file).0
            (next_is_later prev now next d) (done_HasMark f next (encode c s next) file refl h)

  -- A call that is reported done leaves a file that loads, with a mark at its time or later.
  pub check_and_save-ok :
      (f : Faults) (now : Time) (file : File)
      → (check_and_save c s f now file).1 ≡ ok tt
      → HasMark c s now (check_and_save c s f now file).0
  unfolding check_and_save
  check_and_save-ok f now file h = accepted_by f now file (load c s f file) h

  refused_at :
      (f : Faults) (t now : Time) (file : File)
      → HasMark c s t file
      → f.read ≡ false
      → (now + s.skew) < t
      → check_and_save c s f now file ≡ (file, err clock_rollback)
  unfolding check_and_save save_checked
  refused_at f t now file (st, l, w) read behind =
      rw (load_readable c s f file read ∙ l, (check_rollback_iff s.skew st now).0.1 (lower st w))
        refl
    where
      lower :
          (st : RollbackState) → t ≤ st.last_trusted_time → (now + s.skew) < st.last_trusted_time
      lower st w = ground arith

  -- The clock cannot be turned back: once a call at a time was done, and after any further calls with any
  -- failures, a call more than the skew before that time that can read the file is answered
  -- clock_rollback and changes nothing.
  pub no_backward_clock :
      (f g : Faults) (t now : Time) (calls : List (Faults × Time)) (file : File)
      → (check_and_save c s f t file).1 ≡ ok tt
      → g.read ≡ false
      → (now + s.skew) < t
      → check_and_save c s g now (run c s calls (check_and_save c s f t file).0)
        ≡ (run c s calls (check_and_save c s f t file).0, err clock_rollback)
  no_backward_clock f g t now calls file done read behind =
      refused_at g t now (run c s calls (check_and_save c s f t file).0)
        (run-HasMark calls t (check_and_save c s f t file).0 (check_and_save-ok f t file done)) read
        behind
