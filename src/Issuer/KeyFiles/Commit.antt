-- ===== src/Issuer/KeyFiles/Commit.antt =====
-- What the commit leaves on disk.
use grantseal.Prelude.{Bool, true, false, Option, none, some, ◌≡◌, ◌⊎◌, inl, inr, refl, ap, arith}
use grantseal.Prelude.Results.{Result, ok, err}
use grantseal.Issuer.PrivateKey.{
  KeyError, back_up_private, back_up_public, commit_public, sync_after_public, KeyFile,
}
use grantseal.Issuer.KeyFiles.{
  Slot, SlotFaults, move_aside, backup_existing, restore_over, restore_backup, remove_backup,
  CommitFaults, KeyDir, clear, put, commit_over, commit_public_aside, commit_private_aside,
  commit_staged_key_files,
}

-- A slot with no backup: its target is `old`.
abbrev pub at_rest : Option KeyFile → Slot
at_rest old = record { target = old; backup = none }

-- The steps that undo a commit succeed.
abbrev pub Recovers : CommitFaults → Type 0
Recovers f =
    (f.private.rename_back ≡ false) × (f.public.rename_back ≡ false) × (f.remove_private ≡ false)

-- The pair that a commit leaves, by its answer.
unfoldable pub pair_left :
    Result KeyError (Unit {0})
    → Option KeyFile × Option KeyFile
    → KeyFile × KeyFile
    → Option KeyFile × Option KeyFile
pair_left (ok u) old (new_private, new_public) = (some new_private, some new_public)
pair_left (err sync_after_public) old (new_private, new_public) =
    (some new_private, some new_public)
pair_left (err commit_public) (old_private, old_public) (new_private, new_public) =
    (some new_private, old_public)
pair_left (err e) old new = old

-- The private key of before is still at its place or in its backup, or the new one is committed.
abbrev pub Survives : Option KeyFile → KeyFile → Slot → Type 0
Survives old new s = (s.target ≡ old) ⊎ ((s.backup ≡ old) ⊎ (s.target ≡ some new))

-- A slot whose target, if there was one, is in the backup.
abbrev aside : Option KeyFile → Slot
aside none = record { target = none; backup = none }
aside (some file) = record { target = none; backup = some file }

backup_existing-cases :
    (f : SlotFaults) (old : Option KeyFile)
    → (backup_existing f (at_rest old) ≡ (at_rest old, false))
      ⊎ (backup_existing f (at_rest old) ≡ (aside old, true))
unfolding backup_existing move_aside
backup_existing-cases f none = ground arith
backup_existing-cases f (some file) = ground arith

restore_backup-aside :
    (f : SlotFaults) (old : Option KeyFile)
    → f.rename_back ≡ false
    → (restore_backup f (aside old)).target ≡ old
unfolding restore_backup restore_over
restore_backup-aside f none h = refl
restore_backup-aside f (some file) h = ground arith

restore_backup-cleared :
    (f : SlotFaults) (failed : Bool) (new : KeyFile) (old : Option KeyFile)
    → f.rename_back ≡ false
    → failed ≡ false
    → (restore_backup f (clear failed (put new (aside old)))).target ≡ old
unfolding restore_backup restore_over clear
restore_backup-cleared f failed new none h g = ground arith
restore_backup-cleared f failed new (some file) h g = ground arith

restore_backup-at_rest :
    (f : SlotFaults) (old : Option KeyFile) → restore_backup f (at_rest old) ≡ at_rest old
unfolding restore_backup restore_over
restore_backup-at_rest f old = refl

restored_Survives :
    (f : SlotFaults) (new : KeyFile) (old : Option KeyFile)
    → Survives old new (restore_backup f (aside old))
unfolding restore_backup restore_over
restored_Survives f new none = inl refl
restored_Survives f new (some file) = ground arith

cleared_Survives :
    (f : SlotFaults) (failed : Bool) (new : KeyFile) (old : Option KeyFile)
    → Survives old new (restore_backup f (clear failed (put new (aside old))))
unfolding restore_backup restore_over clear
cleared_Survives f failed new none = ground arith
cleared_Survives f failed new (some file) = ground arith

remove_backup-target : (f : SlotFaults) (s : Slot) → (remove_backup f s).target ≡ s.target
unfolding remove_backup
remove_backup-target f s = ground arith

abbrev pub targets : KeyDir → Option KeyFile × Option KeyFile
targets d = (d.private.target, d.public.target)

module _ (f : CommitFaults) (new_private new_public : KeyFile)
    (old_private old_public : Option KeyFile) where
  over_pair :
      Recovers f
      → targets (commit_over f new_private new_public (aside old_private) (aside old_public)).0
        ≡ pair_left
            (commit_over f new_private new_public (aside old_private) (aside old_public)).1
            (old_private, old_public)
            (new_private, new_public)
  unfolding commit_over pair_left
  over_pair (a, b, c) = ground (
    arith,
    restore_backup-aside f.private old_private a,
    restore_backup-aside f.public old_public b,
    restore_backup-cleared f.private f.remove_private new_private old_private a c,
    remove_backup-target f.private (put new_private (aside old_private)),
    remove_backup-target f.public (put new_public (aside old_public)),
  )

  over_Survives :
      Survives old_private new_private
        (commit_over f new_private new_public (aside old_private) (aside old_public)).0.private
  unfolding commit_over
  over_Survives = ground (
    arith,
    restored_Survives f.private new_private old_private,
    cleared_Survives f.private f.remove_private new_private old_private,
    remove_backup-target f.private (put new_private (aside old_private)),
  )

  -- The ways that the backups can end.
  abbrev Left : (KeyDir × Result KeyError (Unit {0}) → Type 0) → Type 0
  Left P = P (
      commit_staged_key_files f new_private new_public
        (record { private = at_rest old_private; public = at_rest old_public }))

  left_cases :
      (P : KeyDir × Result KeyError (Unit {0}) → Type 0)
      → P (
        record { private = at_rest old_private; public = at_rest old_public },
        err back_up_private,
      )
      → P (
        record {
          private = restore_backup f.private (aside old_private);
          public = at_rest old_public;
        },
        err back_up_public,
      )
      → P (commit_over f new_private new_public (aside old_private) (aside old_public))
      → Left P
  unfolding commit_staged_key_files commit_private_aside commit_public_aside
  left_cases P first second third = elim (backup_existing-cases f.private old_private) [
    | inl failed ↦ rw failed first
    | inr moved ↦ elim (backup_existing-cases f.public old_public) [
      | inl failed ↦ rw (moved, failed) second
      | inr also ↦ rw (moved, also) third
    ]
  ]

  -- What a commit leaves, when the steps that undo it succeed: the new pair when it is done or only the last
  -- sync fails, the new private key with the old public key when the rename of the public key fails, and the
  -- old pair after every other failure.
  pub commit_staged_key_files-pair :
      Recovers f
      → targets
          (commit_staged_key_files f new_private new_public
            (record { private = at_rest old_private; public = at_rest old_public })).0
        ≡ pair_left
            (commit_staged_key_files f new_private new_public
              (record { private = at_rest old_private; public = at_rest old_public })).1
            (old_private, old_public)
            (new_private, new_public)
  commit_staged_key_files-pair h =
      left_cases
        (λ r. targets r.0 ≡ pair_left r.1 (old_private, old_public) (new_private, new_public))
        (unfold pair_left in refl)
        (unfold pair_left in
          ap (λ o. (o, old_public)) (restore_backup-aside f.private old_private h.0))
        (over_pair h)

  -- No private key is lost, whatever fails: the old one is at its place or in its backup, or the new one is at
  -- its place.
  pub commit_staged_key_files-Survives :
      Survives old_private new_private
        (commit_staged_key_files f new_private new_public
          (record { private = at_rest old_private; public = at_rest old_public })).0.private
  commit_staged_key_files-Survives =
      left_cases (λ r. Survives old_private new_private r.0.private) (inl refl)
        (restored_Survives f.private new_private old_private) over_Survives

  over_done :
      (commit_over f new_private new_public (aside old_private) (aside old_public)).1 ≡ ok tt
      → targets (commit_over f new_private new_public (aside old_private) (aside old_public)).0
        ≡ (some new_private, some new_public)
  unfolding commit_over
  over_done h = ground (
    arith,
    remove_backup-target f.private (put new_private (aside old_private)),
    remove_backup-target f.public (put new_public (aside old_public)),
  )

  -- A commit that is reported done leaves the new pair, whatever failed on the way.
  pub commit_staged_key_files-ok :
      (commit_staged_key_files f new_private new_public
          (record { private = at_rest old_private; public = at_rest old_public })).1
        ≡ ok tt
      → targets
          (commit_staged_key_files f new_private new_public
            (record { private = at_rest old_private; public = at_rest old_public })).0
        ≡ (some new_private, some new_public)
  commit_staged_key_files-ok =
      left_cases (λ r. r.1 ≡ ok tt → targets r.0 ≡ (some new_private, some new_public)) (λ h. cc)
        (λ h. cc) over_done
