-- ===== src/Issuer/KeyFiles/Tests.antt =====
-- Key files over a concrete library: Base64 as a shift of letters, and a key that is its seed twice.
use grantseal.Prelude.{
  inl, inr, ℕ, ◌+◌, ◌-◌, true, false, not, none, some, [], ◌∷◌, ◌++◌, Bytes, all, take, codes, ◌≡◌,
  refl, ap, arith,
}
use grantseal.Prelude.Results.{Result, ok, err}
use grantseal.Issuer.PrivateKey.{
  KeyError, commit_public, KeyLibrary, KeyFile, is_space, load_private_key,
}
use grantseal.Issuer.PrivateKey.Text.{IsKeyLibrary}
use grantseal.Issuer.KeyFiles.{
  KeyPair, CommitFaults, KeyDir, no_slot_faults, no_dir_faults, no_write_faults,
  commit_staged_key_files, write_key_files, backup_existing, move_aside, restore_backup,
  restore_over, remove_backup, fsync_dir_issuer, commit_over, commit_public_aside,
  commit_private_aside,
}
use grantseal.Issuer.KeyFiles.Commit.{
  at_rest, targets, pair_left, Survives, commit_staged_key_files-pair,
  commit_staged_key_files-Survives,
}
use grantseal.Issuer.KeyFiles.Written.{
  IsMatching, dir_of, private_file, public_file, write_key_files-IsMatching, write_key_files_done,
}

abbrev shifted : Bytes → Bytes
shifted [] = []
shifted (c ∷ s) = (c + 65) ∷ shifted s

abbrev unshifted : Bytes → Bytes
unshifted [] = []
unshifted (c ∷ s) = (c - 65) ∷ unshifted s

abbrev keys : KeyLibrary
keys = record {
  b64_encode = shifted;
  b64_decode = λ b. some (unshifted b);
  new_key_from_seed = λ seed. seed ++ seed;
  seed = take 32;
  public_part = take 3;
}

unshifted-shifted : (b : Bytes) → unshifted (shifted b) ≡ b
unshifted-shifted [] = refl
unshifted-shifted (c ∷ b) =
    let ih = unshifted-shifted b in let e : (c + 65) - 65 ≡ c = omega arith in rw (e, ih) refl

visible : (b : Bytes) → all (λ c. not (is_space c)) (shifted b) ≡ true
unfolding is_space
visible [] = refl
visible (c ∷ b) = let ih = visible b in ground (arith, ih)

keys-IsKeyLibrary : IsKeyLibrary keys
keys-IsKeyLibrary = record { b64 = λ b. ap some (unshifted-shifted b); b64_visible = visible }

abbrev eight : Bytes
eight = 1 ∷ 2 ∷ 3 ∷ 4 ∷ 5 ∷ 6 ∷ 7 ∷ 8 ∷ []

abbrev seed : Bytes
seed = eight ++ (eight ++ (eight ++ eight))

abbrev pair : KeyPair
pair = record { key_id = codes "k1"; public_key = 1 ∷ 2 ∷ 3 ∷ []; private_key = seed ++ seed }

abbrev file : ℕ → KeyFile
file n = record { content = n ∷ []; mode = 0o600 }

-- Only the rename of the public key fails.
abbrev public_fails : CommitFaults
public_fails = record {
  private = no_slot_faults;
  public = no_slot_faults;
  rename_private = false;
  sync_private = no_dir_faults;
  remove_private = false;
  rename_public = true;
  sync_public = no_dir_faults;
}

abbrev left_by_public : KeyDir × Result KeyError (Unit {0})
left_by_public =
    commit_staged_key_files public_fails (file 3) (file 4)
      (record { private = at_rest (some (file 1)); public = at_rest (some (file 2)) })

commit_staged_key_files-pair_example :
    targets left_by_public.0
    ≡ pair_left left_by_public.1 (some (file 1), some (file 2)) (file 3, file 4)
commit_staged_key_files-pair_example =
    commit_staged_key_files-pair public_fails (file 3) (file 4) (some (file 1)) (some (file 2))
      (refl, refl, refl)

-- The new private key and the old public key are left, and both backups are gone.
mismatched : left_by_public ≡ (
  record { private = at_rest (some (file 3)); public = at_rest (some (file 2)) },
  err commit_public,
)
unfolding commit_staged_key_files commit_private_aside commit_public_aside commit_over
    backup_existing move_aside restore_backup restore_over remove_backup fsync_dir_issuer
mismatched = refl

commit_staged_key_files-Survives_example :
    Survives (some (file 1)) (file 3) left_by_public.0.private
commit_staged_key_files-Survives_example =
    commit_staged_key_files-Survives public_fails (file 3) (file 4) (some (file 1)) (some (file 2))

write_key_files_done_example :
    (write_key_files keys no_write_faults pair false (dir_of none none)
      ≡ (dir_of (some (private_file keys pair)) (some (public_file keys pair)), ok tt))
    × (load_private_key keys false false (private_file keys pair) ≡ ok (seed ++ seed))
write_key_files_done_example =
    write_key_files_done keys keys-IsKeyLibrary pair false none none (inr (refl, refl)) refl refl

write_key_files-IsMatching_example :
    IsMatching keys false
      (write_key_files keys no_write_faults pair true (dir_of none (some (file 2)))).0
write_key_files-IsMatching_example =
    write_key_files-IsMatching keys no_write_faults pair true none (some (file 2))
      (ap (λ r. r.1) (replaced.0))
  where
    replaced :
        (write_key_files keys no_write_faults pair true (dir_of none (some (file 2)))
          ≡ (dir_of (some (private_file keys pair)) (some (public_file keys pair)), ok tt))
        × (load_private_key keys false false (private_file keys pair) ≡ ok (seed ++ seed))
    replaced =
        write_key_files_done keys keys-IsKeyLibrary pair true none (some (file 2)) (inl refl) refl
          refl
