-- ===== src/Issuer/KeyFiles/Written.antt =====
-- What WriteKeyFiles leaves on disk.
use grantseal.Prelude.{
  ◌⊎◌, inl, inr, if◌then◌else◌, Bool, true, false, not, ◌&&◌, ◌||◌, ◌≢◌, Option, none, some, [],
  ◌∷◌, ◌++◌, Bytes, length, eqb, eqb→eq, eqb_refl, ◌≡◌, refl, ap, ◌∙◌, sym, subst, arith,
}
use grantseal.Prelude.Results.{Result, ok, err, fail_if, >>=-eq-ok, >>-eq-ok, of_ok, Result-cases}
use grantseal.Issuer.PrivateKey.{
  KeyError, mkdir, permissive_mode, read_key, verify_pair, KeyLibrary, KeyFile, seed_size,
  trim_space, or_decode_base64, load_private_key, public_key_base64, private_key_base64,
}
use grantseal.Issuer.PrivateKey.Text.{IsKeyLibrary, trim_space-line, decode_private_key-written}
use grantseal.Issuer.KeyFiles.{
  KeyPair, KeyDir, WriteFaults, stage_key_file, check_targets, verify_staged_pair, stage_pair,
  is_there, restrict, commit_pair, commit_staged_key_files, write_key_files, no_write_faults,
  commit_private_aside, commit_public_aside, commit_over, backup_existing, move_aside,
  remove_backup, fsync_dir_issuer,
}
use grantseal.Issuer.KeyFiles.Commit.{at_rest, targets, commit_staged_key_files-ok}

-- Two key files at rest: no backup of theirs is there.
abbrev pub dir_of : Option KeyFile → Option KeyFile → KeyDir
dir_of old_private old_public = record {
  private = at_rest old_private;
  public = at_rest old_public;
}

-- The two targets are there, the private one loads and the public one is its public key, as Base64.
pub record IsMatching (lib : KeyLibrary) (on_windows : Bool) (d : KeyDir) : Type 0 where
  pub private : KeyFile
  pub public : KeyFile
  pub key : Bytes
  pub has_private : d.private.target ≡ some private
  pub has_public : d.public.target ≡ some public
  pub loads : load_private_key lib on_windows false private ≡ ok key
  pub matches : lib.b64_decode (trim_space public.content) ≡ some (lib.public_part key)

module _ (lib : KeyLibrary) where
  load_private_key-read :
      (on_windows unread : Bool) (file : KeyFile) (key : Bytes)
      → load_private_key lib on_windows unread file ≡ ok key
      → load_private_key lib on_windows false file ≡ ok key
  unfolding load_private_key
  load_private_key-read on_windows true file key h = absurd (refused (◌&&◌ (not on_windows) _) h)
    where
      refused :
          (b : Bool)
          → ◌≡◌ {A = Result KeyError Bytes}
              (if b then err permissive_mode else err read_key)
              (ok key)
          → ⊥
      refused true h = absurd (cc)
      refused false h = absurd (cc)
  load_private_key-read on_windows false file key h = h

  -- The public key that a staged file is checked against is the one of the private key.
  abbrev Matches : Bool → KeyFile × KeyFile → Type 0
  Matches on_windows (private, public) =
      (key : Bytes) × (load_private_key lib on_windows false private ≡ ok key)
      × (lib.b64_decode (trim_space public.content) ≡ some (lib.public_part key))

  verify_staged_pair-ok :
      (f : WriteFaults) (private public : KeyFile)
      → verify_staged_pair lib f private public ≡ ok tt
      → Matches f.on_windows (private, public)
  unfolding verify_staged_pair
  verify_staged_pair-ok f private public h =
      let (key, a, h1) = >>=-eq-ok (load_private_key lib f.on_windows f.read_private private) _ h in
      let (b, h2) = >>-eq-ok (fail_if f.read_public read_key) _ h1 in
      let (staged, c, h3) =
        >>=-eq-ok (or_decode_base64 (lib.b64_decode (trim_space public.content))) _ h2 in
      (
        key,
        load_private_key-read f.on_windows f.read_private private key a,
        decoded (lib.b64_decode (trim_space public.content)) staged c
            ∙ ap some
                (eqb→eq staged (lib.public_part key) (same (eqb staged (lib.public_part key)) h3)),
      )
    where
      decoded : (o : Option Bytes) (b : Bytes) → or_decode_base64 o ≡ ok b → o ≡ some b
      decoded none b h = cc
      decoded (some c) b h = ap some (of_ok h)

      same : (b : Bool) → fail_if (not b) verify_pair ≡ ok tt → b ≡ true
      same true h = refl
      same false h = cc

  -- The pair that is staged was read back and matches.
  pub stage_pair-ok :
      (f : WriteFaults) (kp : KeyPair) (force : Bool) (d : KeyDir) (pair : KeyFile × KeyFile)
      → stage_pair lib f kp force d ≡ ok pair
      → Matches f.on_windows pair
  unfolding stage_pair
  stage_pair-ok f kp force d pair h =
      let (a, h1) = >>-eq-ok (fail_if f.make_dir mkdir) _ h in
      let (b, h2) = >>-eq-ok (if force then ok tt else check_targets f d) _ h1 in
      let (p, c, h3) = >>=-eq-ok (stage_key_file f.stage_private _ true) _ h2 in
      let (q, e, h4) = >>=-eq-ok (stage_key_file f.stage_public _ false) _ h3 in
      let (v, h5) = >>-eq-ok (verify_staged_pair lib f p q) _ h4 in
      subst (Matches f.on_windows) (of_ok h5) (verify_staged_pair-ok f p q v)

  matching :
      (on_windows : Bool) (private public : KeyFile) (d : KeyDir)
      → Matches on_windows (private, public)
      → targets d ≡ (some private, some public)
      → IsMatching lib on_windows d
  matching on_windows private public d (key, loads, matches) h = record {
    private = private;
    public = public;
    key = key;
    has_private = ap (λ p. p.0) h;
    has_public = ap (λ p. p.1) h;
    loads = loads;
    matches = matches;
  }

  restrict-ok :
      (failed : Bool) (r : KeyDir × Result KeyError (Unit {0}))
      → (restrict lib failed r).1 ≡ ok tt
      → (r.1 ≡ ok tt) × ((restrict lib failed r).0 ≡ r.0)
  unfolding restrict
  restrict-ok failed (d, err e) h = absurd (cc)
  restrict-ok failed (d, ok tt) h = (refl, refl)

  committed :
      (f : WriteFaults) (old_private old_public : Option KeyFile)
      (r : Result KeyError (KeyFile × KeyFile))
      → ((pair : KeyFile × KeyFile) → r ≡ ok pair → Matches f.on_windows pair)
      → (commit_pair lib f r (dir_of old_private old_public)).1 ≡ ok tt
      → IsMatching lib f.on_windows (commit_pair lib f r (dir_of old_private old_public)).0
  unfolding commit_pair
  committed f old_private old_public (err e) m h = absurd (cc)
  committed f old_private old_public (ok (private, public)) m h =
      let (done, same) =
        restrict-ok f.chmod
          (commit_staged_key_files f.commit private public (dir_of old_private old_public)) h in
      subst (IsMatching lib f.on_windows) (sym same) (
        matching f.on_windows private public
          (commit_staged_key_files f.commit private public (dir_of old_private old_public)).0
          (m (private, public) refl)
          (commit_staged_key_files-ok f.commit private public old_private old_public done))

  -- When the key files are reported written, whatever failed on the way and whatever was there before, the
  -- private key file loads and the public key file is its public key.
  pub write_key_files-IsMatching :
      (f : WriteFaults) (kp : KeyPair) (force : Bool) (old_private old_public : Option KeyFile)
      → (write_key_files lib f kp force (dir_of old_private old_public)).1 ≡ ok tt
      → IsMatching lib f.on_windows
          (write_key_files lib f kp force (dir_of old_private old_public)).0
  unfolding write_key_files
  write_key_files-IsMatching f kp force old_private old_public h =
      committed f old_private old_public (stage_pair lib f kp force (dir_of old_private old_public))
        (stage_pair-ok f kp force (dir_of old_private old_public)) h

  refused_targets :
      (f : WriteFaults) (d : KeyDir)
      → (is_there d.private.target || is_there d.public.target) ≡ true
      → check_targets f d ≢ ok tt
  unfolding check_targets
  refused_targets f d there h = ground arith

  -- Without force, a key file that is there is never touched: the call fails and changes nothing.
  pub write_key_files_refused :
      (f : WriteFaults) (kp : KeyPair) (d : KeyDir)
      → (is_there d.private.target || is_there d.public.target) ≡ true
      → (e : KeyError) × (write_key_files lib f kp false d ≡ (d, err e))
  unfolding write_key_files commit_pair
  write_key_files_refused f kp d there = elim (Result-cases (stage_pair lib f kp false d)) [
    | inl (pair, h) ↦ absurd (refused_targets f d there (checked pair h))
    | inr (e, h) ↦ (e, rw h refl)
  ]
    where
      checked :
          (pair : KeyFile × KeyFile)
          → stage_pair lib f kp false d ≡ ok pair
          → check_targets f d ≡ ok tt
      checked pair h =
          unfold stage_pair in
          (let (a, h1) = >>-eq-ok (fail_if f.make_dir mkdir) _ h in
            (>>-eq-ok (check_targets f d) _ h1).0)

  commit_done :
      (private public : KeyFile) (old_private old_public : Option KeyFile)
      → commit_pair lib no_write_faults (ok (private, public)) (dir_of old_private old_public)
        ≡ (dir_of (some private) (some public), ok tt)
  unfolding commit_pair commit_staged_key_files commit_private_aside commit_public_aside commit_over
      backup_existing move_aside remove_backup fsync_dir_issuer restrict
  commit_done private public none none = refl
  commit_done private public none (some q) = refl
  commit_done private public (some p) none = refl
  commit_done private public (some p) (some q) = refl

  abbrev pub private_file : KeyPair → KeyFile
  private_file kp = record {
    content = private_key_base64 lib kp.private_key ++ (10 ∷ []);
    mode = 0o600;
  }

  abbrev pub public_file : KeyPair → KeyFile
  public_file kp = record {
    content = public_key_base64 lib kp.public_key ++ (10 ∷ []);
    mode = 0o644;
  }

  stage_done :
      (laws : IsKeyLibrary lib) (kp : KeyPair) (force : Bool) (d : KeyDir)
      → (if force then ok tt else check_targets no_write_faults d) ≡ ok tt
      → length (lib.seed kp.private_key) ≡ seed_size
      → lib.public_part (lib.new_key_from_seed (lib.seed kp.private_key)) ≡ kp.public_key
      → stage_pair lib no_write_faults kp force d ≡ ok (private_file kp, public_file kp)
  unfolding stage_pair verify_staged_pair stage_key_file load_private_key public_key_base64
  stage_done laws kp force d free size same =
      rw
        (
          free,
          decode_private_key-written lib laws kp.private_key size,
          trim_space-line (lib.b64_encode kp.public_key) (laws.b64_visible kp.public_key),
          laws.b64 kp.public_key,
          same,
          eqb_refl kp.public_key,
        )
        refl

  free_targets :
      (force : Bool) (old_private old_public : Option KeyFile)
      → ((force ≡ true) ⊎ ((old_private ≡ none) × (old_public ≡ none)))
      → (if force then ok tt else check_targets no_write_faults (dir_of old_private old_public))
        ≡ ok tt
  unfolding check_targets
  free_targets true old_private old_public h = refl
  free_targets false none none h = refl
  free_targets false none (some q) h = elim h [ inl e ↦ absurd (cc) | inr (a, b) ↦ absurd (cc) ]
  free_targets false (some p) old_public h = elim h [
    | inl e ↦ absurd (cc)
    | inr (a, b) ↦ absurd (cc)
  ]

  -- With no failure, under force or where neither key file is there, the files of a pair whose public key is
  -- that of its seed are written, and the private one loads to the key of the seed.
  pub write_key_files_done :
      (laws : IsKeyLibrary lib) (kp : KeyPair) (force : Bool)
      (old_private old_public : Option KeyFile)
      → ((force ≡ true) ⊎ ((old_private ≡ none) × (old_public ≡ none)))
      → length (lib.seed kp.private_key) ≡ seed_size
      → lib.public_part (lib.new_key_from_seed (lib.seed kp.private_key)) ≡ kp.public_key
      → (write_key_files lib no_write_faults kp force (dir_of old_private old_public)
          ≡ (dir_of (some (private_file kp)) (some (public_file kp)), ok tt))
        × (load_private_key lib false false (private_file kp)
            ≡ ok (lib.new_key_from_seed (lib.seed kp.private_key)))
  unfolding write_key_files load_private_key
  write_key_files_done laws kp force old_private old_public free size same = (
    rw
        (stage_done laws kp force (dir_of old_private old_public)
          (free_targets force old_private old_public free) size same)
        (commit_done (private_file kp) (public_file kp) old_private old_public),
    decode_private_key-written lib laws kp.private_key size,
  )
