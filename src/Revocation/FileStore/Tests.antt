-- ===== src/Revocation/FileStore/Tests.antt =====
-- The file of marks over a concrete library: hex as it stands, a tag of one number, and JSON that carries at
-- most one mark, of one-character texts.
use grantseal.Prelude.{
  ℕ, zero, suc, if◌then◌else◌, Bool, true, false, Bool-cases, eqb_iff, eqb→eq, ◌∙◌, ◌+◌, ◌≤◌, ◌≡◌,
  ◌≢◌, ◌↔◌, ◌⊎◌, inl, inr, refl, ap, subst, sym, none, some, codes, [], ◌∷◌, Option, Bytes, List,
  length, eqb, arith,
}
use grantseal.Prelude.Maps.{Map, lookup, insert}
use grantseal.Prelude.Options.{of_some}
use grantseal.Prelude.Results.{ok, err, of_ok}
use grantseal.Code.{revocation_stale, revocation_state_integrity_failure}
use grantseal.AtomicFile.{File, no_faults, atomic_write_file, fsync_state_dir}
use grantseal.Payload.{max_revocation_file_size}
use grantseal.Revocation.State.{
  RevocationState, classify_revocation_transition, MemStore, check_and_save,
}
use grantseal.Revocation.FileStore.{
  StateFile, FileLibrary, FileStore, new_file_store, entries_mac, check_entries_mac,
  check_state_file, load_file, encode_entries, as_persisted, write_content, write_entries,
  commit_decided, decide, check_and_save_state, run_states, or_no_entries,
}
use grantseal.Revocation.FileStore.Loads.{Same, IsFileLibrary}
use grantseal.Revocation.FileStore.Refines.{
  Holds, Implements, check_and_save_state-Implements, check_and_save_state_exact,
}
use grantseal.Revocation.FileStore.Marked.{no_replay_on_file}
use grantseal.Revocation.FileStore.Writers.{
  Call, open_exclusive, started, run_calls, writers, step, reserved, reserve,
  new_file_store_exclusive, one_exclusive_writer,
}

abbrev tag : Bytes → Bytes → Bytes
tag k [] = []
tag k (c ∷ s) = (c + length k) ∷ []

abbrev mark : ℕ → RevocationState
mark n = record { list_id = codes "m"; sequence = n; issued_at = 0; payload_digest = [] }

-- A map is written as the sequence of its mark for "m".
abbrev number : Option RevocationState → ℕ
number none = 0
number (some st) = suc st.sequence

abbrev read : Bytes → Option StateFile
read [] = none
read (zero ∷ m) = some (record { entries = none; mac = m })
read (suc n ∷ m) = some (record { entries = some ((codes "m", mark n) ∷ []); mac = m })

abbrev files : FileLibrary
files = record {
  entries_json = λ m. some (number (lookup (codes "m") m) ∷ []);
  file_json = λ m t. some (number (lookup (codes "m") m) ∷ t);
  read_json = read;
  hmac = tag;
  hex_encode = λ b. b;
  hex_decode = some;
}

abbrev IsMark : Bytes → RevocationState → Type 0
IsMark k st = (k ≡ codes "m") × (st ≡ mark st.sequence)

other_none :
    (m : MemStore)
    → ((k : Bytes) (st : RevocationState) → lookup k m ≡ some st → IsMark k st)
    → (k : Bytes) → eqb (codes "m") k ≡ false
    → lookup k m ≡ none
other_none m all k other = go (lookup k m) refl
  where
    go : (o : Option RevocationState) → lookup k m ≡ o → o ≡ none
    go none e = refl
    go (some st) e = absurd (ground (arith, (eqb_iff (codes "m") k).1 (sym (all k st e).0)))

found :
    (m : MemStore) (o : Option RevocationState)
    → ((k : Bytes) (st : RevocationState) → lookup k m ≡ some st → IsMark k st)
    → lookup (codes "m") m ≡ o
    → (k : Bytes) → (if eqb (codes "m") k then o else none) ≡ lookup k m
found m o all h k = elim (Bool-cases (eqb (codes "m") k)) [
  | inl same ↦
      ap (λ b. if b then o else none) same
      ∙ sym h
      ∙ ap (λ j. lookup j m) (eqb→eq (codes "m") k same)
  | inr other ↦ ap (λ b. if b then o else none) other ∙ sym (other_none m all k other)
]

read_back :
    (m : MemStore) (x : Bytes) (o : Option RevocationState)
    → ((k : Bytes) (st : RevocationState) → lookup k m ≡ some st → IsMark k st)
    → lookup (codes "m") m ≡ o
    → (f : StateFile) × (read (number o ∷ x) ≡ some f)
      × (f.mac ≡ x)
      × (files.entries_json (or_no_entries f.entries) ≡ some (number o ∷ []))
      × Same (or_no_entries f.entries) m
unfolding lookup eqb
read_back m x none all h = (
  record { entries = none; mac = x },
  refl,
  refl,
  refl,
  λ k. nothing (eqb (codes "m") k) ∙ found m none all h k,
)
  where
    nothing : (b : Bool) → ◌≡◌ {A = Option RevocationState} none (if b then none else none)
    nothing true = refl
    nothing false = refl
read_back m x (some st) all h = (
  record { entries = some ((codes "m", mark st.sequence) ∷ []); mac = x },
  refl,
  refl,
  refl,
  λ k.
      ap (λ t. if eqb (codes "m") k then some t else none) (sym (all (codes "m") st h).1)
      ∙ found m (some st) all h k,
)

one_mark :
    (n : ℕ) (k : Bytes) (st : RevocationState)
    → lookup k ((codes "m", mark n) ∷ []) ≡ some st
    → IsMark k st
unfolding lookup
one_mark n k st e = elim (Bool-cases (eqb (codes "m") k)) [
  | inl same ↦
      let is : mark n ≡ st = of_some (sym (ap (λ b. if b then some (mark n) else none) same) ∙ e) in
      (sym (eqb→eq (codes "m") k same), subst (λ t. t ≡ mark t.sequence) is refl)
  | inr other ↦ absurd (unfound (sym (ap (λ b. if b then some (mark n) else none) other) ∙ e))
]
  where
    unfound : none ≡ some st → ⊥
    unfound h = absurd (cc)

read_marks :
    (b : Bytes) (f : StateFile) (k : Bytes) (st : RevocationState)
    → read b ≡ some f
    → lookup k (or_no_entries f.entries) ≡ some st
    → IsMark k st
read_marks [] f k st h e = absurd (cc)
read_marks (zero ∷ m) f k st h e =
    absurd (unfound (subst (λ g. lookup k (or_no_entries g.entries) ≡ some st) (sym (of_some h)) e))
  where
    unfound : lookup k [] ≡ some st → ⊥
    unfound h = absurd (unfold lookup in cc)
read_marks (suc n ∷ m) f k st h e =
    one_mark n k st (subst (λ g. lookup k (or_no_entries g.entries) ≡ some st) (sym (of_some h)) e)

files-IsFileLibrary : IsFileLibrary files
files-IsFileLibrary = record {
  IsText = IsMark;
  hex = λ b. refl;
  read_text = λ b f h k st e. read_marks b f k st h e;
  read_written = λ m x b all h.
      subst
        (λ b.
          (f : StateFile) × (read b ≡ some f)
          × (f.mac ≡ x)
          × (files.entries_json (or_no_entries f.entries) ≡ files.entries_json m)
          × Same (or_no_entries f.entries) m)
        (of_some h) (read_back m x (lookup (codes "m") m) all refl);
}

abbrev store : FileStore
store = record {
  path = codes "marks.json";
  hmac_key = codes "key";
  exclusive_key = [];
  closed = false;
}

-- The file of the mark 5.
abbrev five : File
five = some (6 ∷ 9 ∷ [])

abbrev held : MemStore
held = (codes "m", mark 5) ∷ []

five-Holds : Holds files store five held
unfolding load_file check_state_file entries_mac check_entries_mac lookup eqb
five-Holds = (held, refl, λ k. refl)

small :
    (m : MemStore) (b : Bytes)
    → encode_entries files store m ≡ ok b
    → length b ≤ max_revocation_file_size
unfolding encode_entries entries_mac
small m b h = subst (λ b. length b ≤ max_revocation_file_size) (of_ok h) (omega arith)

first_done : (check_and_save_state files store no_faults (some (mark 5)) none).1 ≡ ok tt
unfolding check_and_save_state decide load_file lookup insert classify_revocation_transition
    commit_decided write_entries encode_entries entries_mac write_content atomic_write_file
    fsync_state_dir as_persisted eqb
first_done = refl

check_and_save_state-Implements_example :
    Implements files store held
      (check_and_save (some (mark 6)) held)
      (check_and_save_state files store no_faults (some (mark 6)) five)
unfolding files-IsFileLibrary
check_and_save_state-Implements_example =
    check_and_save_state-Implements files files-IsFileLibrary store no_faults (mark 6) held five
      five-Holds (refl, refl) (λ n b h e. small n b e)

check_and_save_state_exact_example :
    (check_and_save_state files store no_faults (some (mark 6)) five).1
    ≡ (check_and_save (some (mark 6)) held).1
check_and_save_state_exact_example =
    check_and_save_state_exact files files-IsFileLibrary store (mark 6) held five five-Holds
      (λ n h. encoded n)
  where
    encoded : (n : MemStore) → (b : Bytes) × (encode_entries files store n ≡ ok b)
    encoded n =
        unfold encode_entries entries_mac in
        (
          number (lookup (codes "m") n) ∷ tag (codes "key") (number (lookup (codes "m") n) ∷ []),
          refl,
        )

abbrev after_calls : File
after_calls =
    run_states files store ((no_faults, mark 7) ∷ [])
      (check_and_save_state files store no_faults (some (mark 5)) none).0

no_replay_on_file_example :
    (check_and_save_state files store no_faults (some (mark 4)) after_calls
      ≡ (after_calls, err revocation_stale))
    ⊎ (check_and_save_state files store no_faults (some (mark 4)) after_calls
        ≡ (after_calls, err revocation_state_integrity_failure))
unfolding files-IsFileLibrary
no_replay_on_file_example =
    no_replay_on_file files files-IsFileLibrary store no_faults no_faults (mark 5) (mark 4)
      ((no_faults, mark 7) ∷ []) none (refl, refl) ((refl, refl), tt) first_done refl (omega arith)

abbrev opened_once : List Call
opened_once = open_exclusive (codes "marks") (codes "key") ∷ []

one_exclusive_writer_example :
    (writers (codes "marks") (run_calls (λ b. b) opened_once started).stores ≤ 1)
    × (((r : Map (Unit {0}) × FileStore) × (new_file_store_exclusive
              (λ b. b)
              (codes "marks")
              (codes "key")
              (run_calls (λ b. b) opened_once started).exclusive
            ≡ ok r))
        ↔ (writers (codes "marks") (run_calls (λ b. b) opened_once started).stores ≡ 0))
one_exclusive_writer_example =
    one_exclusive_writer (λ b. b) opened_once (codes "marks") (codes "key") some_byte some_byte
      key_byte
  where
    some_byte : codes "marks" ≢ []
    some_byte h = absurd (cc)

    key_byte : codes "key" ≢ []
    key_byte h = absurd (cc)

-- A second exclusive store of the path is refused, and one is made again after the first is closed.
second_refused :
    new_file_store_exclusive
      (λ b. b)
      (codes "marks")
      (codes "key")
      (run_calls (λ b. b) opened_once started).exclusive
    ≡ err revocation_state_integrity_failure
unfolding run_calls step reserved new_file_store_exclusive new_file_store reserve lookup insert eqb
second_refused = refl
