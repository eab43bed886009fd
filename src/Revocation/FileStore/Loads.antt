-- ===== src/Revocation/FileStore/Loads.antt =====
-- What a file of marks that loads is, and that a written one loads to what was written.
use grantseal.Prelude.{
  ◌≤◌, ◌<◌, ltb, if◌then◌else◌, Bool, true, false, not, Option, none, some, [], Bytes, length, eqb,
  eqb_refl, eqb→eq, ◌≡◌, inl, inr, refl, ap, ◌∙◌, sym, subst, arith, Bool-cases,
}
use grantseal.Prelude.Options.{of_some}
use grantseal.Prelude.Maps.{lookup, insert, lookup-insert}
use grantseal.Prelude.Results.{ok, err, ◌>>=◌, >>=-eq-ok, of_ok}
use grantseal.Code.{revocation_state_integrity_failure}
use grantseal.AtomicFile.{File, Faults, no_faults}
use grantseal.Payload.{max_revocation_file_size}
use grantseal.Revocation.State.{RevocationState, MemStore}
use grantseal.Revocation.FileStore.{
  StateFile, FileLibrary, FileStore, or_failure, or_no_bytes, or_no_entries, entries_mac,
  check_entries_mac, check_state_file, load_file, encode_entries,
}

-- The same entries, in whatever order.
abbrev pub Same : MemStore → MemStore → Type 0
Same m n = (k : Bytes) → lookup k m ≡ lookup k n

-- What the store relies on. Hex decodes what it encodes. `IsText` tells the keys and marks that JSON carries as
-- they are (valid UTF-8): a decoded map holds no others, and a map of such marks is read back with its tag, as a map
-- of the same entries, which is encoded as before.
pub record IsFileLibrary (c : FileLibrary) : Type 1 where
  pub IsText : Bytes → RevocationState → Type 0
  pub hex : (b : Bytes) → c.hex_decode (c.hex_encode b) ≡ some b
  pub read_text :
      (b : Bytes) (f : StateFile)
      → c.read_json b ≡ some f
      → (k : Bytes) (st : RevocationState) → lookup k (or_no_entries f.entries) ≡ some st
      → IsText k st
  pub read_written :
      (m : MemStore) (x b : Bytes)
      → ((k : Bytes) (st : RevocationState) → lookup k m ≡ some st → IsText k st)
      → c.file_json m (c.hex_encode x) ≡ some b
      → (f : StateFile) × (c.read_json b ≡ some f)
        × (f.mac ≡ c.hex_encode x)
        × (c.entries_json (or_no_entries f.entries) ≡ c.entries_json m)
        × Same (or_no_entries f.entries) m

of_failure : {A : Type 0} (o : Option A) {a : A} → or_failure o ≡ ok a → o ≡ some a
of_failure none h = cc
of_failure (some b) h = ap some (of_ok h)

pub load_file_readable :
    (c : FileLibrary) (s : FileStore) (f : Faults) (file : File)
    → f.read ≡ false
    → load_file c s f file ≡ load_file c s no_faults file
unfolding load_file
load_file_readable c s f none h = rw h refl
load_file_readable c s f (some content) h = rw h refl

pub load_file_unreadable :
    (c : FileLibrary) (s : FileStore) (f : Faults) (file : File)
    → f.read ≡ true
    → load_file c s f file ≡ err revocation_state_integrity_failure
unfolding load_file
load_file_unreadable c s f none h = rw h refl
load_file_unreadable c s f (some content) h = rw h refl

module _ (c : FileLibrary) (laws : IsFileLibrary c) (s : FileStore) where
  abbrev pub AllText : MemStore → Type 0
  AllText m = (k : Bytes) (st : RevocationState) → lookup k m ≡ some st → laws.IsText k st

  check_state_file-entries :
      (f : StateFile) (m : MemStore) → check_state_file c s f ≡ ok m → or_no_entries f.entries ≡ m
  unfolding check_state_file check_entries_mac
  check_state_file-entries f m h =
      let (want, a, h1) =
        >>=-eq-ok (entries_mac c s (or_no_entries f.entries))
          (check_entries_mac c s (or_no_entries f.entries) f.mac) h in
      let (got, b, h2) = >>=-eq-ok (or_failure (c.hex_decode f.mac)) _ h1 in
      checked (not (eqb got (or_no_bytes (c.hex_decode want)))) h2
    where
      checked :
          (b : Bool)
          → (if b then err revocation_state_integrity_failure else ok (or_no_entries f.entries))
            ≡ ok m
          → or_no_entries f.entries ≡ m
      checked true h = cc
      checked false h = of_ok h

  empty_AllText : AllText []
  unfolding lookup
  empty_AllText k st e = cc

  decoded_AllText :
      (content : Bytes) (m : MemStore)
      → (or_failure (c.read_json content) >>= check_state_file c s) ≡ ok m
      → AllText m
  decoded_AllText content m h =
      let (f, a, h1) = >>=-eq-ok (or_failure (c.read_json content)) (check_state_file c s) h in
      subst AllText (check_state_file-entries f m h1)
        (laws.read_text content f (of_failure (c.read_json content) a))

  pub load_file-AllText :
      (f : Faults) (file : File) (m : MemStore) → load_file c s f file ≡ ok m → AllText m
  unfolding load_file
  load_file-AllText f none m h = absent f.read h
    where
      absent :
          (b : Bool)
          → (if b then err revocation_state_integrity_failure else ok []) ≡ ok m
          → AllText m
      absent true h = cc
      absent false h = subst AllText (of_ok h) empty_AllText
  load_file-AllText f (some content) m h =
      read f.read (ltb max_revocation_file_size (length content)) h
    where
      read :
          (unread long : Bool)
          → (if unread
              then err revocation_state_integrity_failure
              else if long
              then err revocation_state_integrity_failure
              else (or_failure (c.read_json content) >>= check_state_file c s))
            ≡ ok m
          → AllText m
      read true long h = cc
      read false true h = cc
      read false false h = decoded_AllText content m h

  pub insert-AllText :
      (st : RevocationState) (m : MemStore)
      → laws.IsText st.list_id st
      → AllText m
      → AllText (insert st.list_id st m)
  insert-AllText st m t all k v e = elim (Bool-cases (eqb st.list_id k)) [
    | inl same ↦
        subst (λ w. laws.IsText k w)
          (of_some (
            sym (ap (λ b. if b then some st else lookup k m) same)
            ∙ sym (lookup-insert st.list_id k st m)
            ∙ e))
          (subst (λ j. laws.IsText j st) (eqb→eq st.list_id k same) t)
    | inr other ↦ all k v (
        sym (ap (λ b. if b then some st else lookup k m) other)
        ∙ sym (lookup-insert st.list_id k st m)
        ∙ e)
  ]

  -- The parts of the bytes that are written: the tag is the HMAC, in hex, of the entries.
  encoded_parts :
      (m : MemStore) (b : Bytes)
      → encode_entries c s m ≡ ok b
      → (x : Bytes) × (c.entries_json m ≡ some x)
        × (c.file_json m (c.hex_encode (c.hmac s.hmac_key x)) ≡ some b)
  unfolding encode_entries entries_mac
  encoded_parts m b h =
      let (tag, a, h1) = >>=-eq-ok (entries_mac c s m) (λ t. or_failure (c.file_json m t)) h in
      let (x, hx, ht) =
        >>=-eq-ok (or_failure (c.entries_json m)) (λ b. ok (c.hex_encode (c.hmac s.hmac_key b)))
          a in
      (
        x,
        of_failure (c.entries_json m) hx,
        ap (c.file_json m) (of_ok ht) ∙ of_failure (c.file_json m tag) h1,
      )

  authentic :
      (m : MemStore) (x mac : Bytes)
      → c.entries_json m ≡ some x
      → mac ≡ c.hex_encode (c.hmac s.hmac_key x)
      → (entries_mac c s m >>= check_entries_mac c s m mac) ≡ ok m
  unfolding entries_mac check_entries_mac
  authentic m x mac h t =
      rw (t, h, laws.hex (c.hmac s.hmac_key x), eqb_refl (c.hmac s.hmac_key x)) refl

  -- A written file that is at most 4 MB loads, to the entries that were written.
  pub encode_entries-load_file :
      (m : MemStore) (b : Bytes)
      → AllText m
      → encode_entries c s m ≡ ok b
      → length b ≤ max_revocation_file_size
      → (n : MemStore) × (load_file c s no_faults (some b) ≡ ok n) × Same n m
  unfolding load_file check_state_file
  encode_entries-load_file m b t h small =
      let (x, hx, hb) = encoded_parts m b h in
      let (f, hf, tag, again, same) = laws.read_written m (c.hmac s.hmac_key x) b t hb in
      (
        or_no_entries f.entries,
        rw (short, hf, authentic (or_no_entries f.entries) x f.mac (again ∙ hx) tag) refl,
        same,
      )
    where
      short : ltb max_revocation_file_size (length b) ≡ false
      short = ground arith

  -- Whatever loads of a written file is the entries that were written.
  pub written_load :
      (m n : MemStore) (b : Bytes)
      → AllText m
      → encode_entries c s m ≡ ok b
      → load_file c s no_faults (some b) ≡ ok n
      → Same n m
  unfolding load_file
  written_load m n b t h l = elim (Bool-cases (ltb max_revocation_file_size (length b))) [
    | inl long ↦ absurd (refused long l)
    | inr short ↦
        let (k, lk, same) = encode_entries-load_file m b t h (ground arith) in
        subst (λ k. Same k m) (of_ok (sym lk ∙ l)) same
  ]
    where
      refused :
          ltb max_revocation_file_size (length b) ≡ true
          → load_file c s no_faults (some b) ≡ ok n
          → ⊥
      refused long l = ground arith

  -- The write has no bound of its own: a written file of more than 4 MB is refused by every later load.
  pub oversized_refused :
      (f : Faults) (b : Bytes)
      → max_revocation_file_size < length b
      → load_file c s f (some b) ≡ err revocation_state_integrity_failure
  unfolding load_file
  oversized_refused f b h = ground arith
