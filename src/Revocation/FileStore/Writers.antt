-- ===== src/Revocation/FileStore/Writers.antt =====
-- The register of exclusive writers of pkg/license/revocation_state.go: the constructors and Close over the
-- stores of one process. normalizeStatePath calls path/filepath and is a parameter.
use grantseal.Prelude.{
  ℕ, zero, suc, ◌+◌, ◌≤◌, if◌then◌else◌, Bool, true, false, ◌&&◌, not, Option, none, some, List, [],
  ◌∷◌, Bytes, eqb, eqb_iff, eqb→eq, ◌⊎◌, inl, inr, Bool-cases, is_nil, get_elem?, ◌≡◌, ◌≢◌, ◌↔◌,
  refl, ap, ◌∙◌, sym, arith,
}
use grantseal.Prelude.Maps.{Map, lookup, insert, remove, lookup-insert, lookup-remove}
use grantseal.Prelude.Options.{of_some}
use grantseal.Prelude.Results.{Result, ok, err, ◌>>=◌}
use grantseal.Code.{Code, revocation_state_integrity_failure}
use grantseal.Revocation.FileStore.{FileStore, new_file_store}

-- The register of the process, revStateExclusive, and the stores that it made, the latest first.
pub record Process : Type 0 where
  pub exclusive : Map (Unit {0})
  pub stores : List FileStore

abbrev pub started : Process
started = record { exclusive = []; stores = [] }

-- s.exclusiveKey = key
abbrev pub with_key : Bytes → FileStore → FileStore
with_key key s = record {
  path = s.path;
  hmac_key = s.hmac_key;
  exclusive_key = key;
  closed = s.closed;
}

-- NewFileRevocationStateStoreExclusive once the store is made, with the key and what the register has for it
unfoldable pub reserve :
    Bytes
    → FileStore
    → Map (Unit {0})
    → Option (Unit {0})
    → Result Code (Map (Unit {0}) × FileStore)
reserve key s exclusive (some u) = err revocation_state_integrity_failure
reserve key s exclusive none = ok (insert key tt exclusive, with_key key s)

-- NewFileRevocationStateStoreExclusive
unfoldable pub new_file_store_exclusive :
    (Bytes → Bytes) → Bytes → Bytes → Map (Unit {0}) → Result Code (Map (Unit {0}) × FileStore)
new_file_store_exclusive normalize path hmac_key exclusive = new_file_store path hmac_key >>= λ s.
    reserve (normalize path) s exclusive (lookup (normalize path) exclusive)

-- What Close does to the register
unfoldable pub release : FileStore → Map (Unit {0}) → Map (Unit {0})
release s exclusive =
    if s.closed
    then exclusive
    else if is_nil s.exclusive_key
    then exclusive
    else remove s.exclusive_key exclusive

-- What Close does to the store
unfoldable pub close : FileStore → FileStore
close s = record {
  path = s.path;
  hmac_key = s.hmac_key;
  exclusive_key = s.exclusive_key;
  closed = true;
}

unfoldable pub close_nth : ℕ → List FileStore → List FileStore
close_nth n [] = []
close_nth zero (s ∷ stores) = close s ∷ stores
close_nth (suc n) (s ∷ stores) = s ∷ close_nth n stores

-- A call of one of the process's threads; Close names its store by its place.
pub data Call : Type 0 where
  open_shared : Bytes → Bytes → Call
  open_exclusive : Bytes → Bytes → Call
  close_store : ℕ → Call

unfoldable pub opened : Result Code FileStore → Process → Process
opened (err e) p = p
opened (ok s) p = record { exclusive = p.exclusive; stores = s ∷ p.stores }

unfoldable pub reserved : Result Code (Map (Unit {0}) × FileStore) → Process → Process
reserved (err e) p = p
reserved (ok (exclusive, s)) p = record { exclusive = exclusive; stores = s ∷ p.stores }

unfoldable pub closed_at : ℕ → Option FileStore → Process → Process
closed_at n none p = p
closed_at n (some s) p = record { exclusive = release s p.exclusive; stores = close_nth n p.stores }

unfoldable pub step : (Bytes → Bytes) → Call → Process → Process
step normalize (open_shared path key) p = opened (new_file_store path key) p
step normalize (open_exclusive path key) p =
    reserved (new_file_store_exclusive normalize path key p.exclusive) p
step normalize (close_store n) p = closed_at n (get_elem? p.stores n) p

unfoldable pub run_calls : (Bytes → Bytes) → List Call → Process → Process
run_calls normalize [] p = p
run_calls normalize (call ∷ calls) p = run_calls normalize calls (step normalize call p)

-- The exclusive writers of a key: its stores that are not closed.
unfoldable pub writes_to : Bytes → FileStore → ℕ
writes_to k s = if not s.closed && eqb s.exclusive_key k then 1 else 0

unfoldable pub writers : Bytes → List FileStore → ℕ
writers k [] = 0
writers k (s ∷ stores) = writes_to k s + writers k stores

reserved_count : Option (Unit {0}) → ℕ
reserved_count none = 0
reserved_count (some u) = 1

-- The register has exactly the keys that have a writer, and each has one.
abbrev Registered : Process → Type 0
Registered p = (k : Bytes) → k ≢ [] → writers k p.stores ≡ reserved_count (lookup k p.exclusive)

new_file_store-writes_to :
    (path key : Bytes) (s : FileStore)
    → new_file_store path key ≡ ok s
    → (s.closed ≡ false) × (s.exclusive_key ≡ [])
unfolding new_file_store
new_file_store-writes_to path key s h = ground arith

writes_to_none : (k : Bytes) (s : FileStore) → k ≢ [] → s.exclusive_key ≡ [] → writes_to k s ≡ 0
unfolding writes_to
writes_to_none k s ne e = ground (arith, eqb_iff s.exclusive_key k)

reserved_count-insert :
    (key k : Bytes) (exclusive : Map (Unit {0})) (s : FileStore)
    → lookup key exclusive ≡ none
    → s.closed ≡ false
    → writes_to k (with_key key s) + reserved_count (lookup k exclusive)
      ≡ reserved_count (lookup k (insert key tt exclusive))
unfolding writes_to reserved_count
reserved_count-insert key k exclusive s free live =
    rw (lookup-insert key k tt exclusive, live) (at (eqb key k) refl)
  where
    at :
        (b : Bool)
        → eqb key k ≡ b
        → (if b then 1 else 0) + reserved_count (lookup k exclusive)
          ≡ reserved_count (if b then some tt else lookup k exclusive)
    at true e = rw (ap (λ j. lookup j exclusive) (sym (eqb→eq key k e)) ∙ free) refl
    at false e = omega arith

nil : (b : Bytes) → is_nil b ≡ true → b ≡ []
nil [] h = refl
nil (c ∷ b) h = cc

held :
    (o : Option (Unit {0})) (b : Bool)
    → (if b then 1 else 0) ≤ reserved_count o
    → reserved_count (if b then none else o) + (if b then 1 else 0) ≡ reserved_count o
unfolding reserved_count
held none true h = absurd (omega (arith, h))
held (some u) true h = refl
held none false h = refl
held (some u) false h = refl

count-release :
    (k : Bytes) (s : FileStore) (exclusive : Map (Unit {0}))
    → k ≢ []
    → writes_to k s ≤ reserved_count (lookup k exclusive)
    → reserved_count (lookup k (release s exclusive)) + writes_to k s
      ≡ reserved_count (lookup k exclusive)
unfolding release writes_to reserved_count
count-release k s exclusive ne le = at (Bool-cases s.closed)
  where
    shut_at :
        s.closed ≡ false
        → (b : Bool) → is_nil s.exclusive_key ≡ b
        → reserved_count (lookup k (if b then exclusive else remove s.exclusive_key exclusive))
            + (if eqb s.exclusive_key k then 1 else 0)
          ≡ reserved_count (lookup k exclusive)
    shut_at live true e = ground (arith, eqb_iff s.exclusive_key k, nil s.exclusive_key e)
    shut_at live false e =
        rw (lookup-remove s.exclusive_key k exclusive)
          (held (lookup k exclusive) (eqb s.exclusive_key k) (ground arith))

    at :
        (s.closed ≡ true) ⊎ (s.closed ≡ false)
        → reserved_count (lookup k (release s exclusive))
            + (if not s.closed && eqb s.exclusive_key k then 1 else 0)
          ≡ reserved_count (lookup k exclusive)
    at (inl shut) = rw shut (omega arith)
    at (inr live) = rw live (shut_at live (is_nil s.exclusive_key) refl)

writers-close_nth :
    (k : Bytes) (n : ℕ) (stores : List FileStore) (s : FileStore)
    → get_elem? stores n ≡ some s
    → writers k (close_nth n stores) + writes_to k s ≡ writers k stores
unfolding writers close_nth writes_to close
writers-close_nth k n [] s h = cc
writers-close_nth k zero (t ∷ stores) s h = rw (of_some h) (ground arith)
writers-close_nth k (suc n) (t ∷ stores) s h =
    let ih = writers-close_nth k n stores s h in omega (arith, ih)

opened-Registered :
    (path key : Bytes) (p : Process)
    → Registered p
    → (r : Result Code FileStore) → new_file_store path key ≡ r
    → Registered (opened r p)
unfolding opened writers
opened-Registered path key p h (err e) d k ne = h k ne
opened-Registered path key p h (ok s) d k ne =
    rw (writes_to_none k s ne (new_file_store-writes_to path key s d).1, h k ne) (omega arith)

reserved-Registered :
    (key : Bytes) (s : FileStore) (p : Process) (o : Option (Unit {0}))
    → Registered p
    → s.closed ≡ false
    → lookup key p.exclusive ≡ o
    → Registered (reserved (reserve key s p.exclusive o) p)
unfolding reserved reserve writers
reserved-Registered key s p (some u) h live d k ne = h k ne
reserved-Registered key s p none h live d k ne =
    rw (h k ne) (reserved_count-insert key k p.exclusive s d live)

exclusive-Registered :
    (normalize : Bytes → Bytes) (path key : Bytes) (p : Process)
    → Registered p
    → (r : Result Code FileStore) → new_file_store path key ≡ r
    → Registered (
        reserved
          (r >>= λ s. reserve (normalize path) s p.exclusive (lookup (normalize path) p.exclusive))
          p)
unfolding reserved
exclusive-Registered normalize path key p h (err e) d = h
exclusive-Registered normalize path key p h (ok s) d =
    reserved-Registered (normalize path) s p (lookup (normalize path) p.exclusive) h
      (new_file_store-writes_to path key s d).0 refl

closed-Registered :
    (n : ℕ) (p : Process) (o : Option FileStore)
    → Registered p
    → get_elem? p.stores n ≡ o
    → Registered (closed_at n o p)
unfolding closed_at
closed-Registered n p none h d k ne = h k ne
closed-Registered n p (some s) h d k ne =
    let left = writers-close_nth k n p.stores s d in
    let here = h k ne in
    let freed = count-release k s p.exclusive ne (omega (arith, left, here)) in
    omega (arith, left, here, freed)

step-Registered :
    (normalize : Bytes → Bytes) (call : Call) (p : Process)
    → Registered p
    → Registered (step normalize call p)
unfolding step new_file_store_exclusive
step-Registered normalize (open_shared path key) p h =
    opened-Registered path key p h (new_file_store path key) refl
step-Registered normalize (open_exclusive path key) p h =
    exclusive-Registered normalize path key p h (new_file_store path key) refl
step-Registered normalize (close_store n) p h = closed-Registered n p (get_elem? p.stores n) h refl

run_calls-Registered :
    (normalize : Bytes → Bytes) (calls : List Call) (p : Process)
    → Registered p
    → Registered (run_calls normalize calls p)
unfolding run_calls
run_calls-Registered normalize [] p h = h
run_calls-Registered normalize (call ∷ calls) p h =
    run_calls-Registered normalize calls (step normalize call p)
      (step-Registered normalize call p h)

started-Registered : Registered started
unfolding writers reserved_count lookup
started-Registered k ne = refl

reserve_iff :
    (key : Bytes) (s : FileStore) (exclusive : Map (Unit {0})) (o : Option (Unit {0}))
    → ((r : Map (Unit {0}) × FileStore) × (reserve key s exclusive o ≡ ok r))
      ↔ (reserved_count o ≡ 0)
unfolding reserve reserved_count
reserve_iff key s exclusive none =
    (λ w. refl, λ h. ((insert key tt exclusive, with_key key s), refl))
reserve_iff key s exclusive (some u) = (λ (r, h). cc, λ h. absurd (omega arith))

reserved_count_bound : (o : Option (Unit {0})) → reserved_count o ≤ 1
unfolding reserved_count
reserved_count_bound none = omega arith
reserved_count_bound (some u) = omega arith

-- In one process, whatever stores it opened and closed before: a path (not empty, as it is normalised) has at
-- most one exclusive writer that is not closed, and a path and a key that are not empty can be opened for
-- exclusive writing exactly when there is none.
pub one_exclusive_writer :
    (normalize : Bytes → Bytes) (calls : List Call) (path key : Bytes)
    → normalize path ≢ []
    → path ≢ []
    → key ≢ []
    → (writers (normalize path) (run_calls normalize calls started).stores ≤ 1)
      × (((r : Map (Unit {0}) × FileStore) × (new_file_store_exclusive normalize path key
                (run_calls normalize calls started).exclusive
              ≡ ok r))
          ↔ (writers (normalize path) (run_calls normalize calls started).stores ≡ 0))
unfolding new_file_store_exclusive new_file_store
one_exclusive_writer normalize calls path key np ne nk =
    rw
      (
        run_calls-Registered normalize calls started started-Registered (normalize path) np,
        filled path ne,
        filled key nk,
      )
      (
        reserved_count_bound
            (lookup (normalize path) (run_calls normalize calls started).exclusive),
        reserve_iff (normalize path)
            record { path = path; hmac_key = key; exclusive_key = []; closed = false }
            (run_calls normalize calls started).exclusive
            (lookup (normalize path) (run_calls normalize calls started).exclusive),
      )
  where
    filled : (b : Bytes) → b ≢ [] → is_nil b ≡ false
    filled [] h = absurd (h refl)
    filled (c ∷ b) h = refl
