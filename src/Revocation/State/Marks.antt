-- ===== src/Revocation/State/Marks.antt =====
-- One call of CheckAndSaveRevocationState: its outcome and what it does to every mark.
use grantseal.Prelude.{
  ◌<◌, if◌then◌else◌, Bool, true, false, Option, none, some, List, [], ◌∷◌, Bytes, eqb, eqb→eq,
  eqb_iff, eqb_refl, ◌≡◌, ◌≢◌, ◌⊎◌, ◌↔◌, inl, inr, refl, ap, ◌∙◌, subst, arith, Bool-cases,
}
use grantseal.Prelude.Maps.{lookup, lookup-insert}
use grantseal.Prelude.Results.{Result, ok, err}
use grantseal.Code.{Code, revocation_stale, revocation_rollback}
use grantseal.Revocation.State.{
  RevocationState, classify, classify_revocation_transition, MemStore, commit, check_and_save, run,
}

-- A mark advances: a higher sequence, or the same sequence with the same content.
abbrev pub Advances : RevocationState → RevocationState → Type 0
Advances prev next =
    (prev.sequence < next.sequence)
    ⊎ ((prev.sequence ≡ next.sequence) × (prev.payload_digest ≡ next.payload_digest))

-- The first accepted mark of a list, and every later one, advances.
abbrev pub Keeps : Option RevocationState → Option RevocationState → Type 0
Keeps none after = Unit
Keeps (some prev) none = ⊥
Keeps (some prev) (some next) = Advances prev next

pub Advances-refl : (s : RevocationState) → Advances s s
Advances-refl s = inr (refl, refl)

pub Advances-trans : (r s t : RevocationState) → Advances r s → Advances s t → Advances r t
Advances-trans r s t h k = ground arith

pub Keeps-refl : (o : Option RevocationState) → Keeps o o
Keeps-refl none = tt
Keeps-refl (some s) = Advances-refl s

pub Keeps-trans : (a b c : Option RevocationState) → Keeps a b → Keeps b c → Keeps a c
Keeps-trans none b c h k = tt
Keeps-trans (some r) none c h k = absurd h
Keeps-trans (some r) (some s) none h k = absurd k
Keeps-trans (some r) (some s) (some t) h k = Advances-trans r s t h k

-- The decision accepts exactly the candidates that advance the mark.
pub classify_iff :
    (prev next : RevocationState) → ((w : Bool) × (classify prev next ≡ ok w)) ↔ Advances prev next
unfolding classify
classify_iff prev next =
    (λ (w, h). ground (arith, eqb_iff prev.payload_digest next.payload_digest), λ a. accept a)
  where
    accept : Advances prev next → (w : Bool) × (classify prev next ≡ ok w)
    accept (inl h) = (true, ground arith)
    accept (inr (e, d)) = (false, ground (arith, eqb_iff prev.payload_digest next.payload_digest))

-- A lower sequence is stale, and the same sequence with other content is a rollback.
pub classify_refusals :
    (prev next : RevocationState)
    → ((classify prev next ≡ err revocation_stale) ↔ (next.sequence < prev.sequence))
      × ((classify prev next ≡ err revocation_rollback)
          ↔ ((next.sequence ≡ prev.sequence) × (prev.payload_digest ≢ next.payload_digest)))
unfolding classify
classify_refusals prev next = (
  (λ h. ground arith, λ h. ground arith),
  (
    λ h. ground (arith, eqb_iff prev.payload_digest next.payload_digest),
    λ h. ground (arith, eqb_iff prev.payload_digest next.payload_digest),
  ),
)

commit_other :
    (r : Result Code Bool) (next : RevocationState) (m : MemStore) (j : Bytes)
    → eqb next.list_id j ≡ false
    → lookup j (commit r next m).0 ≡ lookup j m
unfolding commit
commit_other (err c) next m j h = refl
commit_other (ok true) next m j h =
    lookup-insert next.list_id j next m ∙ ap (λ b. if b then some next else lookup j m) h
commit_other (ok false) next m j h = refl

-- What the call does to the mark of its own list, given the decision over the mark before it.
unfoldable pub after_commit :
    Result Code Bool → RevocationState → Option RevocationState → Option RevocationState
after_commit (err c) next prev = prev
after_commit (ok true) next prev = some next
after_commit (ok false) next prev = prev

commit_self :
    (r : Result Code Bool) (next : RevocationState) (m : MemStore)
    → lookup next.list_id (commit r next m).0 ≡ after_commit r next (lookup next.list_id m)
unfolding commit after_commit
commit_self (err c) next m = refl
commit_self (ok true) next m =
    lookup-insert next.list_id next.list_id next m
    ∙ ap (λ b. if b then some next else lookup next.list_id m) (eqb_refl next.list_id)
commit_self (ok false) next m = refl

decided-Keeps :
    (prev next : RevocationState) (r : Result Code Bool)
    → classify prev next ≡ r
    → Keeps (some prev) (after_commit r next (some prev))
unfolding after_commit
decided-Keeps prev next (err c) e = Advances-refl prev
decided-Keeps prev next (ok true) e = (classify_iff prev next).0 (true, e)
decided-Keeps prev next (ok false) e = Advances-refl prev

after_commit-Keeps :
    (prev : Option RevocationState) (next : RevocationState)
    → Keeps prev (after_commit (classify_revocation_transition prev (some next)) next prev)
unfolding classify_revocation_transition after_commit
after_commit-Keeps none next = tt
after_commit-Keeps (some prev) next = decided-Keeps prev next (classify prev next) refl

pub check_and_save_self :
    (next : RevocationState) (m : MemStore)
    → lookup next.list_id (check_and_save (some next) m).0
      ≡ after_commit
          (classify_revocation_transition (lookup next.list_id m) (some next))
          next
          (lookup next.list_id m)
unfolding check_and_save
check_and_save_self next m =
    commit_self (classify_revocation_transition (lookup next.list_id m) (some next)) next m

check_and_save_other :
    (next : RevocationState) (m : MemStore) (j : Bytes)
    → eqb next.list_id j ≡ false
    → lookup j (check_and_save (some next) m).0 ≡ lookup j m
unfolding check_and_save
check_and_save_other next m j h =
    commit_other (classify_revocation_transition (lookup next.list_id m) (some next)) next m j h

-- One call, accepted or refused, keeps or advances the mark of every list, its own and the others.
pub check_and_save-Keeps :
    (next : RevocationState) (m : MemStore) (j : Bytes)
    → Keeps (lookup j m) (lookup j (check_and_save (some next) m).0)
check_and_save-Keeps next m j = elim (Bool-cases (eqb next.list_id j)) [
  | inl same ↦
      subst (λ k. Keeps (lookup k m) (lookup k (check_and_save (some next) m).0))
        (eqb→eq next.list_id j same)
        (rw (check_and_save_self next m) (after_commit-Keeps (lookup next.list_id m) next))
  | inr other ↦ rw (check_and_save_other next m j other) (Keeps-refl (lookup j m))
]

-- However many calls follow one another, no mark ever regresses or changes its content.
pub run-Keeps :
    (calls : List RevocationState) (m : MemStore) (j : Bytes)
    → Keeps (lookup j m) (lookup j (run calls m))
unfolding run
run-Keeps [] m j = Keeps-refl (lookup j m)
run-Keeps (next ∷ calls) m j =
    Keeps-trans (lookup j m) (lookup j (check_and_save (some next) m).0)
      (lookup j (run calls (check_and_save (some next) m).0)) (check_and_save-Keeps next m j)
      (run-Keeps calls (check_and_save (some next) m).0 j)

unfoldable pub answer : Result Code Bool → Result Code (Unit {0})
answer (err c) = err c
answer (ok w) = ok tt

pub check_and_save-answer :
    (next : RevocationState) (m : MemStore)
    → (check_and_save (some next) m).1
      ≡ answer (classify_revocation_transition (lookup next.list_id m) (some next))
unfolding check_and_save
check_and_save-answer next m =
    go (classify_revocation_transition (lookup next.list_id m) (some next))
  where
    go : (r : Result Code Bool) → (commit r next m).1 ≡ answer r
    go (err c) = unfold commit answer in refl
    go (ok true) = unfold commit answer in refl
    go (ok false) = unfold commit answer in refl
