-- ===== src/Revocation/State/Replay.antt =====
-- Replayed and substituted revocation lists: what the store answers after any history of calls.
use grantseal.Prelude.{
  ◌<◌, Bool, true, false, Option, none, some, List, eqb_iff, ◌≡◌, ◌≢◌, ◌⊎◌, inl, inr, refl, arith,
  ap, ◌∙◌, subst, sym,
}
use grantseal.Prelude.Maps.{lookup}
use grantseal.Prelude.Results.{Result, ok, err}
use grantseal.Code.{Code, revocation_stale, revocation_rollback}
use grantseal.Revocation.State.{
  RevocationState, classify, classify_revocation_transition, MemStore, check_and_save, run,
}
use grantseal.Revocation.State.Marks.{
  Advances, Advances-refl, Advances-trans, Keeps, run-Keeps, classify_refusals, after_commit,
  answer, check_and_save_self, check_and_save-answer,
}

unwritten_Advances :
    (prev next : RevocationState) → classify prev next ≡ ok false → Advances next prev
unfolding classify
unwritten_Advances prev next h = inr (seq, digest)
  where
    seq : next.sequence ≡ prev.sequence
    seq = ground arith

    digest : next.payload_digest ≡ prev.payload_digest
    digest = ground (arith, eqb_iff prev.payload_digest next.payload_digest)

-- After an accepted call the list has a mark that is the accepted one or ahead of it.
decided_mark :
    (prev next : RevocationState) (r : Result Code Bool)
    → classify prev next ≡ r
    → answer r ≡ ok tt
    → (st : RevocationState) × (after_commit r next (some prev) ≡ some st) × Advances next st
unfolding after_commit answer
decided_mark prev next (err c) e h = cc
decided_mark prev next (ok true) e h = (next, refl, Advances-refl next)
decided_mark prev next (ok false) e h = (prev, refl, unwritten_Advances prev next e)

pub accepted_mark :
    (prev : Option RevocationState) (next : RevocationState)
    → answer (classify_revocation_transition prev (some next)) ≡ ok tt
    → (st : RevocationState) × (after_commit
          (classify_revocation_transition prev (some next))
          next
          prev
        ≡ some st)
      × Advances next st
unfolding classify_revocation_transition after_commit answer
accepted_mark none next h = (next, refl, Advances-refl next)
accepted_mark (some prev) next h = decided_mark prev next (classify prev next) refl h

pub Keeps-some :
    (a : RevocationState) (o : Option RevocationState)
    → Keeps (some a) o
    → (st : RevocationState) × (o ≡ some st) × Advances a st
Keeps-some a none k = absurd k
Keeps-some a (some st) k = (st, refl, k)

-- The mark that a later caller of the same list meets.
mark_met :
    (next : RevocationState) (m : MemStore) (calls : List RevocationState)
    → (check_and_save (some next) m).1 ≡ ok tt
    → (st : RevocationState) × (lookup next.list_id (run calls (check_and_save (some next) m).0)
        ≡ some st)
      × Advances next st
mark_met next m calls h =
    let (a, at_once, ahead) =
      accepted_mark (lookup next.list_id m) next (sym (check_and_save-answer next m) ∙ h) in
    let kept =
      subst (λ o. Keeps o (lookup next.list_id (run calls (check_and_save (some next) m).0)))
        (check_and_save_self next m ∙ at_once)
        (run-Keeps calls (check_and_save (some next) m).0 next.list_id) in
    let (st, later, further) =
      Keeps-some a (lookup next.list_id (run calls (check_and_save (some next) m).0)) kept in
    (st, later, Advances-trans next a st ahead further)

answer_at :
    (st old : RevocationState) (m : MemStore) (r : Result Code Bool)
    → lookup old.list_id m ≡ some st
    → classify st old ≡ r
    → (check_and_save (some old) m).1 ≡ answer r
unfolding classify_revocation_transition
answer_at st old m r h e =
    check_and_save-answer old m
    ∙ ap (λ o. answer (classify_revocation_transition o (some old))) h
    ∙ ap answer e

-- A list that was accepted is never superseded by an older one: after any further calls, a candidate of
-- that list with a lower sequence is answered revocation_stale.
pub no_replay :
    (next old : RevocationState) (m : MemStore) (calls : List RevocationState)
    → (check_and_save (some next) m).1 ≡ ok tt
    → old.list_id ≡ next.list_id
    → old.sequence < next.sequence
    → (check_and_save (some old) (run calls (check_and_save (some next) m).0)).1
      ≡ err revocation_stale
unfolding answer
no_replay next old m calls h id lower =
    let (st, met, ahead) = mark_met next m calls h in
    answer_at st old (run calls (check_and_save (some next) m).0) (err revocation_stale) (rw id met)
      ((classify_refusals st old).0.1 (below next old st lower ahead))
  where
    below :
        (next old st : RevocationState)
        → old.sequence < next.sequence
        → Advances next st
        → old.sequence < st.sequence
    below next old st l a = ground arith

-- Nor is it replaced by another list under its number: after any further calls, a candidate of that list
-- with the same sequence and other content is answered revocation_stale or revocation_rollback.
pub no_substitution :
    (next other : RevocationState) (m : MemStore) (calls : List RevocationState)
    → (check_and_save (some next) m).1 ≡ ok tt
    → other.list_id ≡ next.list_id
    → other.sequence ≡ next.sequence
    → other.payload_digest ≢ next.payload_digest
    → ((check_and_save (some other) (run calls (check_and_save (some next) m).0)).1
        ≡ err revocation_stale)
      ⊎ ((check_and_save (some other) (run calls (check_and_save (some next) m).0)).1
          ≡ err revocation_rollback)
unfolding answer
no_substitution next other m calls h id same differs =
    let (st, met, ahead) = mark_met next m calls h in
    let here = run calls (check_and_save (some next) m).0 in
    elim ahead [
      | inl lower ↦ inl (
          answer_at st other here (err revocation_stale) (rw id met)
            ((classify_refusals st other).0.1 (subst (λ n. n < st.sequence) (sym same) lower)))
      | inr (level, digest) ↦ inr (
          answer_at st other here (err revocation_rollback) (rw id met)
            ((classify_refusals st other).1.1 (same ∙ level, λ e. differs (sym e ∙ sym digest))))
    ]
