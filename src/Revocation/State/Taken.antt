-- ===== src/Revocation/State/Taken.antt =====
-- When the in-memory store of pkg/license/revocation_state.go takes a candidate, and what it holds then.
use grantseal.Prelude.{
  ◌<◌, Bool, true, false, Option, none, some, ◌≡◌, ◌⊎◌, ◌↔◌, inl, inr, refl, ap, sym, eqb_iff,
  arith,
}
use grantseal.Prelude.Maps.{lookup, insert}
use grantseal.Prelude.Results.{Result, ok, err}
use grantseal.Code.{Code}
use grantseal.Revocation.State.{
  RevocationState, MemStore, classify, classify_revocation_transition, commit, check_and_save,
}

-- Over the mark of its list, where there is one, the candidate has a higher sequence and becomes the mark, or it
-- has the same sequence and content and the store stays as it is.
abbrev pub IsTaken : Option RevocationState → RevocationState → MemStore → MemStore → Type 0
IsTaken none next m left = left ≡ insert next.list_id next m
IsTaken (some prev) next m left =
    ((prev.sequence < next.sequence) × (left ≡ insert next.list_id next m))
    ⊎ ((next.sequence ≡ prev.sequence) × (prev.payload_digest ≡ next.payload_digest) × (left ≡ m))

newer_iff :
    (prev next : RevocationState) → (classify prev next ≡ ok true) ↔ (prev.sequence < next.sequence)
unfolding classify
newer_iff prev next = (λ h. ground arith, λ h. ground arith)

same_iff :
    (prev next : RevocationState)
    → (classify prev next ≡ ok false)
      ↔ ((next.sequence ≡ prev.sequence) × (prev.payload_digest ≡ next.payload_digest))
unfolding classify
same_iff prev next = (
  λ h. ground (arith, eqb_iff prev.payload_digest next.payload_digest),
  λ h. ground (arith, eqb_iff prev.payload_digest next.payload_digest),
)

decided_iff :
    (prev next : RevocationState) (m left : MemStore) (r : Result Code Bool)
    → classify prev next ≡ r
    → (commit r next m ≡ (left, ok tt)) ↔ IsTaken (some prev) next m left
unfolding commit
decided_iff prev next m left (err c) e = (
  λ h. absurd (cc),
  λ t. elim t [
    | inl (l, k) ↦ absurd (cc (e, (newer_iff prev next).1 l))
    | inr (q, d, k) ↦ absurd (cc (e, (same_iff prev next).1 (q, d)))
  ],
)
decided_iff prev next m left (ok true) e = (
  λ h. inl ((newer_iff prev next).0 e, ap (λ p. p.0) (sym h)),
  λ t. elim t [
    | inl (l, k) ↦ ap (λ n. (n, ok tt)) (sym k)
    | inr (q, d, k) ↦ absurd (cc (e, (same_iff prev next).1 (q, d)))
  ],
)
decided_iff prev next m left (ok false) e = (
  λ h. let (q, d) = (same_iff prev next).0 e in inr (q, d, ap (λ p. p.0) (sym h)),
  λ t. elim t [
    | inl (l, k) ↦ absurd (cc (e, (newer_iff prev next).1 l))
    | inr (q, d, k) ↦ ap (λ n. (n, ok tt)) (sym k)
  ],
)

pub check_and_save_iff :
    (next : RevocationState) (m left : MemStore)
    → (check_and_save (some next) m ≡ (left, ok tt)) ↔ IsTaken (lookup next.list_id m) next m left
unfolding check_and_save classify_revocation_transition
check_and_save_iff next m left = go (lookup next.list_id m)
  where
    go :
        (o : Option RevocationState)
        → (commit (classify_revocation_transition o (some next)) next m ≡ (left, ok tt))
          ↔ IsTaken o next m left
    go none = unfold commit in (λ h. ap (λ p. p.0) (sym h), λ k. ap (λ n. (n, ok tt)) (sym k))
    go (some prev) = decided_iff prev next m left (classify prev next) refl
