-- ===== src/Revocation/State/Tests.antt =====
-- Runs of the store of revocation marks.
use grantseal.Prelude.{ℕ, ◌≡◌, ◌≢◌, ◌⊎◌, refl, some, codes, [], ◌∷◌, arith, eqb, eqb-ne}
use grantseal.Prelude.Maps.{lookup}
use grantseal.Prelude.Results.{ok, err}
use grantseal.Code.{revocation_stale, revocation_rollback}
use grantseal.Revocation.State.{
  RevocationState, classify_revocation_transition, commit, check_and_save, run, MemStore,
}
use grantseal.Revocation.State.Replay.{no_replay, no_substitution}

abbrev mark : ℕ → RevocationState
mark n = record { list_id = codes "main"; sequence = n; issued_at = 0; payload_digest = codes "d1" }

abbrev substitute : RevocationState
substitute = record {
  list_id = codes "main";
  sequence = 5;
  issued_at = 0;
  payload_digest = codes "d2";
}

abbrev mark_store : MemStore
mark_store = (codes "main", mark 5) ∷ []

differs : codes "d2" ≢ codes "d1"
unfolding eqb
differs = eqb-ne (codes "d2") (codes "d1") refl

first_accepted : (check_and_save (some (mark 5)) []).1 ≡ ok tt
unfolding check_and_save classify_revocation_transition lookup commit
first_accepted = refl

no_replay_example :
    (check_and_save (some (mark 4)) (run (mark 7 ∷ []) (check_and_save (some (mark 5)) []).0)).1
    ≡ err revocation_stale
no_replay_example = no_replay (mark 5) (mark 4) [] (mark 7 ∷ []) first_accepted refl (omega arith)

no_substitution_example :
    ((check_and_save (some substitute) (run (mark 4 ∷ []) (check_and_save (some (mark 5)) []).0)).1
      ≡ err revocation_stale)
    ⊎ ((check_and_save
          (some substitute)
          (run (mark 4 ∷ []) (check_and_save (some (mark 5)) []).0)).1
        ≡ err revocation_rollback)
no_substitution_example =
    no_substitution (mark 5) substitute [] (mark 4 ∷ []) first_accepted refl refl differs
