-- ===== src/Revocation/List/Tests.antt =====
-- A run of the loader on a concrete list.
use grantseal.Prelude.{ℕ, ◌≡◌, ◌↔◌, ◌⊎◌, refl, some, codes, [], ◌∷◌, true, false, pos}
use grantseal.Prelude.Maps.{lookup}
use grantseal.Json.{object, end}
use grantseal.Prelude.Results.{ok}
use grantseal.Time.{is_zero}
use grantseal.Revocation.State.{MemStore, commit, classify_revocation_transition, check_and_save}
use grantseal.Revocation.List.{
  RevocationList, ListLibrary, RevocationPolicy, accept_list, build_provider,
  check_revocation_replay, then_replay, check_v2, validate_revocation_v2_static, expires_later,
  check_window, check_revocation_freshness,
}
use grantseal.Revocation.List.Shape.{IsList, IsFresh}
use grantseal.Revocation.List.Accepts.{Takes, Gives, accept_list_iff}
use grantseal.Samples.{on_day, envelope}

abbrev weekly : RevocationList
weekly = record {
  schema_version = pos 2;
  list_id = codes "main";
  sequence = 3;
  issued_at = on_day 0;
  expires_at = some (on_day 7);
  key_id = codes "k-1";
  revoked_ids = codes "lic-9" ∷ [] ∷ [];
}

abbrev library : ListLibrary
library = record {
  read_envelope = λ content. ok envelope;
  read_list = λ text. some weekly;
  json_of = λ rl. some (object end);
  quote = λ s. s;
  b64_decode = λ b. some b;
  verify_signature = λ key message sig. true;
  digest = λ b. b;
}

abbrev policy : RevocationPolicy
policy = record {
  clock_skew = pos 0;
  max_age = pos 0;
  allow_legacy_v1 = false;
  relax_fresh = false;
}

-- The store holds an older list, and then this one.
abbrev marked_at : ℕ → MemStore
marked_at n =
    (
      codes "main",
      record {
        list_id = codes "main";
        sequence = n;
        issued_at = on_day 0;
        payload_digest = codes "{}";
      },
    )
    ∷ []

accept_list_iff_example :
    (accept_list library (ok (codes "{}", (weekly, false))) (on_day 3) policy (some (marked_at 2))
      ≡ (some (marked_at 3), ok (codes "lic-9" ∷ [])))
    ↔ ((false ≡ false)
        × IsList weekly
        × ((false ≡ true) ⊎ IsFresh weekly policy (on_day 3))
        × Takes library weekly
            (codes "{}")
            false
            (on_day 3)
            policy
            (some (marked_at 2))
            (some (marked_at 3))
        × Gives weekly.revoked_ids (codes "lic-9" ∷ []))
accept_list_iff_example =
    accept_list_iff library weekly (codes "{}") false (on_day 3) policy (some (marked_at 2))
      (some (marked_at 3)) (codes "lic-9" ∷ []) refl

weekly_accepted :
    (accept_list library (ok (codes "{}", (weekly, false))) (on_day 3) policy (some [])).1
    ≡ ok (codes "lic-9" ∷ [])
unfolding accept_list build_provider then_replay check_revocation_replay check_v2
    validate_revocation_v2_static expires_later check_window check_revocation_freshness
    check_and_save classify_revocation_transition commit lookup is_zero
weekly_accepted = refl
