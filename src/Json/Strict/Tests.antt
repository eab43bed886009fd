-- ===== src/Json/Strict/Tests.antt =====
-- Runs of the strict scan on {"a": ["x", 1], "b": {"a": null}}.
use grantseal.Prelude.{true, List, [], ◌∷◌, eqb, ◌≡◌, ◌↔◌, refl, ◌++◌}
use grantseal.Prelude.Results.{ok, err}
use grantseal.Code.{malformed}
use grantseal.Json.{Json, scalar, text, array, object, nil, cons, end, member}
use grantseal.Json.Strict.{Token, reject_duplicate_keys, walk_no_dup_keys, check_end}
use grantseal.Json.Strict.Unique.{tokens, unique, reject_duplicate_keys_iff}

abbrev nested : Json
nested = object (
    member (97 ∷ []) (array (cons (text (120 ∷ [])) (cons (scalar (49 ∷ [])) nil)))
      (member (98 ∷ []) (object (member (97 ∷ []) (scalar (110 ∷ [])) end)) end))

abbrev repeated : Json
repeated = object (member (97 ∷ []) (scalar (49 ∷ [])) (member (97 ∷ []) nested end))

reject_duplicate_keys_iff_example :
    (reject_duplicate_keys (record { tokens = tokens nested ++ []; at_end = true }) ≡ ok tt)
    ↔ ((unique nested ≡ true) × (true ≡ true) × (◌≡◌ {A = List Token} [] []))
reject_duplicate_keys_iff_example = reject_duplicate_keys_iff nested [] true

nested_accepted : reject_duplicate_keys (record { tokens = tokens nested; at_end = true }) ≡ ok tt
unfolding reject_duplicate_keys walk_no_dup_keys tokens check_end eqb
nested_accepted = refl

repeated_refused :
    reject_duplicate_keys (record { tokens = tokens repeated; at_end = true }) ≡ err malformed
unfolding reject_duplicate_keys walk_no_dup_keys tokens check_end eqb
repeated_refused = refl
