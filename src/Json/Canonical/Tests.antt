-- ===== src/Json/Canonical/Tests.antt =====
-- Runs of the canonical encoding on {"b": 1, "a": [2]} and on the same value in the other order.
use grantseal.Prelude.{[], ◌∷◌, ◌++◌, Bytes, codes, eqb, eqb_iff, false, ◌≡◌, refl}
use grantseal.Version.{compare_strings}
use grantseal.Json.{Json, scalar, array, object, nil, cons, end, member}
use grantseal.Json.Canonical.{encode_canonical, sorted, insert_member, write}
use grantseal.Json.Canonical.Alike.{Alike, in_object, swapped}
use grantseal.Json.Canonical.Stable.{encode_canonical_stable}

abbrev one : Json
one = scalar (codes "1")

abbrev two : Json
two = array (cons (scalar (codes "2")) nil)

abbrev backward : Json
backward = object (member (codes "b") one (member (codes "a") two end))

abbrev forward : Json
forward = object (member (codes "a") two (member (codes "b") one end))

abbrev quote : Bytes → Bytes
quote s = 34 ∷ (s ++ (34 ∷ []))

encode_canonical_stable_example :
    (encode_canonical quote backward ≡ encode_canonical quote forward)
    × ((u : Json) × Alike backward u × (encode_canonical quote backward ≡ write quote u))
encode_canonical_stable_example = encode_canonical_stable quote backward forward (
    in_object _ _ (
      swapped (codes "b") (codes "a") one two end
        (λ e. cc (other, (eqb_iff (codes "b") (codes "a")).1 e))))
  where
    other : eqb (codes "b") (codes "a") ≡ false
    other = unfold eqb in refl

backward_encoded : encode_canonical quote backward ≡ codes "{\"a\":[2],\"b\":1}"
unfolding encode_canonical sorted insert_member write compare_strings
backward_encoded = refl
