-- ===== src/Verifier/Encoded.antt =====
-- What CanonicalBytes and canonicalRevocation give: the canonical encoding of the JSON tree.
use grantseal.Prelude.{Option, none, some, [], Bytes, ◌≡◌, ◌≢◌, refl}
use grantseal.Prelude.Results.{Result, ok, ◌>>=◌, of_ok}
use grantseal.Code.{Code}
use grantseal.Json.{Json, Members, object}
use grantseal.Json.Canonical.{encode_canonical, sorted, write}
use grantseal.Verifier.{or_malformed}

pub encoded_tree :
    (o : Option Json) (quote : Bytes → Bytes) (b : Bytes)
    → ◌≡◌ {A = Result Code Bytes} (or_malformed o >>= λ v. ok (encode_canonical quote v)) (ok b)
    → (v : Json) × (o ≡ some v) × (encode_canonical quote v ≡ b)
encoded_tree none quote b h = absurd (cc)
encoded_tree (some v) quote b h = (v, refl, of_ok h)

-- The encoding of an object has at least its braces.
pub encode_canonical-object :
    (quote : Bytes → Bytes) (ms : Members) → encode_canonical quote (object ms) ≢ []
unfolding encode_canonical sorted write
encode_canonical-object quote ms h = absurd (cc)
