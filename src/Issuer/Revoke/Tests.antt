-- ===== src/Issuer/Revoke/Tests.antt =====
-- An issued revocation list.
use grantseal.Prelude.{ℕ, true, false, none, some, codes, [], ◌∷◌, pos}
use grantseal.Json.{object, end}
use grantseal.Prelude.Results.{ok}
use grantseal.KeyRing.{KeyEntry}
use grantseal.Revocation.List.{RevocationList, ListLibrary, RevocationPolicy}
use grantseal.Revocation.State.{MemStore}
use grantseal.Issuer.Signer.{Signing, Signer}
use grantseal.Issuer.Revoke.{RevocationListOptions}
use grantseal.Samples.{on_day, envelope}

abbrev options : RevocationListOptions
options = record {
  list_id = codes "main";
  sequence = 3;
  issued_at = on_day 0;
  expires_at = on_day 7;
  revoked_ids = codes "lic-9" ∷ [] ∷ codes "lic-9" ∷ [];
}

abbrev signer : Signer
signer = record { key_id = codes "k-1"; priv = codes "0123456789abcdef0123456789abcdef" }

abbrev weekly : RevocationList
weekly = record {
  schema_version = pos 2;
  list_id = codes "main";
  sequence = 3;
  issued_at = on_day 0;
  expires_at = some (on_day 7);
  key_id = codes "k-1";
  revoked_ids = codes "lic-9" ∷ [];
}

-- Every signature is the one of the sample.
abbrev signing : Signing
signing = record {
  b64_encode = λ b. b;
  hex_encode = λ b. b;
  sign = λ priv m. envelope.signature;
  public_of = λ priv. codes "0123456789abcdef0123456789abcdef";
  new_key_from_seed = λ seed. seed;
}

abbrev library : ListLibrary
library = record {
  read_envelope = λ content. ok envelope;
  read_list = λ text. some weekly;
  json_of = λ rl. some (object end);
  quote = λ s. s;
  b64_decode = λ b. some b;
  verify_signature = λ key message sig. true;
  digest = λ b. b;
}

abbrev policy : RevocationPolicy
policy = record {
  clock_skew = pos 0;
  max_age = pos 0;
  allow_legacy_v1 = false;
  relax_fresh = false;
}

abbrev ring_entry : KeyEntry
ring_entry = record {
  key_id = codes "k-1";
  public_key = codes "0123456789abcdef0123456789abcdef";
  enabled = true;
  revoked = false;
  not_before = some (on_day 0);
  not_after = none;
}

-- The store holds the list before, and then this one.
abbrev marked_at : ℕ → MemStore
marked_at n =
    (
      codes "main",
      record {
        list_id = codes "main";
        sequence = n;
        issued_at = on_day 0;
        payload_digest = codes "{}";
      },
    )
    ∷ []
