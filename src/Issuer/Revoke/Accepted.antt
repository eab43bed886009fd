-- ===== src/Issuer/Revoke/Accepted.antt =====
-- An issued list of version 2 is one that the client accepts.
use grantseal.Prelude.{true, some, Bytes, length, ◌≡◌}
use grantseal.Code.{Code}
use grantseal.Time.{Time}
use grantseal.KeyRing.{KeyRing}
use grantseal.Verifier.{signature_size}
use grantseal.Revocation.List.{RevocationList, ListLibrary}
use grantseal.Json.{Json}
use grantseal.Json.Canonical.{write}
use grantseal.Json.Canonical.Alike.{Alike}
use grantseal.Issuer.PrivateKey.{seed_size}
use grantseal.Issuer.Signer.{Signing, Signer}

-- What issuing relies on: Base64 decodes what it encodes, Ed25519 verifies what a key from a seed of 32
-- bytes signs, with a signature of 64 bytes, and the decoding does not depend on the order of members with
-- different keys.
pub record IsListSigning (lib : ListLibrary) (k : Signing) : Type 0 where
  pub b64 : (b : Bytes) → lib.b64_decode (k.b64_encode b) ≡ some b
  pub length_sign :
      (seed m : Bytes)
      → length seed ≡ seed_size
      → length (k.sign (k.new_key_from_seed seed) m) ≡ signature_size
  pub verifies :
      (seed m : Bytes)
      → length seed ≡ seed_size
      → lib.verify_signature
          (k.public_of (k.new_key_from_seed seed))
          m
          (k.sign (k.new_key_from_seed seed) m)
        ≡ true
  pub order_free :
      (rl : RevocationList) (v w : Json)
      → lib.json_of rl ≡ some v
      → Alike v w
      → lib.read_list (write lib.quote v) ≡ some rl
      → lib.read_list (write lib.quote w) ≡ some rl

-- The JSON of a list, in the order in which encoding/json has it, decodes to the same list.
-- Texts that are not UTF-8 do not meet this, since JSON replaces their bytes.
abbrev pub ReadsBack : ListLibrary → RevocationList → Type 0
ReadsBack lib rl =
    (v : Json) → lib.json_of rl ≡ some v → lib.read_list (write lib.quote v) ≡ some rl
