-- ===== src/Issuer/Signer/Verifies.antt =====
-- An issued license is one that the client's verifier accepts.
use grantseal.Prelude.{
  if◌then◌else◌, Bool, true, false, Option, some, [], Bytes, length, ℤ, pos, eq_ℤ, ◌≡◌, ◌≢◌, refl,
  ap, ◌∙◌, sym, subst,
}
use grantseal.Prelude.Maps.{lookup}
use grantseal.Prelude.Results.{Result, ok, err, >>=-eq-ok, >>-eq-ok, of_ok}
use grantseal.Code.{Code}
use grantseal.Time.{Time}
use grantseal.Payload.{
  Payload, algorithm_ed25519, license_schema_version, license_signing_input, validate_static,
}
use grantseal.KeyRing.{KeyEntry, KeyRing}
use grantseal.KeyRing.Policy.{IsFrom, IsUntil}
use grantseal.Verifier.{canonical_bytes, Envelope, Library, signature_size, verify}
use grantseal.Json.{Json, Members, object}
use grantseal.Json.Canonical.{encode_canonical, sorted, write}
use grantseal.Json.Canonical.Alike.{Alike, sorted-Alike}
use grantseal.Verifier.Encoded.{encoded_tree, encode_canonical-object}
use grantseal.Verifier.Authentic.{IsAuthentic, verify_iff}
use grantseal.Issuer.PrivateKey.{seed_size}
use grantseal.Issuer.Signer.{
  IsFromSeed, Signing, Signer, IssueRequest, build_payload, new_envelope, stamp, or_invalid,
  or_canonicalize, sign_payload, issue,
}

-- What issuing relies on: Base64 decodes what it encodes, Ed25519 verifies what a key from a seed of 32 bytes
-- signs, with a signature of 64 bytes, JSON encodes a payload as an object, and the strict decoding does not
-- depend on the order of members with different keys.
pub record IsSigning (lib : Library) (k : Signing) : Type 0 where
  pub b64 : (b : Bytes) → lib.b64_decode (k.b64_encode b) ≡ some b
  pub length_sign :
      (seed m : Bytes)
      → length seed ≡ seed_size
      → length (k.sign (k.new_key_from_seed seed) m) ≡ signature_size
  pub verifies :
      (seed m : Bytes)
      → length seed ≡ seed_size
      → lib.verify_signature
          (k.public_of (k.new_key_from_seed seed))
          m
          (k.sign (k.new_key_from_seed seed) m)
        ≡ true
  pub is_object :
      (p : Payload) (v : Json) → lib.json_of p ≡ some v → (ms : Members) × (v ≡ object ms)
  pub order_free :
      (p : Payload) (v w : Json)
      → lib.json_of p ≡ some v
      → Alike v w
      → lib.read_payload (write lib.quote v) ≡ ok p
      → lib.read_payload (write lib.quote w) ≡ ok p

-- The JSON of a payload, in the order in which encoding/json has it, decodes to the same payload.
-- Texts that are not UTF-8 do not meet this, since JSON replaces their bytes.
abbrev pub ReadsBack : Library → Payload → Type 0
ReadsBack lib p = (v : Json) → lib.json_of p ≡ some v → lib.read_payload (write lib.quote v) ≡ ok p

-- The key of a signer stands in a ring, is enabled and not revoked, and its window has the instant.
pub record Holds (k : Signing) (s : Signer) (ring : KeyRing) (t : Time) : Type 0 where
  pub entry : KeyEntry
  pub stored : lookup s.key_id ring ≡ some entry
  pub public_key : entry.public_key ≡ k.public_of s.priv
  pub not_revoked : entry.revoked ≡ false
  pub enabled : entry.enabled ≡ true
  pub active_from : IsFrom entry.not_before t
  pub active_until : IsUntil entry.not_after t

stamp-stamp : (key_id : Bytes) (p : Payload) → stamp key_id (stamp key_id p) ≡ stamp key_id p
unfolding stamp
stamp-stamp key_id p =
    ap (λ z. record p { schema_version = z; key_id = key_id }) (twice p.schema_version)
  where
    twice :
        (z : ℤ)
        → (if eq_ℤ (if eq_ℤ z (pos 0) then license_schema_version else z) (pos 0)
            then license_schema_version
            else if eq_ℤ z (pos 0)
            then license_schema_version
            else z)
          ≡ (if eq_ℤ z (pos 0) then license_schema_version else z)
    twice z = at (eq_ℤ z (pos 0)) refl
      where
        at :
            (b : Bool)
            → eq_ℤ z (pos 0) ≡ b
            → (if eq_ℤ (if b then license_schema_version else z) (pos 0)
                then license_schema_version
                else if b
                then license_schema_version
                else z)
              ≡ (if b then license_schema_version else z)
        at true e = refl
        at false e = rw e refl

valid_payload : (r : Result Code (Unit {0})) → or_invalid r ≡ ok tt → r ≡ ok tt
valid_payload (ok tt) h = refl
valid_payload (err e) h = cc

encoded : (r : Result Code Bytes) (b : Bytes) → or_canonicalize r ≡ ok b → r ≡ ok b
encoded (ok c) b h = ap ok (of_ok h)
encoded (err e) b h = cc

module _ (lib : Library) (k : Signing) (laws : IsSigning lib k) (s : Signer) (ring : KeyRing) where
  length-sign : IsFromSeed k s → (m : Bytes) → length (k.sign s.priv m) ≡ signature_size
  length-sign (seed, n, e) m = rw e (laws.length_sign seed m n)

  signature_good :
      IsFromSeed k s
      → (m : Bytes) → lib.verify_signature (k.public_of s.priv) m (k.sign s.priv m) ≡ true
  signature_good (seed, n, e) m = rw e (laws.verifies seed m n)

  some_canonical : (p : Payload) (b : Bytes) → canonical_bytes lib p ≡ ok b → b ≢ []
  unfolding canonical_bytes
  some_canonical p b e empty =
      let (v, tree, is_b) = encoded_tree (lib.json_of p) lib.quote b e in
      let (ms, is_ms) = laws.is_object p v tree in
      encode_canonical-object lib.quote ms
        (ap (encode_canonical lib.quote) (sym is_ms) ∙ is_b ∙ empty)

  -- The canonical bytes are the JSON of the payload but for the order, so they decode to it as well.
  read_canonical :
      (p : Payload) (b : Bytes)
      → ReadsBack lib p
      → canonical_bytes lib p ≡ ok b
      → lib.read_payload b ≡ ok p
  unfolding canonical_bytes encode_canonical
  read_canonical p b t e =
      let (v, tree, is_b) = encoded_tree (lib.json_of p) lib.quote b e in
      subst (λ c. lib.read_payload c ≡ ok p) is_b
        (laws.order_free p v (sorted v) tree (sorted-Alike v) (t v tree))

  -- A signed payload: the envelope that is issued for it.
  unfoldable pub signed_envelope : Bytes → Envelope
  signed_envelope canonical =
      new_envelope k algorithm_ed25519 s.key_id canonical
        (k.sign s.priv (license_signing_input canonical))

  signed_IsAuthentic :
      (p : Payload) (canonical : Bytes)
      → Holds k s ring p.issued_at
      → ReadsBack lib p
      → IsFromSeed k s
      → p.key_id ≡ s.key_id
      → canonical_bytes lib p ≡ ok canonical
      → IsAuthentic lib ring
          (signed_envelope canonical)
          (record { payload = p; key_id = s.key_id; canonical = canonical })
  unfolding signed_envelope new_envelope
  signed_IsAuthentic p canonical h t from_seed key e = record {
    algorithm = refl;
    entry = h.entry;
    stored = h.stored;
    not_revoked = h.not_revoked;
    enabled = h.enabled;
    carried = laws.b64 canonical;
    some_byte = some_canonical p canonical e;
    sig = k.sign s.priv (license_signing_input canonical);
    signature = laws.b64 (k.sign s.priv (license_signing_input canonical));
    signature_length = length-sign from_seed (license_signing_input canonical);
    signed = rw h.public_key (signature_good from_seed (license_signing_input canonical));
    read = read_canonical p canonical t e;
    payload_key = key;
    result_key = refl;
    active_from = h.active_from;
    active_until = h.active_until;
    canonical = e;
  }

  -- What signing a payload gives.
  sign_payload-ok :
      (p : Payload) (env : Envelope)
      → sign_payload lib k s p ≡ ok env
      → (canonical : Bytes) × (validate_static (some (stamp s.key_id p)) ≡ ok tt)
        × (canonical_bytes lib (stamp s.key_id p) ≡ ok canonical)
        × (env ≡ signed_envelope canonical)
  unfolding sign_payload signed_envelope
  sign_payload-ok p env h =
      let (a, h1) = >>-eq-ok (or_invalid (validate_static (some (stamp s.key_id p)))) _ h in
      let (canonical, b, h2) =
        >>=-eq-ok (or_canonicalize (canonical_bytes lib (stamp s.key_id p))) _ h1 in
      (
        canonical,
        valid_payload (validate_static (some (stamp s.key_id p))) a,
        encoded (canonical_bytes lib (stamp s.key_id p)) canonical b,
        sym (of_ok h2),
      )

  issue-ok :
      (req : IssueRequest) (now : Time) (for_id for_serial : Option Bytes) (p : Payload)
      (env : Envelope)
      → build_payload k req now for_id for_serial ≡ ok p
      → issue lib k s req now for_id for_serial ≡ ok env
      → sign_payload lib k s (stamp s.key_id p) ≡ ok env
  unfolding issue
  issue-ok req now for_id for_serial p env built h =
      let (q, a, h1) = >>=-eq-ok (build_payload k req now for_id for_serial) _ h in
      let (b, h2) = >>-eq-ok (or_invalid (validate_static (some (stamp s.key_id q)))) _ h1 in
      subst (λ p. sign_payload lib k s (stamp s.key_id p) ≡ ok env) (of_ok (sym a ∙ built)) h2

  -- An issued license carries the payload that the request builds, with the key of the signer: it passes the
  -- static validation, and the verifier of any client that holds the key, in its window at the time of issue,
  -- accepts it with exactly that payload. The conditions are that the private key is one that a seed makes,
  -- and that the JSON of that payload, in the order in which encoding/json has it, decodes to it again.
  pub issue_verifies :
      (req : IssueRequest) (now : Time) (for_id for_serial : Option Bytes) (p : Payload)
      (env : Envelope)
      → build_payload k req now for_id for_serial ≡ ok p
      → issue lib k s req now for_id for_serial ≡ ok env
      → Holds k s ring p.issued_at
      → ReadsBack lib (stamp s.key_id p)
      → IsFromSeed k s
      → (validate_static (some (stamp s.key_id p)) ≡ ok tt)
        × ((canonical : Bytes) × (verify lib ring env
              ≡ ok (record {
                payload = stamp s.key_id p;
                key_id = s.key_id;
                canonical = canonical;
              })))
  issue_verifies req now for_id for_serial p env built issued held t from_seed =
      let (canonical, valid, e, is_env) =
        sign_payload-ok (stamp s.key_id p) env
          (issue-ok req now for_id for_serial p env built issued) in
      let same = stamp-stamp s.key_id p in
      (
        subst (λ q. validate_static (some q) ≡ ok tt) same valid,
        (
          canonical,
          subst
              (λ env.
                verify lib ring env
                ≡ ok (record {
                  payload = stamp s.key_id p;
                  key_id = s.key_id;
                  canonical = canonical;
                }))
              (sym is_env)
              ((verify_iff lib ring (signed_envelope canonical) (record {
                payload = stamp s.key_id p;
                key_id = s.key_id;
                canonical = canonical;
              })).1
                (signed_IsAuthentic (stamp s.key_id p) canonical (stamped p held) t from_seed
                  (key p) (subst (λ q. canonical_bytes lib q ≡ ok canonical) same e))),
        ),
      )
    where
      stamped :
          (p : Payload) → Holds k s ring p.issued_at → Holds k s ring (stamp s.key_id p).issued_at
      stamped p h = unfold stamp in h

      key : (p : Payload) → (stamp s.key_id p).key_id ≡ s.key_id
      key p = unfold stamp in refl
