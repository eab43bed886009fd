-- ===== src/Verifier/Authentic.antt =====
-- What the verifier accepts.
use grantseal.Prelude.{
  ℕ, ◌==◌, Bool, true, false, not, Option, none, some, [], ◌∷◌, Bytes, length, eqb, eqb→eq, eqb_iff,
  eqb_refl, is_nil, ◌≡◌, ◌≢◌, ◌↔◌, refl, ap, ◌∙◌, sym, subst, arith,
}
use grantseal.Prelude.Maps.{lookup}
use grantseal.Prelude.Results.{ok, ◌>>◌, fail_if, >>=-eq-ok, >>-eq-ok, fail_if-eq-ok, of_ok}
use grantseal.Code.{
  Code, malformed, signature_invalid, unsupported_algorithm, key_id_mismatch, non_canonical_payload,
}
use grantseal.Payload.{Payload, algorithm_valid, algorithm_ed25519, license_signing_input}
use grantseal.KeyRing.{KeyEntry, KeyRing, lookup_public_key, check_key_policy}
use grantseal.KeyRing.Policy.{IsFrom, IsUntil, check_key_policy_iff, lookup_public_key_iff}
use grantseal.Verifier.{
  canonical_bytes, Envelope, Library, VerifyResult, signature_size, or_malformed, decode_canonical,
  decode_signature, decode_payload, check_payload, check_signature, verify,
}

-- The payload that an envelope carries is signed by a key of the ring, which was in its window when the
-- license was issued, and the signed bytes are the canonical encoding of the payload.
pub record IsAuthentic (lib : Library) (ring : KeyRing) (env : Envelope) (r : VerifyResult)
    : Type 0 where
  pub algorithm : env.algorithm ≡ algorithm_ed25519
  pub entry : KeyEntry
  pub stored : lookup env.key_id ring ≡ some entry
  pub not_revoked : entry.revoked ≡ false
  pub enabled : entry.enabled ≡ true
  pub carried : lib.b64_decode env.payload ≡ some r.canonical
  pub some_byte : r.canonical ≢ []
  pub sig : Bytes
  pub signature : lib.b64_decode env.signature ≡ some sig
  pub signature_length : length sig ≡ signature_size
  pub signed : lib.verify_signature entry.public_key (license_signing_input r.canonical) sig ≡ true
  pub read : lib.read_payload r.canonical ≡ ok r.payload
  pub payload_key : r.payload.key_id ≡ env.key_id
  pub result_key : r.key_id ≡ env.key_id
  pub active_from : IsFrom entry.not_before r.payload.issued_at
  pub active_until : IsUntil entry.not_after r.payload.issued_at
  pub canonical : canonical_bytes lib r.payload ≡ ok r.canonical

of_malformed : {A : Type 0} (o : Option A) {a : A} → or_malformed o ≡ ok a → o ≡ some a
of_malformed none h = cc
of_malformed (some b) h = ap some (of_ok h)

not_nil : (b : Bytes) → is_nil b ≡ false → b ≢ []
not_nil [] h e = cc
not_nil (c ∷ b) h e = cc

nil_of_ne : (b : Bytes) → b ≢ [] → is_nil b ≡ false
nil_of_ne [] h = absurd (h refl)
nil_of_ne (c ∷ b) h = refl

passed : (b : Bool) (c : Code) → fail_if (not b) c ≡ ok tt → b ≡ true
passed true c h = refl
passed false c h = cc

module _ (lib : Library) (ring : KeyRing) (env : Envelope) where
  canonical_sound :
      (b : Bytes)
      → decode_canonical lib env ≡ ok b
      → (lib.b64_decode env.payload ≡ some b) × (b ≢ [])
  unfolding decode_canonical
  canonical_sound b h =
      let (a, ha, hb) =
        >>=-eq-ok (or_malformed (lib.b64_decode env.payload))
          (λ b. fail_if (is_nil b) malformed >> ok b) h in
      let (some_byte, same) = >>-eq-ok (fail_if (is_nil a) malformed) (ok a) hb in
      (
        of_malformed (lib.b64_decode env.payload) ha ∙ ap some (of_ok same),
        subst (λ c. c ≢ []) (of_ok same) (not_nil a (fail_if-eq-ok (is_nil a) malformed some_byte)),
      )

  payload_sound :
      (entry : KeyEntry) (canonical : Bytes) (payload : Payload) (r : VerifyResult)
      → check_payload lib env entry canonical payload ≡ ok r
      → (payload.key_id ≡ env.key_id)
        × (check_key_policy entry payload.issued_at ≡ ok tt)
        × (canonical_bytes lib payload ≡ ok canonical)
        × (◌≡◌ {A = VerifyResult}
            record { payload = payload; key_id = env.key_id; canonical = canonical }
            r)
  unfolding check_payload
  payload_sound entry canonical payload r h =
      let (a, h1) = >>-eq-ok (fail_if (not (eqb payload.key_id env.key_id)) key_id_mismatch) _ h in
      let (b, h2) = >>-eq-ok (check_key_policy entry payload.issued_at) _ h1 in
      let (recanon, c, h3) = >>=-eq-ok (canonical_bytes lib payload) _ h2 in
      let (d, h4) = >>-eq-ok (fail_if (not (eqb recanon canonical)) non_canonical_payload) _ h3 in
      (
        eqb→eq payload.key_id env.key_id (passed (eqb payload.key_id env.key_id) key_id_mismatch a),
        b,
        c
            ∙ ap ok
                (eqb→eq recanon canonical (passed (eqb recanon canonical) non_canonical_payload d)),
        of_ok h4,
      )

  verify_sound : (r : VerifyResult) → verify lib ring env ≡ ok r → IsAuthentic lib ring env r
  unfolding verify check_signature decode_signature decode_payload algorithm_valid
  verify_sound r h =
      let (alg, h1) =
        >>-eq-ok (fail_if (not (algorithm_valid env.algorithm)) unsupported_algorithm) _ h in
      let (entry, found, h2) = >>=-eq-ok (lookup_public_key env.key_id ring) _ h1 in
      let (canon, carried, h3) = >>=-eq-ok (decode_canonical lib env) _ h2 in
      let (sig, hsig, h4) = >>=-eq-ok (or_malformed (lib.b64_decode env.signature)) _ h3 in
      let (len, h5) =
        >>-eq-ok (fail_if (not (length sig == signature_size)) signature_invalid) _ h4 in
      let (signed, h6) =
        >>-eq-ok
          (fail_if (not (lib.verify_signature entry.public_key (license_signing_input canon) sig))
            signature_invalid)
          _ h5 in
      let (payload, hp, h7) = >>=-eq-ok (decode_payload lib env) _ h6 in
      let (raw, hraw, hread) = >>=-eq-ok (decode_canonical lib env) lib.read_payload hp in
      let (key, policy, canonical, is_r) = payload_sound entry canon payload r h7 in
      let (stored, revoked, enabled) = (lookup_public_key_iff env.key_id ring entry).0 found in
      let (r1, e1, from, until) = (check_key_policy_iff entry payload.issued_at).0 policy in
      let (bytes, some_byte) = canonical_sound canon carried in
      subst (IsAuthentic lib ring env) is_r record {
        algorithm =
            eqb→eq env.algorithm algorithm_ed25519
              (passed (eqb env.algorithm algorithm_ed25519) unsupported_algorithm alg);
        entry = entry;
        stored = stored;
        not_revoked = revoked;
        enabled = enabled;
        carried = bytes;
        some_byte = some_byte;
        sig = sig;
        signature = of_malformed (lib.b64_decode env.signature) hsig;
        signature_length = same_length (length sig) len;
        signed =
            passed (lib.verify_signature entry.public_key (license_signing_input canon) sig)
              signature_invalid signed;
        read = ap lib.read_payload (of_ok (sym carried ∙ hraw)) ∙ hread;
        payload_key = key;
        result_key = refl;
        active_from = from;
        active_until = until;
        canonical = canonical;
      }
    where
      same_length :
          (n : ℕ)
          → fail_if (not (n == signature_size)) signature_invalid ≡ ok tt
          → n ≡ signature_size
      same_length n h = let e = passed (n == signature_size) signature_invalid h in ground arith

  verify_complete : (r : VerifyResult) → IsAuthentic lib ring env r → verify lib ring env ≡ ok r
  unfolding verify check_signature decode_signature decode_payload decode_canonical check_payload
      algorithm_valid
  verify_complete r a =
      rw
        (
          a.algorithm,
          eqb_refl algorithm_ed25519,
          (lookup_public_key_iff env.key_id ring a.entry).1 (a.stored, a.not_revoked, a.enabled),
          a.carried,
          nil_of_ne r.canonical a.some_byte,
          a.signature,
          a.signature_length,
          a.signed,
          a.read,
          (eqb_iff r.payload.key_id env.key_id).1 a.payload_key,
          (check_key_policy_iff a.entry r.payload.issued_at).1
              (a.not_revoked, a.enabled, a.active_from, a.active_until),
          a.canonical,
          eqb_refl r.canonical,
          sym a.result_key,
        )
        refl

  -- The verifier accepts exactly the authentic envelopes: Ed25519, a key of the ring that is enabled, not
  -- revoked and in its window at the signed time of issue, a signature of 64 bytes over the domain and
  -- the carried bytes, and carried bytes that are the canonical encoding of a payload that names the key.
  pub verify_iff : (r : VerifyResult) → (verify lib ring env ≡ ok r) ↔ IsAuthentic lib ring env r
  verify_iff r = (verify_sound r, verify_complete r)
