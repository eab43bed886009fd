-- ===== src/Issuer/Signer/Tests.antt =====
-- An issued subscription, and a serial number.
use grantseal.Prelude.{
  ◌≡◌, refl, sym, true, false, arith, none, some, codes, [], ◌∷◌, Bytes, length, eqb,
}
use grantseal.Prelude.Maps.{lookup}
use grantseal.Json.{Json, end}
use grantseal.Json.Canonical.{encode_canonical, write, sorted}
use grantseal.Json.Canonical.Alike.{Alike, same, in_array, in_object}
use grantseal.Prelude.Options.{of_some}
use grantseal.Prelude.Results.{ok}
use grantseal.Payload.{Payload, validate_static}
use grantseal.KeyRing.{KeyEntry}
use grantseal.Verifier.{canonical_bytes, verify}
use grantseal.Issuer.Signer.{
  Signing, Signer, IssueRequest, build_payload, license_id_of, serial_of, binding_of, payload_of,
  new_envelope, stamp, sign_payload, issue, letter, serial_from, random_serial,
}
use grantseal.Issuer.Signer.Verifies.{IsSigning, ReadsBack, Holds, issue_verifies}
use grantseal.Issuer.Signer.Serial.{length-random_serial}
use grantseal.Samples.{subscription, subscription_accepted, envelope, ring, library, on_day}

abbrev public : Bytes
public = codes "0123456789abcdef0123456789abcdef"

-- Every signature is the one of the sample.
abbrev signing : Signing
signing = record {
  b64_encode = λ b. b;
  hex_encode = λ b. b;
  sign = λ priv m. envelope.signature;
  public_of = λ priv. public;
  new_key_from_seed = λ seed. seed;
}

abbrev signer : Signer
signer = record { key_id = codes "k-1"; priv = public }

abbrev request : IssueRequest
request = record {
  license_id = subscription.license_id;
  serial_number = subscription.serial_number;
  product_id = subscription.product_id;
  customer_id = subscription.customer_id;
  customer_name = subscription.customer_name;
  edition = subscription.edition;
  license_type = subscription.license_type;
  issued_at = some (on_day 0);
  not_before = subscription.not_before;
  expires_at = subscription.expires_at;
  grace_period_days = subscription.grace_period_days;
  features = subscription.features;
  limits = subscription.limits;
  device_binding = subscription.device_binding;
  version_constraint = subscription.version_constraint;
  metadata = subscription.metadata;
}

signing-IsSigning : IsSigning library signing
signing-IsSigning = record {
  b64 = λ b. refl;
  length_sign = λ seed m n. refl;
  verifies = λ seed m n. refl;
  is_object = λ p v h. (end, of_some (sym h));
  order_free = λ p v w t a h. reordered p v w a h;
}
  where
    reordered :
        (p : Payload) (v w : Json)
        → Alike v w
        → library.read_payload (write library.quote v) ≡ ok p
        → library.read_payload (write library.quote w) ≡ ok p
    reordered p v w (same u) h = h
    reordered p v w (in_array xs ys a) h = unfold write in absurd (cc h)
    reordered p v w (in_object ms ns a) h = unfold write in h

abbrev ring_entry : KeyEntry
ring_entry = record {
  key_id = codes "k-1";
  public_key = public;
  enabled = true;
  revoked = false;
  not_before = some (on_day 0);
  not_after = none;
}

abbrev built : Payload
built = payload_of signing request 0 (codes "lic-1") (codes "s-1")

request_builds : build_payload signing request 0 none none ≡ ok built
unfolding build_payload license_id_of serial_of
request_builds = refl

stamped : stamp (codes "k-1") built ≡ subscription
unfolding stamp payload_of binding_of
stamped = refl

request_issued : issue library signing signer request 0 none none ≡ ok envelope
unfolding issue build_payload license_id_of serial_of sign_payload new_envelope canonical_bytes
    encode_canonical write sorted
request_issued = rw (stamped, subscription_accepted, again, subscription_accepted) refl
  where
    again : stamp (codes "k-1") subscription ≡ subscription
    again = unfold stamp in refl

issue_verifies_example :
    (validate_static (some (stamp (codes "k-1") built)) ≡ ok tt)
    × ((canonical : Bytes) × (verify library ring envelope
          ≡ ok (record {
            payload = stamp (codes "k-1") built;
            key_id = codes "k-1";
            canonical = canonical;
          })))
issue_verifies_example =
    issue_verifies library signing signing-IsSigning signer ring request 0 none none built envelope
      request_builds request_issued held text (public, refl, refl)
  where
    held : Holds signing signer ring built.issued_at
    held =
        unfold lookup eqb payload_of in
        record {
          entry = ring_entry;
          stored = refl;
          public_key = refl;
          not_revoked = refl;
          enabled = refl;
          active_from = omega arith;
          active_until = tt;
        }

    text : ReadsBack library (stamp (codes "k-1") built)
    text v h = unfold write in rw (sym (of_some h), stamped) refl

serial_of_bytes :
    random_serial (some (8 ∷ 0 ∷ 0 ∷ 0 ∷ 0 ∷ 0 ∷ 0 ∷ 0 ∷ 0 ∷ 0 ∷ []))
    ≡ ok (codes "JBAA-AAAA-AAAA-AAAA-AAAA")
unfolding random_serial serial_from letter
serial_of_bytes = refl

length-random_serial_example : length (codes "JBAA-AAAA-AAAA-AAAA-AAAA") ≡ 24
length-random_serial_example =
    length-random_serial (8 ∷ 0 ∷ 0 ∷ 0 ∷ 0 ∷ 0 ∷ 0 ∷ 0 ∷ 0 ∷ 0 ∷ [])
      (codes "JBAA-AAAA-AAAA-AAAA-AAAA") refl serial_of_bytes
