-- ===== src/Verifier/Tests.antt =====
-- The verifier over a concrete library: base64 and JSON of fixed texts, and a signature that matches when
-- it begins with the first byte of the public key.
use grantseal.Prelude.{◌≡◌, ◌↔◌, codes}
use grantseal.Prelude.Results.{ok}
use grantseal.Verifier.{verify}
use grantseal.Verifier.Authentic.{IsAuthentic, verify_iff}
use grantseal.Samples.{subscription, library, ring, envelope}

verify_iff_example :
    (verify library ring envelope
      ≡ ok (record { payload = subscription; key_id = codes "k-1"; canonical = codes "{}" }))
    ↔ IsAuthentic library ring envelope
        (record { payload = subscription; key_id = codes "k-1"; canonical = codes "{}" })
verify_iff_example =
    verify_iff library ring envelope
      (record { payload = subscription; key_id = codes "k-1"; canonical = codes "{}" })
