-- ===== src/Issuer/Signer/Serial.antt =====
-- The serial numbers of randomSerial in internal/issuer/issue.go.
use grantseal.Prelude.{ℕ, ◌+◌, ◌*◌, ◌/◌, ◌<◌, some, [], ◌∷◌, Bytes, length, ◌≡◌, ap, arith}
use grantseal.Prelude.Results.{ok, of_ok}
use grantseal.Issuer.Signer.{serial_from, random_serial}

-- Two letters for each byte, and a dash before every byte of an even place but the first.
length-serial_from :
    (i : ℕ) (b : Bytes)
    → 0 < i
    → length (serial_from i b) + (i + 1) / 2 ≡ 2 * length b + (i + length b + 1) / 2
unfolding serial_from
length-serial_from i [] h = omega arith
length-serial_from i (v ∷ b) h =
    let ih = length-serial_from (i + 1) b (omega arith) in ground (arith, ih)

-- Ten random bytes give a serial number of 24 characters.
pub length-random_serial :
    (b serial : Bytes) → length b ≡ 10 → random_serial (some b) ≡ ok serial → length serial ≡ 24
unfolding random_serial serial_from
length-random_serial [] serial h e = absurd (omega (arith, h))
length-random_serial (v ∷ b) serial h e =
    let rest = length-serial_from 1 b (omega arith) in
    let whole = ap length (of_ok e) in omega (arith, rest, whole, h)
