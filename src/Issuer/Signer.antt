-- ===== src/Issuer/Signer.antt =====
-- internal/issuer/signer.go and issue.go: from a request to a signed license, and NewEnvelope of
-- pkg/license/envelope.go. A signer and a request are not nil; the clock reading and the random bytes, `none`
-- where the source of randomness fails, are given.
pub mod Verifies
pub mod Serial
mod Tests
use grantseal.Prelude.{
  ◌≡◌, ℕ, ◌+◌, ◌/◌, ◌%◌, ◌==◌, if◌then◌else◌, Bool, true, false, not, ◌&&◌, Option, none, some,
  List, [], ◌∷◌, ◌++◌, Bytes, codes, length, get_elem?, is_nil, ℤ, pos, eq_ℤ,
}
use grantseal.Prelude.Results.{Result, ok, err, ◌>>=◌, ◌>>◌, fail_if}
use grantseal.Code.{Code}
use grantseal.Time.{Time}
use grantseal.Payload.{
  Payload, DeviceBinding, VersionConstraint, algorithm_ed25519, device_mode_none,
  license_schema_version, license_signing_input, validate_static,
}
use grantseal.Verifier.{canonical_bytes, Envelope, Library}
use grantseal.Issuer.PrivateKey.{private_key_size, seed_size}

-- The errors of the package, one for each message; a wrapped error of pkg/license keeps its code.
pub data IssueError : Type 0 where
  signer_key_id : IssueError
  signer_private_key : IssueError
  random_id_failed : IssueError
  random_serial_failed : IssueError
  invalid_license : Code → IssueError
  canonicalize : Code → IssueError

-- base64.URLEncoding.EncodeToString, hex.EncodeToString, ed25519.Sign of a private key and a message, and the
-- public key of a private key.
pub record Signing : Type 0 where
  pub b64_encode : Bytes → Bytes
  pub hex_encode : Bytes → Bytes
  pub sign : Bytes → Bytes → Bytes
  pub public_of : Bytes → Bytes
  pub new_key_from_seed : Bytes → Bytes

pub record Signer : Type 0 where
  pub key_id : Bytes
  pub priv : Bytes

-- The private key is one that its seed makes, so that its public half belongs to it.
abbrev pub IsFromSeed : Signing → Signer → Type 0
IsFromSeed k s = (seed : Bytes) × (length seed ≡ seed_size) × (s.priv ≡ k.new_key_from_seed seed)

-- NewSigner
unfoldable pub new_signer : Bytes → Bytes → Result IssueError Signer
new_signer key_id priv =
    if is_nil key_id
    then err signer_key_id
    else if not (length priv == private_key_size)
    then err signer_private_key
    else ok (record { key_id = key_id; priv = priv })

pub record IssueRequest : Type 0 where
  pub license_id : Bytes
  pub serial_number : Bytes
  pub product_id : Bytes
  pub customer_id : Bytes
  pub customer_name : Bytes
  pub edition : Bytes
  pub license_type : Bytes
  pub issued_at : Option Time
  pub not_before : Option Time
  pub expires_at : Option Time
  pub grace_period_days : ℤ
  pub features : List Bytes
  pub limits : List (Bytes × ℤ)
  pub device_binding : DeviceBinding
  pub version_constraint : VersionConstraint
  pub metadata : List (Bytes × Bytes)

-- The alphabet of randomSerial
abbrev pub alphabet : Bytes
alphabet = codes "ABCDEFGHJKLMNPQRSTUVWXYZ23456789"

-- alphabet[n%len(alphabet)]
unfoldable pub letter : ℕ → ℕ
letter n = elim (get_elem? alphabet (n % 32)) [ none ↦ 0 | some c ↦ c ]

-- The two letters of a byte in randomSerial
abbrev pub letters : ℕ → Bytes
letters v = letter v ∷ letter (v / 8) ∷ []

-- The loop of randomSerial from the byte `i` on
unfoldable pub serial_from : ℕ → Bytes → Bytes
serial_from i [] = []
serial_from i (v ∷ b) =
    let rest = serial_from (i + 1) b in
    if not (i == 0) && i % 2 == 0 then 45 ∷ (letters v ++ rest) else letters v ++ rest

-- randomSerial of its ten random bytes
unfoldable pub random_serial : Option Bytes → Result IssueError Bytes
random_serial none = err random_serial_failed
random_serial (some b) = ok (serial_from 0 b)

abbrev pub or_now : Option Time → Time → Time
or_now none now = now
or_now (some t) now = t

module _ (k : Signing) where
  -- randomID
  unfoldable pub random_id : Option Bytes → Result IssueError Bytes
  random_id none = err random_id_failed
  random_id (some b) = ok (k.hex_encode b)

  -- The license id of BuildPayload
  unfoldable pub license_id_of : IssueRequest → Option Bytes → Result IssueError Bytes
  license_id_of req random =
      if is_nil req.license_id
      then (random_id random >>= λ id. ok (codes "lic_" ++ id))
      else ok req.license_id

  -- The serial number of BuildPayload
  unfoldable pub serial_of : IssueRequest → Option Bytes → Result IssueError Bytes
  serial_of req random =
      if is_nil req.serial_number then random_serial random else ok req.serial_number

  -- The device binding of BuildPayload
  unfoldable pub binding_of : DeviceBinding → DeviceBinding
  binding_of b = record {
    mode = if is_nil b.mode then device_mode_none else b.mode;
    device_ids = b.device_ids;
  }

  -- The literal of BuildPayload
  unfoldable pub payload_of : IssueRequest → Time → Bytes → Bytes → Payload
  payload_of req now license_id serial = record {
    schema_version = license_schema_version;
    license_id = license_id;
    serial_number = serial;
    product_id = req.product_id;
    customer_id = req.customer_id;
    customer_name = req.customer_name;
    edition = req.edition;
    license_type = req.license_type;
    issued_at = or_now req.issued_at now;
    not_before = req.not_before;
    expires_at = req.expires_at;
    grace_period_days = req.grace_period_days;
    features = req.features;
    limits = req.limits;
    device_binding = binding_of req.device_binding;
    version_constraint = req.version_constraint;
    metadata = req.metadata;
    key_id = [];
  }

  -- BuildPayload
  unfoldable pub build_payload :
      IssueRequest → Time → Option Bytes → Option Bytes → Result IssueError Payload
  build_payload req now random_for_id random_for_serial = do
    license_id ← license_id_of req random_for_id
    serial ← serial_of req random_for_serial
    ok (payload_of req now license_id serial)

  -- NewEnvelope
  unfoldable pub new_envelope : Bytes → Bytes → Bytes → Bytes → Envelope
  new_envelope algorithm key_id canonical signature = record {
    algorithm = algorithm;
    key_id = key_id;
    payload = k.b64_encode canonical;
    signature = k.b64_encode signature;
  }

-- p.KeyID = s.keyID, and the schema version where it is 0
unfoldable pub stamp : Bytes → Payload → Payload
stamp key_id p = record {
  schema_version =
      if eq_ℤ p.schema_version (pos 0) then license_schema_version else p.schema_version;
  license_id = p.license_id;
  serial_number = p.serial_number;
  product_id = p.product_id;
  customer_id = p.customer_id;
  customer_name = p.customer_name;
  edition = p.edition;
  license_type = p.license_type;
  issued_at = p.issued_at;
  not_before = p.not_before;
  expires_at = p.expires_at;
  grace_period_days = p.grace_period_days;
  features = p.features;
  limits = p.limits;
  device_binding = p.device_binding;
  version_constraint = p.version_constraint;
  metadata = p.metadata;
  key_id = key_id;
}

abbrev pub or_invalid : Result Code (Unit {0}) → Result IssueError (Unit {0})
or_invalid (ok u) = ok tt
or_invalid (err e) = err (invalid_license e)

abbrev pub or_canonicalize : Result Code Bytes → Result IssueError Bytes
or_canonicalize (ok b) = ok b
or_canonicalize (err e) = err (canonicalize e)

module _ (lib : Library) (k : Signing) where
  -- SignPayload
  unfoldable pub sign_payload : Signer → Payload → Result IssueError Envelope
  sign_payload s p = do
    or_invalid (validate_static (some (stamp s.key_id p)))
    canonical ← or_canonicalize (canonical_bytes lib (stamp s.key_id p))
    ok (
        new_envelope k algorithm_ed25519 s.key_id canonical
          (k.sign s.priv (license_signing_input canonical)))

  -- Issue
  unfoldable pub issue :
      Signer → IssueRequest → Time → Option Bytes → Option Bytes → Result IssueError Envelope
  issue s req now random_for_id random_for_serial = do
    p ← build_payload k req now random_for_id random_for_serial
    or_invalid (validate_static (some (stamp s.key_id p)))
    sign_payload s (stamp s.key_id p)
