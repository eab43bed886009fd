-- ===== src/Samples.antt =====
-- Test data that several test modules share: a subscription for two versions of one product, on one
-- device, and the contexts in which it is used.
use grantseal.Prelude.{
  ◌==◌, ℕ, ◌+◌, ◌*◌, ◌-◌, ◌^◌, ◌==◌, if◌then◌else◌, Bool, true, false, none, some, [], ◌∷◌, Bytes,
  codes, pos,
}
use grantseal.Time.{Time, is_zero, day}
use grantseal.Payload.{
  Payload, validate_static, validate_identity, validate_enums, validate_cardinality, validate_caps,
  validate_metadata, validate_device_id_format, validate_device_ids, validate_limits_range,
  validate_time_semantics, validate_expiry_presence, parses, edition_valid, license_type_valid,
  device_mode_valid,
}
use grantseal.Code.{malformed}
use grantseal.Prelude.{eqb, ◌≡◌, refl}
use grantseal.Json.{object, end}
use grantseal.Prelude.Results.{ok, err}
use grantseal.Fingerprint.Scheme.{parse}
use grantseal.Validator.{ValidationContext}
use grantseal.Verifier.{Envelope, Library}
use grantseal.KeyRing.{KeyRing}
use grantseal.Manager.{Manager}
use grantseal.Rollback.{Codec}

-- A day of the year 2021, in nanoseconds from the earliest instant.
abbrev pub on_day : ℕ → Time
on_day n = (2 ^ 63 - 1) * 1_000_000_000 + (738_000 + n) * day

abbrev pub bound_device : Bytes
bound_device = codes "opaque:acme:device-7"

abbrev pub subscription : Payload
subscription = record {
  schema_version = pos 2;
  license_id = codes "lic-1";
  serial_number = codes "s-1";
  product_id = codes "editor";
  customer_id = codes "c-1";
  customer_name = codes "Customer";
  edition = codes "basic";
  license_type = codes "subscription";
  issued_at = on_day 0;
  not_before = some (on_day 1);
  expires_at = some (on_day 30);
  grace_period_days = pos 7;
  features = codes "export" ∷ [];
  limits = (codes "seats", pos 5) ∷ [];
  device_binding = record { mode = codes "single"; device_ids = bound_device ∷ [] };
  version_constraint = record {
    min_version = codes "1.2.0";
    max_version = codes "2.0.0";
    maintenance_until = none;
    covered_max_version = [];
  };
  metadata = (codes "region", codes "eu") ∷ [];
  key_id = codes "k-1";
}

abbrev pub context : ValidationContext
context = record {
  product_id = codes "editor";
  product_version = codes "1.4.2";
  device_fingerprint = bound_device;
  revocation = none;
  clock_skew = pos 0;
}

abbrev pub viewer : ValidationContext
viewer = record {
  product_id = codes "viewer";
  product_version = codes "9.0.0";
  device_fingerprint = bound_device;
  revocation = none;
  clock_skew = pos 0;
}

-- A license file that holds the subscription, and a ring with its key.
abbrev pub license_file : Bytes
license_file = codes "license"

abbrev pub envelope : Envelope
envelope = record {
  algorithm = codes "Ed25519";
  key_id = codes "k-1";
  payload = codes "{}";
  signature = codes "0123456789abcdef0123456789abcdef0123456789abcdef0123456789abcdef";
}

abbrev pub ring : KeyRing
ring =
    (
      codes "k-1",
      record {
        key_id = codes "k-1";
        public_key = codes "0123456789abcdef0123456789abcdef";
        enabled = true;
        revoked = false;
        not_before = some (on_day 0);
        not_after = none;
      },
    )
    ∷ []

abbrev pub first_bytes_agree : Bytes → Bytes → Bool
first_bytes_agree (c ∷ key) (d ∷ sig) = c == d
first_bytes_agree [] sig = false
first_bytes_agree (c ∷ key) [] = false

-- One file, one payload and one encoding; a signature matches when it begins like the public key.
abbrev pub opens : Bytes → Bool
opens [] = false
opens (c ∷ text) = c == 123

abbrev pub library : Library
library = record {
  read_envelope = λ content. if eqb content license_file then ok envelope else err malformed;
  read_payload = λ text. if opens text then ok subscription else err malformed;
  json_of = λ p. some (object end);
  quote = λ s. s;
  b64_decode = λ b. some b;
  verify_signature = λ key message sig. first_bytes_agree key sig;
}

-- A codec for a manager without a rollback store.
abbrev pub no_codec : Codec
no_codec = record {
  times_json = λ t v. none;
  state_json = λ st. none;
  read_json = λ b. none;
  hmac = λ k b. b;
  hex_encode = λ b. b;
  hex_decode = λ b. some b;
}

abbrev pub manager : Manager
manager = record {
  ring = ring;
  rollback = none;
  revocation = none;
  skew = pos 0;
  unscoped_product = false;
  cached = none;
  rollback_file = none;
}

pub subscription_accepted : validate_static (some subscription) ≡ ok tt
unfolding validate_static validate_identity is_zero validate_enums edition_valid eqb
    license_type_valid device_mode_valid validate_cardinality validate_caps validate_metadata
    validate_device_id_format validate_device_ids parses parse validate_limits_range
    validate_time_semantics validate_expiry_presence
subscription_accepted = refl
