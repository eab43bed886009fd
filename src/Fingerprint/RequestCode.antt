-- ===== src/Fingerprint/RequestCode.antt =====
-- pkg/fingerprint/fingerprint.go: the request code that a customer sends to the issuer, and
-- GetDeviceRequestCode of pkg/license/manager.go.
pub mod Shape
use grantseal.Prelude.{
  ℕ, zero, suc, Option, none, some, List, [], ◌∷◌, ◌++◌, Bytes, codes, cut, cut_prefix, join,
  length, take, drop,
}
use grantseal.Prelude.Results.{Result, ok, ◌>>=◌}
use grantseal.Fingerprint.Compute.{
  HashLibrary, Collector, Fingerprint, ComputeError, format_int, compute, compute_v2,
}

-- strings.TrimPrefix
unfoldable pub trim_prefix : Bytes → Bytes → Bytes
trim_prefix p s = elim (cut_prefix p s) [ none ↦ s | some rest ↦ rest ]

-- The version segment in stripFingerprintPrefixes, with what follows "fp:v"
unfoldable pub strip_version : Bytes → Option Bytes → Bytes
strip_version s none = s
strip_version s (some rest) = elim (cut 58 rest) [ none ↦ s | some (v, digest) ↦ digest ]

-- stripFingerprintPrefixes
unfoldable pub strip_fingerprint_prefixes : Bytes → Bytes
strip_fingerprint_prefixes s =
    trim_prefix (codes "sha256:")
      (trim_prefix (codes "hmac-sha256:") (strip_version s (cut_prefix (codes "fp:v") s)))

-- The loop of requestCodeFromFingerprint over groups of four; each takes at least one byte.
unfoldable pub groups : ℕ → Bytes → List Bytes
groups zero s = []
groups (suc fuel) [] = []
groups (suc fuel) (c ∷ s) = take 4 (c ∷ s) ∷ groups fuel (drop 4 (c ∷ s))

module _ (h : HashLibrary) where
  -- requestCodeFromFingerprint and RequestCodeFromFingerprint
  unfoldable pub request_code_from_fingerprint : Fingerprint → Bytes
  request_code_from_fingerprint fp =
      let hex = h.to_upper (take 20 (strip_fingerprint_prefixes fp.fingerprint)) in
      join 45 ((codes "V" ++ format_int fp.version) ∷ groups (length hex) hex)

  -- RequestCode
  unfoldable pub request_code : Collector → Bytes → Result ComputeError Bytes
  request_code col product_namespace =
      compute h col product_namespace >>= λ fp. ok (request_code_from_fingerprint fp)

  -- RequestCodeV2, RequestCodeDefault and GetDeviceRequestCode of the manager
  unfoldable pub request_code_v2 : Collector → Bytes → Result ComputeError Bytes
  request_code_v2 col product_namespace =
      compute_v2 h col product_namespace >>= λ fp. ok (request_code_from_fingerprint fp)

  unfoldable pub request_code_default : Collector → Bytes → Result ComputeError Bytes
  request_code_default col product_namespace = request_code_v2 col product_namespace

  unfoldable pub get_device_request_code : Collector → Bytes → Result ComputeError Bytes
  get_device_request_code col product_namespace = request_code_default col product_namespace
