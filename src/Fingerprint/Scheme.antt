-- ===== src/Fingerprint/Scheme.antt =====
-- pkg/fingerprint/scheme.go: the strict parser of device binding values.
pub mod Forms
mod Tests
use grantseal.Prelude.{
  ℕ, ◌+◌, ◌*◌, ◌-◌, ◌^◌, ltb, leb, ◌==◌, if◌then◌else◌, Bool, true, false, ◌&&◌, ◌||◌, not, Option,
  none, some, List, [], ◌∷◌, ◌++◌, Bytes, codes, eqb, cut, cut_prefix, length, all, is_nil, ℤ, pos,
  negsuc, ltb_ℤ, eq_ℤ,
}
use grantseal.Prelude.Results.{Result, ok, err, ◌>>=◌, ◌>>◌, fail_if}

-- FingerprintVersion, FingerprintVersionV2 and OpaqueVersion
abbrev pub fingerprint_version : ℤ
fingerprint_version = pos 1

abbrev pub fingerprint_version_v2 : ℤ
fingerprint_version_v2 = pos 2

abbrev pub opaque_version : ℤ
opaque_version = pos 0

abbrev pub opaque_algorithm : Bytes
opaque_algorithm = codes "opaque"

-- 2 * sha256.Size
abbrev pub sha256_hex_len : ℕ
sha256_hex_len = 64

pub record Scheme : Type 0 where
  pub version : ℤ
  pub algorithm : Bytes
  pub digest : Bytes
  pub namespace : Bytes

unfoldable pub is_opaque : Scheme → Bool
unfolding eqb
is_opaque s = eq_ℤ s.version opaque_version && eqb s.algorithm opaque_algorithm

pub data SchemeError : Type 0 where
  malformed_scheme unknown_version unknown_algorithm empty_digest invalid_digest : SchemeError

abbrev pub is_digit : ℕ → Bool
is_digit c = leb b'0' c && leb c b'9'

unfoldable pub decimal : ℕ → Bytes → ℕ
decimal n [] = n
decimal n (c ∷ s) = decimal (n * 10 + (c - b'0')) s

-- The digits behind the sign of a number that must fit in 64 bits.
atoi_digits : Bool → Bytes → Option ℤ
unfolding decimal
atoi_digits negative [] = none
atoi_digits negative (c ∷ s) =
    let n = decimal 0 (c ∷ s) in
    if not (all is_digit (c ∷ s))
    then none
    else if negative
    then (if ltb (2 ^ 63) n then none else if n == 0 then some (pos 0) else some (negsuc (n - 1)))
    else if ltb (2 ^ 63 - 1) n
    then none
    else some (pos n)

-- strconv.Atoi: decimal digits behind an optional sign.
unfoldable pub atoi : Bytes → Option ℤ
unfolding atoi_digits
atoi [] = none
atoi (c ∷ s) =
    if c == b'+'
    then atoi_digits false s
    else if c == b'-'
    then atoi_digits true s
    else atoi_digits false (c ∷ s)

unfoldable pub is_lower_hex : Bytes → Bool
is_lower_hex [] = false
is_lower_hex (c ∷ s) = all (λ d. (leb b'0' d && leb d b'9') || (leb b'a' d && leb d b'f')) (c ∷ s)

unfoldable pub known_scheme_version : ℤ → Bool
known_scheme_version v = eq_ℤ v fingerprint_version || eq_ℤ v fingerprint_version_v2

unfoldable pub known_algorithm : Bytes → Bool
unfolding eqb
known_algorithm a = eqb a (codes "sha256") || eqb a (codes "hmac-sha256")

-- behind "opaque:"
parse_opaque : Option (Bytes × Bytes) → Result SchemeError Scheme
parse_opaque none = err malformed_scheme
parse_opaque (some (ns, val)) =
    if is_nil ns || is_nil val
    then err malformed_scheme
    else ok record {
      version = opaque_version;
      algorithm = opaque_algorithm;
      digest = val;
      namespace = ns;
    }

-- behind "fp:v<N>:"
parse_digest : ℤ → Option (Bytes × Bytes) → Result SchemeError Scheme
unfolding known_algorithm is_lower_hex
parse_digest version none = err malformed_scheme
parse_digest version (some (algorithm, digest)) = do
  fail_if (not (known_algorithm algorithm)) unknown_algorithm
  fail_if (is_nil digest) empty_digest
  fail_if (not (length digest == sha256_hex_len) || not (is_lower_hex digest)) invalid_digest
  ok record { version = version; algorithm = algorithm; digest = digest; namespace = [] }

known_version : Option ℤ → Result SchemeError ℤ
unfolding known_scheme_version
known_version none = err malformed_scheme
known_version (some version) =
    if ltb_ℤ version (pos 1)
    then err malformed_scheme
    else if not (known_scheme_version version)
    then err unknown_version
    else ok version

-- behind "fp:v"
parse_versioned : Option (Bytes × Bytes) → Result SchemeError Scheme
unfolding known_version atoi parse_digest cut
parse_versioned none = err malformed_scheme
parse_versioned (some (version_str, after_version)) = do
  fail_if (is_nil version_str) malformed_scheme
  version ← known_version (atoi version_str)
  parse_digest version (cut b':' after_version)

parse_fingerprint : Option Bytes → Result SchemeError Scheme
unfolding parse_versioned cut
parse_fingerprint none = err malformed_scheme
parse_fingerprint (some rest) = parse_versioned (cut b':' rest)

-- The first argument is what is left behind "opaque:".
parse_value : Option Bytes → Bytes → Result SchemeError Scheme
unfolding parse_opaque parse_fingerprint cut cut_prefix
parse_value (some rest) value = parse_opaque (cut b':' rest)
parse_value none value = parse_fingerprint (cut_prefix (codes "fp:v") value)

unfoldable pub parse : Bytes → Result SchemeError Scheme
unfolding parse_value cut_prefix
parse value = parse_value (cut_prefix (codes "opaque:") value) value
