-- ===== src/Version/Bounds.antt =====
-- What parseVersion of version.go returns lies within its bounds.
use grantseal.Prelude.{
  ℕ, ◌+◌, ◌≤◌, true, false, ◌&&◌, ◌≡◌, none, some, List, [], ◌∷◌, Bytes, length, all, All, arith,
  is_nil, not, Option, cut, &&-true, trim_space, split, subst, if◌then◌else◌, refl,
}
use grantseal.Prelude.Options.{>>=-eq-some, of_some, if-eq-some, unless-eq-some}
use grantseal.Version.{
  Semver, max_uint64, is_digit, is_numeric_id, is_alphanumeric_id, is_alphanumeric_byte,
  has_leading_zero, parse_numeric_id, is_valid_prerelease_id, parse_core, parse_prerelease,
  parse_parts, parse_after_build, parse_after_prefix, trim_v, parse_version, is_valid_dot_separated,
}

parse_numeric_id-le : (s : Bytes) {n : ℕ} → parse_numeric_id s ≡ some n → n ≤ max_uint64
unfolding parse_numeric_id
parse_numeric_id-le [] h = cc
parse_numeric_id-le (c ∷ s) h = ground arith

parse_core-le :
    (parts : List Bytes) {a b c : ℕ}
    → parse_core parts ≡ some (a, b, c)
    → (a ≤ max_uint64) × (b ≤ max_uint64) × (c ≤ max_uint64)
unfolding parse_core
parse_core-le (x ∷ y ∷ z ∷ []) h =
    ground (arith, parse_numeric_id-le x, parse_numeric_id-le y, parse_numeric_id-le z)
parse_core-le _ h = cc

-- An identifier that semantic versioning allows: letters, digits and hyphens, and a number has no
-- leading zero.
abbrev pub IsIdentifier : Bytes → Type 0
IsIdentifier id =
    (is_alphanumeric_id id ≡ true) × (is_numeric_id id ≡ true → has_leading_zero id ≡ false)

digits_alphanumeric : (s : Bytes) → all is_digit s ≡ true → all is_alphanumeric_byte s ≡ true
digits_alphanumeric [] h = refl
digits_alphanumeric (c ∷ s) h = ground (arith, digits_alphanumeric s)

numeric_alphanumeric : (s : Bytes) → is_numeric_id s ≡ true → is_alphanumeric_id s ≡ true
unfolding is_numeric_id is_alphanumeric_id
numeric_alphanumeric [] h = h
numeric_alphanumeric (c ∷ s) h = digits_alphanumeric (c ∷ s) h

valid-IsIdentifier : (s : Bytes) → is_valid_prerelease_id s ≡ true → IsIdentifier s
unfolding is_valid_prerelease_id
valid-IsIdentifier s h = (ground (arith, numeric_alphanumeric s), λ k. ground arith)

all-IsIdentifier :
    (ids : List Bytes)
    → all (λ id. not (is_nil id) && is_valid_prerelease_id id) ids ≡ true
    → All IsIdentifier ids
all-IsIdentifier [] h = tt
all-IsIdentifier (s ∷ ids) h =
    let (here, rest) = &&-true (not (is_nil s) && is_valid_prerelease_id s) _ h in
    (valid-IsIdentifier s (&&-true (not (is_nil s)) _ here).1, all-IsIdentifier ids rest)

parse_prerelease_sound :
    (pre : Bytes) {ids : List Bytes}
    → parse_prerelease pre ≡ some ids
    → (3 + length ids ≤ 32) × All IsIdentifier ids
unfolding parse_prerelease
parse_prerelease_sound [] h = cc
parse_prerelease_sound (c ∷ s) {ids} h = ground (arith, all-IsIdentifier ids)

-- Numbers in uint64, at most 29 identifiers, and every identifier allowed.
pub record IsWellFormed (s : Semver) : Type 0 where
  pub major_fits : s.major ≤ max_uint64
  pub minor_fits : s.minor ≤ max_uint64
  pub patch_fits : s.patch ≤ max_uint64
  pub few : 3 + length s.prerelease ≤ 32
  pub identifiers : All IsIdentifier s.prerelease

parse_parts_sound :
    (core : Bytes) (pre : Option Bytes) {s : Semver}
    → parse_parts core pre ≡ some s
    → IsWellFormed s
unfolding parse_parts
parse_parts_sound core none h =
    let ((a, b, c), e, k) = >>=-eq-some (parse_core (split b'.' core)) _ h in
    subst IsWellFormed (of_some k) (ground (arith, parse_core-le (split b'.' core) e))
parse_parts_sound core (some pre) h =
    let ((a, b, c), e, k) = >>=-eq-some (parse_core (split b'.' core)) _ h in
    let (ids, e', k') = >>=-eq-some (parse_prerelease pre) _ k in
    let (few, ok) = parse_prerelease_sound pre e' in
    let (x, y, z) = parse_core-le (split b'.' core) e in
    subst IsWellFormed (of_some k')
      record { major_fits = x; minor_fits = y; patch_fits = z; few = few; identifiers = ok }

parse_after_build_sound : (v : Bytes) {s : Semver} → parse_after_build v ≡ some s → IsWellFormed s
unfolding parse_after_build
parse_after_build_sound v {s} h = go (cut b'-' v) h
  where
    go :
        (o : Option (Bytes × Bytes))
        → elim o [ none ↦ parse_parts v none | some (core, pre) ↦ parse_parts core (some pre) ]
          ≡ some s
        → IsWellFormed s
    go none h = parse_parts_sound v none h
    go (some (core, pre)) h = parse_parts_sound core (some pre) h

parse_after_prefix_sound : (v : Bytes) {s : Semver} → parse_after_prefix v ≡ some s → IsWellFormed s
unfolding parse_after_prefix
parse_after_prefix_sound v {s} h = go (cut b'+' v) h
  where
    go :
        (o : Option (Bytes × Bytes))
        → elim o [
          | none ↦ parse_after_build v
          | some (rest, build) ↦
              if is_valid_dot_separated build true then parse_after_build rest else none
        ]
          ≡ some s
        → IsWellFormed s
    go none h = parse_after_build_sound v h
    go (some (rest, build)) h =
        parse_after_build_sound rest
          (if-eq-some (is_valid_dot_separated build true) (parse_after_build rest) h).1

-- A version that parses has numbers that fit in uint64, at most 29 prerelease identifiers, and only
-- identifiers that semantic versioning allows.
pub parse_version-IsWellFormed :
    (v : Bytes) {s : Semver} → parse_version v ≡ some s → IsWellFormed s
unfolding parse_version
parse_version-IsWellFormed v h =
    parse_after_prefix_sound (trim_v (trim_space v)) (unless-eq-some _ _ h).1
