-- ===== src/Version.antt =====
-- pkg/license/version.go: strict Semantic Versioning 2.0.0, parsed and compared.
-- Versions are byte strings. Go's results -1, 0 and 1 are `lt`, `eq` and `gt`; a pair `(v, ok)` is
-- an `Option`.
pub mod Order
pub mod Bounds
pub mod Grammar
pub mod Accepts
mod Tests
use Prim.Native.Nat.Ordering.{lt, eq, gt}
use grantseal.Prelude.{
  ℕ, ◌+◌, ◌*◌, ◌-◌, ◌^◌, ltb, leb, ◌==◌, if◌then◌else◌, Bool, true, false, ◌&&◌, ◌||◌, not, Option,
  none, some, List, [], ◌∷◌, Bytes, codes, cut, cut_prefix, split, trim_space, length, all, is_nil,
  Ordering,
}
use grantseal.Prelude.Options.{◌>>=◌, ◌>>◌, guard}
use grantseal.Prelude.Compare.{cmp_uint, and_then, lexicographic}

abbrev pub max_version_components : ℕ
max_version_components = 32

abbrev pub max_version_length : ℕ
max_version_length = 256

abbrev pub max_uint64 : ℕ
max_uint64 = 2 ^ 64 - 1

pub record Semver : Type 0 where
  pub major : ℕ
  pub minor : ℕ
  pub patch : ℕ
  pub prerelease : List Bytes

abbrev pub is_digit : ℕ → Bool
is_digit c = leb b'0' c && leb c b'9'

-- The number that decimal digits spell behind `n`.
unfoldable pub decimal : ℕ → Bytes → ℕ
decimal n [] = n
decimal n (c ∷ s) = decimal (n * 10 + (c - b'0')) s

-- strconv.ParseUint(s, 10, 64) of digits: a value out of range comes back as the largest one, with
-- an error; other text as 0, with an error. The second part says that there was no error.
unfoldable pub parse_uint : Bytes → ℕ × Bool
unfolding decimal
parse_uint [] = (0, false)
parse_uint (c ∷ s) =
    if all is_digit (c ∷ s)
    then (if ltb max_uint64 (decimal 0 (c ∷ s))
        then (max_uint64, false)
        else (decimal 0 (c ∷ s), true))
    else (0, false)

unfoldable pub is_numeric_id : Bytes → Bool
is_numeric_id [] = false
is_numeric_id (c ∷ s) = all is_digit (c ∷ s)

abbrev pub is_alphanumeric_byte : ℕ → Bool
is_alphanumeric_byte c =
    is_digit c || (leb b'a' c && leb c b'z') || (leb b'A' c && leb c b'Z') || c == b'-'

unfoldable pub is_alphanumeric_id : Bytes → Bool
is_alphanumeric_id [] = false
is_alphanumeric_id (c ∷ s) = all is_alphanumeric_byte (c ∷ s)

-- len(s) > 1 && s[0] == '0'
unfoldable pub has_leading_zero : Bytes → Bool
has_leading_zero [] = false
has_leading_zero (c ∷ []) = false
has_leading_zero (c ∷ d ∷ s) = c == b'0'

unfoldable pub parse_numeric_id : Bytes → Option ℕ
unfolding parse_uint has_leading_zero
parse_numeric_id [] = none
parse_numeric_id (c ∷ s) =
    if not (all is_digit (c ∷ s))
    then none
    else if has_leading_zero (c ∷ s)
    then none
    else if (parse_uint (c ∷ s)).1
    then some (parse_uint (c ∷ s)).0
    else none

-- len(id) <= 1 || id[0] != '0' is the negation of a leading zero.
unfoldable pub is_valid_prerelease_id : Bytes → Bool
unfolding is_numeric_id is_alphanumeric_id has_leading_zero
is_valid_prerelease_id id =
    if is_numeric_id id then not (has_leading_zero id) else is_alphanumeric_id id

is_valid_build_part : Bool → Bytes → Bool
unfolding is_numeric_id is_alphanumeric_id has_leading_zero
is_valid_build_part allow_leading_zero id =
    not (is_nil id)
    && is_alphanumeric_id id
    && not (not allow_leading_zero && is_numeric_id id && has_leading_zero id)

unfoldable pub is_valid_dot_separated : Bytes → Bool → Bool
unfolding is_valid_build_part split
is_valid_dot_separated [] allow_leading_zero = false
is_valid_dot_separated (c ∷ s) allow_leading_zero =
    all (is_valid_build_part allow_leading_zero) (split b'.' (c ∷ s))

unfoldable pub parse_prerelease : Bytes → Option (List Bytes)
unfolding is_valid_prerelease_id split
parse_prerelease [] = none
parse_prerelease (c ∷ s) =
    let ids = split b'.' (c ∷ s) in
    if is_nil ids || ltb max_version_components (3 + length ids)
    then none
    else if all (λ id. not (is_nil id) && is_valid_prerelease_id id) ids
    then some ids
    else none

-- The three numbers of the core.
unfoldable pub parse_core : List Bytes → Option (ℕ × ℕ × ℕ)
unfolding parse_numeric_id
parse_core (a ∷ b ∷ c ∷ []) = do
  major ← parse_numeric_id a
  minor ← parse_numeric_id b
  patch ← parse_numeric_id c
  some (major, minor, patch)
parse_core _ = none

unfoldable pub parse_parts : Bytes → Option Bytes → Option Semver
unfolding parse_core parse_prerelease split
parse_parts core none = do
  (major, minor, patch) ← parse_core (split b'.' core)
  some (record { major = major; minor = minor; patch = patch; prerelease = [] })
parse_parts core (some pre) = do
  (major, minor, patch) ← parse_core (split b'.' core)
  ids ← parse_prerelease pre
  some (record { major = major; minor = minor; patch = patch; prerelease = ids })

-- From the first '-' on, what is left is the prerelease.
unfoldable pub parse_after_build : Bytes → Option Semver
unfolding parse_parts cut
parse_after_build v = elim (cut b'-' v) [
  | none ↦ parse_parts v none
  | some (core, pre) ↦ parse_parts core (some pre)
]

-- From the first '+' on, what is left is build metadata.
unfoldable pub parse_after_prefix : Bytes → Option Semver
unfolding parse_after_build is_valid_dot_separated cut
parse_after_prefix v = elim (cut b'+' v) [
  | none ↦ parse_after_build v
  | some (rest, build) ↦ if is_valid_dot_separated build true then parse_after_build rest else none
]

-- strings.TrimPrefix(v, "v")
unfoldable pub trim_v : Bytes → Bytes
unfolding cut_prefix
trim_v s = elim (cut_prefix (codes "v") s) [ none ↦ s | some rest ↦ rest ]

unfoldable pub parse_version : Bytes → Option Semver
unfolding parse_after_prefix trim_v trim_space
parse_version text =
    let v = trim_space text in
    if is_nil v || ltb max_version_length (length v) then none else parse_after_prefix (trim_v v)

-- strings.Compare
unfoldable pub compare_strings : Bytes → Bytes → Ordering
unfolding lexicographic cmp_uint
compare_strings = lexicographic cmp_uint

-- The error of ParseUint is dropped: an identifier above 2^64 - 1 counts as 2^64 - 1.
unfoldable pub compare_prerelease_id : Bytes → Bytes → Ordering
unfolding is_numeric_id parse_uint cmp_uint compare_strings
compare_prerelease_id a b =
    if is_numeric_id a && is_numeric_id b
    then cmp_uint (parse_uint a).0 (parse_uint b).0
    else if is_numeric_id a
    then lt
    else if is_numeric_id b
    then gt
    else compare_strings a b

-- The loop over the identifiers that both lists have.
unfoldable pub compare_shared : List Bytes → List Bytes → Ordering
unfolding compare_prerelease_id
compare_shared [] bs = eq
compare_shared (a ∷ cs) [] = eq
compare_shared (a ∷ cs) (b ∷ bs) = and_then (compare_prerelease_id a b) (compare_shared cs bs)

unfoldable pub compare_prerelease : List Bytes → List Bytes → Ordering
unfolding compare_shared
compare_prerelease a b =
    if is_nil a && is_nil b
    then eq
    else if is_nil a
    then gt
    else if is_nil b
    then lt
    else and_then (compare_shared a b)
        (if ltb (length a) (length b) then lt else if ltb (length b) (length a) then gt else eq)

unfoldable pub compare_semver : Semver → Semver → Ordering
unfolding cmp_uint compare_prerelease
compare_semver a b = and_then (cmp_uint a.major b.major) (
    and_then (cmp_uint a.minor b.minor)
      (and_then (cmp_uint a.patch b.patch) (compare_prerelease a.prerelease b.prerelease)))

unfoldable pub compare_versions_strict : Bytes → Bytes → Option Ordering
unfolding parse_version compare_semver
compare_versions_strict a b = do
  first ← parse_version a
  second ← parse_version b
  some (compare_semver first second)
