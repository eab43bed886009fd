-- ===== src/Version/Tests.antt =====
-- Runs of version.go on concrete versions.
use Prim.Native.Nat.Ordering.{lt, eq, gt}
use grantseal.Prelude.{◌≡◌, refl, none, some, codes, [], ◌∷◌, inr, arith, trim_space, join}
use grantseal.Version.{
  parse_version, compare_versions_strict, compare_prerelease_id, decimal, is_numeric_id,
  is_alphanumeric_id, has_leading_zero,
}
use grantseal.Version.Bounds.{IsIdentifier, IsWellFormed, parse_version-IsWellFormed}
use grantseal.Version.Grammar.{IsNumber, version_text}
use grantseal.Version.Accepts.{parse_version-text}
use grantseal.Version.Order.{large_identifiers_tie}

parse_full :
    parse_version (codes " v1.20.3-rc.1+build.007 ")
    ≡ some (record { major = 1; minor = 20; patch = 3; prerelease = codes "rc" ∷ codes "1" ∷ [] })
unfolding parse_version
parse_full = refl

parse_two_parts : parse_version (codes "1.2") ≡ none
unfolding parse_version
parse_two_parts = refl

parse_leading_zero : parse_version (codes "1.02.3") ≡ none
unfolding parse_version
parse_leading_zero = refl

parse_overflow : parse_version (codes "18446744073709551616.0.0") ≡ none
unfolding parse_version
parse_overflow = refl

alpha_before_release : compare_versions_strict (codes "1.0.0-alpha") (codes "1.0.0") ≡ some lt
unfolding compare_versions_strict
alpha_before_release = refl

numeric_by_value : compare_versions_strict (codes "1.0.0-rc.10") (codes "1.0.0-rc.9") ≡ some gt
unfolding compare_versions_strict
numeric_by_value = refl

sample_numbers : IsNumber (codes "1") × IsNumber (codes "20")
unfolding has_leading_zero decimal
sample_numbers = (
  record { some_digit = λ e. cc; digits = refl; no_zero = refl; fits = omega arith },
  record { some_digit = λ e. cc; digits = refl; no_zero = refl; fits = omega arith },
)

sample_identifiers : IsIdentifier (codes "rc") × IsIdentifier (codes "1")
unfolding is_alphanumeric_id is_numeric_id has_leading_zero
sample_identifiers = ((refl, λ h. cc), (refl, λ h. refl))

spaced_text :
    trim_space (codes " v1.20.1-rc.1 ")
    ≡ b'v' ∷ version_text (codes "1") (codes "20") (codes "1") (codes "rc" ∷ codes "1" ∷ []) []
unfolding trim_space join
spaced_text = refl

parse_version-text_example :
    parse_version (codes " v1.20.1-rc.1 ")
    ≡ some (record {
      major = decimal 0 (codes "1");
      minor = decimal 0 (codes "20");
      patch = decimal 0 (codes "1");
      prerelease = codes "rc" ∷ codes "1" ∷ [];
    })
unfolding trim_space
parse_version-text_example =
    parse_version-text (codes "1") (codes "20") (codes "1") sample_numbers.0 sample_numbers.1
      sample_numbers.0 (codes " v1.20.1-rc.1 ") (codes "rc" ∷ codes "1" ∷ []) [] (inr spaced_text)
      (omega arith) (omega arith) (sample_identifiers.0, (sample_identifiers.1, tt)) tt

parse_version-IsWellFormed_example :
    IsWellFormed
      (record { major = 1; minor = 20; patch = 3; prerelease = codes "rc" ∷ codes "1" ∷ [] })
parse_version-IsWellFormed_example =
    parse_version-IsWellFormed (codes " v1.20.3-rc.1+build.007 ") parse_full

large_identifiers_tie_example :
    compare_prerelease_id (codes "18446744073709551616") (codes "99999999999999999999") ≡ eq
unfolding decimal is_numeric_id
large_identifiers_tie_example =
    large_identifiers_tie (codes "18446744073709551616") (codes "99999999999999999999") refl refl
      (omega arith) (omega arith)
