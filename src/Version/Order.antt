-- ===== src/Version/Order.antt =====
-- Precedence of parsed versions: compare, comparePrerelease and comparePrereleaseID of version.go.
use Prim.Native.Nat.Ordering.{lt, eq, gt}
use grantseal.Prelude.{
  true, ◌≢◌, ◌≤◌, ℕ, ltb, if◌then◌else◌, ◌≡◌, refl, sym, subst, List, [], ◌∷◌, Bytes, length, arith,
  Ordering, fun_ext,
}
use grantseal.Prelude.Compare.{
  cmp_uint, cmp_uint-IsOrder, and_then, and_then-IsOrder, pullback-IsOrder, IsOrder, flip,
  lexicographic, lexicographic-IsOrder,
}
use grantseal.Version.{
  max_uint64, decimal, is_numeric_id, Semver, parse_uint, compare_strings, compare_prerelease_id,
  compare_shared, compare_prerelease, compare_semver,
}

pub compare_strings-IsOrder : IsOrder compare_strings
unfolding compare_strings
compare_strings-IsOrder = lexicographic-IsOrder cmp_uint-IsOrder

-- Strings that compare as equal are the same.
pub compare_strings_exact : (a b : Bytes) → compare_strings a b ≡ eq → a ≡ b
unfolding compare_strings lexicographic cmp_uint
compare_strings_exact [] [] h = refl
compare_strings_exact [] (d ∷ b) h = cc
compare_strings_exact (c ∷ a) [] h = cc
compare_strings_exact (c ∷ a) (d ∷ b) h =
    let tails = compare_strings_exact a b in ground (arith, tails)

value : Bytes → ℕ
value s = (parse_uint s).0

by_value-IsOrder : IsOrder (λ a b. cmp_uint (value a) (value b))
by_value-IsOrder = pullback-IsOrder value cmp_uint-IsOrder

-- Numeric identifiers are ordered by value, the others as text, and the numeric ones come first.
compare_prerelease_id-IsOrder : IsOrder compare_prerelease_id
unfolding compare_prerelease_id value
compare_prerelease_id-IsOrder = record {
  flips = λ x y. ground (arith, by_value-IsOrder.flips x y, compare_strings-IsOrder.flips x y);
  trans = λ x y z h k.
      ground (arith, by_value-IsOrder.trans x y z, compare_strings-IsOrder.trans x y z);
  same = λ x y z h. ground (arith, by_value-IsOrder.same x y z, compare_strings-IsOrder.same x y z);
}

by_length : List Bytes → List Bytes → Ordering
by_length a b =
    if ltb (length a) (length b) then lt else if ltb (length b) (length a) then gt else eq

-- The loop and the final test on the lengths make the lexicographic comparison.
compare_shared-lexicographic :
    (a b : List Bytes)
    → and_then (compare_shared a b) (by_length a b) ≡ lexicographic compare_prerelease_id a b
unfolding compare_shared lexicographic by_length
compare_shared-lexicographic [] [] = refl
compare_shared-lexicographic [] (y ∷ b) = ground arith
compare_shared-lexicographic (x ∷ a) [] = ground arith
compare_shared-lexicographic (x ∷ a) (y ∷ b) = ground (arith, compare_shared-lexicographic a b)

-- An empty list of identifiers, a release, comes after all others.
release_last : List Bytes → List Bytes → Ordering
release_last [] [] = eq
release_last [] (y ∷ b) = gt
release_last (x ∷ a) [] = lt
release_last (x ∷ a) (y ∷ b) = lexicographic compare_prerelease_id (x ∷ a) (y ∷ b)

compare_prerelease-release_last : (a b : List Bytes) → compare_prerelease a b ≡ release_last a b
unfolding compare_prerelease release_last by_length
compare_prerelease-release_last [] [] = refl
compare_prerelease-release_last [] (y ∷ b) = refl
compare_prerelease-release_last (x ∷ a) [] = refl
compare_prerelease-release_last (x ∷ a) (y ∷ b) = compare_shared-lexicographic (x ∷ a) (y ∷ b)

lex : IsOrder (lexicographic compare_prerelease_id)
lex = lexicographic-IsOrder compare_prerelease_id-IsOrder

release_last-flip : (a b : List Bytes) → release_last b a ≡ flip (release_last a b)
unfolding release_last
release_last-flip [] [] = refl
release_last-flip [] (y ∷ b) = refl
release_last-flip (x ∷ a) [] = refl
release_last-flip (x ∷ a) (y ∷ b) = lex.flips (x ∷ a) (y ∷ b)

release_last_trans :
    (a b c : List Bytes) → release_last a b ≡ lt → release_last b c ≡ lt → release_last a c ≡ lt
unfolding release_last
release_last_trans [] [] c h k = cc
release_last_trans [] (y ∷ b) c h k = cc
release_last_trans (x ∷ a) [] [] h k = refl
release_last_trans (x ∷ a) [] (z ∷ c) h k = cc
release_last_trans (x ∷ a) (y ∷ b) [] h k = refl
release_last_trans (x ∷ a) (y ∷ b) (z ∷ c) h k = lex.trans (x ∷ a) (y ∷ b) (z ∷ c) h k

release_last_same :
    (a b c : List Bytes) → release_last a b ≡ eq → release_last a c ≡ release_last b c
unfolding release_last
release_last_same [] [] c h = refl
release_last_same [] (y ∷ b) c h = cc
release_last_same (x ∷ a) [] c h = cc
release_last_same (x ∷ a) (y ∷ b) [] h = refl
release_last_same (x ∷ a) (y ∷ b) (z ∷ c) h = lex.same (x ∷ a) (y ∷ b) (z ∷ c) h

compare_prerelease-IsOrder : IsOrder compare_prerelease
compare_prerelease-IsOrder =
    subst IsOrder (sym (fun_ext λ a. fun_ext λ b. compare_prerelease-release_last a b))
      record { flips = release_last-flip; trans = release_last_trans; same = release_last_same }

-- The precedence of versions is a total preorder: comparing the other way round turns the answer
-- round, it is transitive, and versions that compare equal compare alike with every other version.
pub compare_semver-IsOrder : IsOrder compare_semver
unfolding compare_semver
compare_semver-IsOrder =
    and_then-IsOrder (pullback-IsOrder (λ (s : Semver). s.major) cmp_uint-IsOrder) (
      and_then-IsOrder (pullback-IsOrder (λ (s : Semver). s.minor) cmp_uint-IsOrder) (
        and_then-IsOrder (pullback-IsOrder (λ (s : Semver). s.patch) cmp_uint-IsOrder)
          (pullback-IsOrder (λ (s : Semver). s.prerelease) compare_prerelease-IsOrder)))

-- A version with identifiers behind the hyphen comes before the release of the same numbers.
pub prerelease_before_release :
    (s t : Semver)
    → s.major ≡ t.major
    → s.minor ≡ t.minor
    → s.patch ≡ t.patch
    → s.prerelease ≢ []
    → t.prerelease ≡ []
    → compare_semver s t ≡ lt
unfolding compare_semver
prerelease_before_release s t a b c h k = ground arith

-- Numeric identifiers of 2 ^ 64 - 1 and above compare as equal, whatever their values: the error of
-- the conversion is dropped, and with it the difference between them.
pub large_identifiers_tie :
    (a b : Bytes)
    → is_numeric_id a ≡ true
    → is_numeric_id b ≡ true
    → max_uint64 ≤ decimal 0 a
    → max_uint64 ≤ decimal 0 b
    → compare_prerelease_id a b ≡ eq
unfolding compare_prerelease_id
large_identifiers_tie [] b h k m n = cc
large_identifiers_tie (x ∷ a) [] h k m n = cc
large_identifiers_tie (x ∷ a) (y ∷ b) h k m n = ground arith

-- Numeric identifiers below 2 ^ 64 are ordered by their values.
pub small_identifiers_by_value :
    (a b : Bytes)
    → is_numeric_id a ≡ true
    → is_numeric_id b ≡ true
    → decimal 0 a ≤ max_uint64
    → decimal 0 b ≤ max_uint64
    → compare_prerelease_id a b ≡ cmp_uint (decimal 0 a) (decimal 0 b)
unfolding compare_prerelease_id
small_identifiers_by_value [] b h k m n = cc
small_identifiers_by_value (x ∷ a) [] h k m n = cc
small_identifiers_by_value (x ∷ a) (y ∷ b) h k m n = ground arith
