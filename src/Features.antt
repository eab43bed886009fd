-- ===== src/Features.antt =====
-- pkg/license/features.go: the features that a license grants, and the search for one of them in
-- pkg/license/result.go.
pub mod Granted
pub mod Search
pub mod Sorted
mod Tests
use Prim.Native.Nat.Ordering.{lt, eq, gt}
use grantseal.Prelude.{
  ℕ, zero, suc, ◌+◌, ◌/◌, ltb, ◌==◌, if◌then◌else◌, Bool, true, false, ◌&&◌, ◌||◌, not, Option,
  none, some, List, [], ◌∷◌, ◌++◌, Bytes, codes, eqb, length, is_nil, any, get_elem?, Ordering,
}
use grantseal.Version.{compare_strings}
use grantseal.Payload.{
  Payload, edition_trial, edition_basic, edition_professional, edition_enterprise,
}

-- defaultEditionFeatures; an edition that is not in the map has none.
unfoldable pub default_edition_features : Bytes → List Bytes
default_edition_features e =
    if eqb e edition_trial
    then codes "core" ∷ []
    else if eqb e edition_basic
    then codes "core" ∷ codes "reports" ∷ []
    else if eqb e edition_professional
    then codes "core" ∷ codes "reports" ∷ codes "api" ∷ codes "sso" ∷ []
    else if eqb e edition_enterprise
    then codes "core"
      ∷ codes "reports"
      ∷ codes "api"
      ∷ codes "sso"
      ∷ codes "audit"
      ∷ codes "priority_support"
      ∷ []
    else []

abbrev pub member : Bytes → List Bytes → Bool
member f set = any (λ g. eqb g f) set

-- set[f] = struct{}{}
unfoldable pub add_member : Bytes → List Bytes → List Bytes
add_member f set = if member f set then set else f ∷ set

-- The first loop, over the defaults, and the second, which skips empty names.
unfoldable pub add_all : List Bytes → List Bytes → List Bytes
add_all [] set = set
add_all (f ∷ fs) set = add_all fs (add_member f set)

unfoldable pub add_named : List Bytes → List Bytes → List Bytes
add_named [] set = set
add_named (f ∷ fs) set = add_named fs (if is_nil f then set else add_member f set)

-- a <= b of strings
abbrev pub string_le : Bytes → Bytes → Bool
string_le a b = elim (compare_strings a b) [ gt ↦ false | _ ↦ true ]

unfoldable pub insert_sorted : Bytes → List Bytes → List Bytes
insert_sorted f [] = f ∷ []
insert_sorted f (g ∷ gs) =
    let rest = insert_sorted f gs in if string_le f g then f ∷ g ∷ gs else g ∷ rest

-- sort.Strings
unfoldable pub sort_strings : List Bytes → List Bytes
sort_strings [] = []
sort_strings (f ∷ fs) = insert_sorted f (sort_strings fs)

-- EffectiveFeatures
unfoldable pub effective_features : Payload → List Bytes
effective_features p =
    sort_strings (add_named p.features (add_all (default_edition_features p.edition) []))

-- a[h] >= name, the test of sort.SearchStrings; h is always a valid index there.
abbrev pub at_least : List Bytes → Bytes → ℕ → Bool
at_least fs name h = elim (get_elem? fs h) [ none ↦ true | some g ↦ string_le name g ]

-- The loop of sort.Search: each round halves the interval, so its length is enough fuel.
unfoldable pub search_loop : ℕ → List Bytes → Bytes → ℕ → ℕ → ℕ
search_loop zero fs name i j = i
search_loop (suc fuel) fs name i j =
    let h = (i + j) / 2 in
    let low = search_loop fuel fs name (h + 1) j in
    let high = search_loop fuel fs name i h in
    if ltb i j then (if at_least fs name h then high else low) else i

-- HasFeature of a result whose features are `fs`
unfoldable pub has_feature : List Bytes → Bytes → Bool
has_feature fs name = elim (get_elem? fs (search_loop (suc (length fs)) fs name 0 (length fs))) [
  | none ↦ false
  | some g ↦ eqb g name
]
