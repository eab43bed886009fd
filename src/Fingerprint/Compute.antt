-- ===== src/Fingerprint/Compute.antt =====
-- pkg/fingerprint/fingerprint.go, and ComputeVersion and ComputeHMACVersion of scheme.go: from the collected
-- components to a fingerprint. What the collector gives is an argument.
pub mod Order
pub mod Primary
pub mod Codes
mod Tests
use Prim.Native.Nat.{Ordering}
use grantseal.Prelude.{
  ℕ, zero, suc, ◌+◌, ◌-◌, ◌/◌, ◌%◌, ltb, ◌==◌, if◌then◌else◌, Bool, true, false, ◌&&◌, ◌||◌, not,
  Option, none, some, List, [], ◌∷◌, ◌++◌, map, Bytes, codes, eqb, cut, cut_prefix, join, all, any,
  length, take, drop, is_nil, trim_space, ℤ, pos, negsuc, eq_ℤ,
}
use grantseal.Prelude.Compare.{and_then}
use grantseal.Prelude.Maps.{Map, lookup, insert}
use grantseal.Prelude.Results.{Result, ok, err, ◌>>=◌}
use grantseal.Prelude.Sorting.{sort_by}
use grantseal.Version.{compare_strings}
use grantseal.Features.{sort_strings}
use grantseal.Fingerprint.Scheme.{fingerprint_version, fingerprint_version_v2}

-- strings.ToLower and strings.Fields of Unicode text, strings.ToUpper, SHA-256, HMAC-SHA256 and hex.
pub record HashLibrary : Type 0 where
  pub to_lower : Bytes → Bytes
  pub fields : Bytes → List Bytes
  pub to_upper : Bytes → Bytes
  pub sha256 : Bytes → Bytes
  pub hmac : Bytes → Bytes → Bytes
  pub hex_encode : Bytes → Bytes

pub record Component : Type 0 where
  pub category : Bytes
  pub value : Bytes

-- A Collector: what Collect and PrimaryPriority return.
pub record Collector : Type 0 where
  pub components : List Component
  pub primary_priority : List Bytes

pub record Fingerprint : Type 0 where
  pub version : ℤ
  pub product_namespace : Bytes
  pub fingerprint : Bytes
  pub components_used : List Bytes

-- ErrInsufficientInfo, ErrEmptyNamespace and ErrUnknownVersion
pub data ComputeError : Type 0 where
  insufficient_info empty_namespace unknown_version : ComputeError

-- The decimal digits of a number below 10 ^ fuel
unfoldable pub digits : ℕ → ℕ → Bytes
digits zero n = []
digits (suc fuel) n =
    let rest = digits fuel (n / 10) in
    if ltb n 10 then (n + 48) ∷ [] else rest ++ ((n % 10 + 48) ∷ [])

-- fmt.Sprintf("%d") of an int, which has at most 19 digits
unfoldable pub format_int : ℤ → Bytes
format_int (pos n) = digits 19 n
format_int (negsuc n) = 45 ∷ digits 19 (suc n)

-- fingerprintPrefix
unfoldable pub fingerprint_prefix : ℤ → Bytes
fingerprint_prefix version = codes "fp:v" ++ (format_int version ++ codes ":")

-- buildComponent
unfoldable pub build_component : Bytes → Bytes → Component
build_component category raw = record { category = category; value = trim_space raw }

-- The switch of isPlaceholderValue
abbrev pub placeholders : List Bytes
placeholders =
    codes "none"
    ∷ codes "default"
    ∷ codes "default string"
    ∷ codes "to be filled by o.e.m."
    ∷ codes "to be filled by o.e.m"
    ∷ codes "system serial number"
    ∷ codes "system product name"
    ∷ codes "not specified"
    ∷ codes "not available"
    ∷ codes "unknown"
    ∷ codes "0"
    ∷ codes "00000000-0000-0000-0000-000000000000"
    ∷ codes "ffffffff-ffff-ffff-ffff-ffffffffffff"
    ∷ []

-- isPlaceholderValue; its loop over runes tells '0' and '-' from all others, as does a loop over bytes.
unfoldable pub is_placeholder_value : Bytes → Bool
is_placeholder_value v =
    if is_nil v
    then true
    else if any (λ p. eqb p v) placeholders
    then true
    else all (λ c. c == 48 || c == 45) v

-- The comparison of sort.Slice in canonicalForm, by category and then by value
unfoldable pub compare_entries : Bytes × Bytes → Bytes × Bytes → Ordering
compare_entries (category, value) (other, content) =
    and_then (compare_strings category other) (compare_strings value content)

-- The text of one entry
unfoldable pub entry_text : Bytes × Bytes → Bytes
entry_text (category, value) = category ++ (codes "=" ++ value)

-- The text that canonicalForm builds of sorted entries
unfoldable pub canonical_text : Bytes → List (Bytes × Bytes) → Bytes
canonical_text product_namespace sorted = product_namespace ++ (0 ∷ join 10 (map entry_text sorted))

-- rank[cat] = i, in the order of the loop
unfoldable pub ranks_from : ℕ → List Bytes → Map ℕ → Map ℕ
ranks_from i [] m = m
ranks_from i (cat ∷ priority) m = ranks_from (i + 1) priority (insert cat i m)

abbrev pub or_last : Option ℕ → ℕ → ℕ
or_last none n = n
or_last (some r) n = r

-- The rank of a category in primaryComponent
unfoldable pub rank : List Bytes → Bytes → ℕ
rank priority category = or_last (lookup category (ranks_from 0 priority [])) (length priority)

-- A usable component in the loop of primaryComponent; `none` is best == -1.
unfoldable pub choose : ℕ → Component → Option (ℕ × Component) → Option (ℕ × Component)
choose r c none = some (r, c)
choose r c (some (best, chosen)) = if ltb r best then some (r, c) else some (best, chosen)

unfoldable pub chosen_of : Option (ℕ × Component) → Option Component
chosen_of none = none
chosen_of (some (best, chosen)) = some chosen

module _ (h : HashLibrary) where
  -- normalize
  unfoldable pub normalize : Bytes → Bytes
  normalize s = join 32 (h.fields (h.to_lower (trim_space s)))

  -- The first loop of canonicalForm: the entries, and the categories in the order in which they are met
  unfoldable pub entries : List Component → List (Bytes × Bytes)
  entries [] = []
  entries (c ∷ cs) =
      let rest = entries cs in
      let v = normalize c.value in if is_nil v then rest else (c.category, v) ∷ rest

  unfoldable pub categories_from : List Bytes → List Component → List Bytes
  categories_from seen [] = []
  categories_from seen (c ∷ cs) =
      let fresh = not (is_nil (normalize c.value)) && not (any (λ k. eqb k c.category) seen) in
      let rest = categories_from (if fresh then c.category ∷ seen else seen) cs in
      if fresh then c.category ∷ rest else rest

  -- canonicalForm
  unfoldable pub canonical_form : Bytes → List Component → Option (Bytes × List Bytes)
  canonical_form product_namespace components =
      if is_nil (entries components)
      then none
      else some (
        canonical_text product_namespace (sort_by compare_entries (entries components)),
        sort_strings (categories_from [] components),
      )

  -- The loop of primaryComponent
  unfoldable pub best_from :
      List Bytes → List Component → Option (ℕ × Component) → Option (ℕ × Component)
  best_from priority [] best = best
  best_from priority (c ∷ cs) best = best_from priority cs (
      if is_placeholder_value (normalize c.value)
      then best
      else choose (rank priority c.category) c best)

  -- primaryComponent
  unfoldable pub primary_component : List Component → List Bytes → Option Component
  primary_component components priority = chosen_of (best_from priority components none)

  -- The digest and its tag in ComputeHMAC and ComputeHMACV2
  unfoldable pub tagged_digest : Bytes → Bytes → Bytes
  tagged_digest key canonical =
      if not (is_nil key)
      then codes "hmac-sha256:" ++ h.hex_encode (h.hmac key canonical)
      else codes "sha256:" ++ h.hex_encode (h.sha256 canonical)

  -- The end of ComputeHMAC and ComputeHMACV2, with the canonical form
  unfoldable pub fingerprint_of :
      ℤ → Bytes → Bytes → Option (Bytes × List Bytes) → Result ComputeError Fingerprint
  fingerprint_of version product_namespace key none = err insufficient_info
  fingerprint_of version product_namespace key (some (canonical, categories)) = ok (record {
    version = version;
    product_namespace = product_namespace;
    fingerprint = fingerprint_prefix version ++ tagged_digest key canonical;
    components_used = categories;
  })

  -- ComputeHMAC
  unfoldable pub compute_hmac : Collector → Bytes → Bytes → Result ComputeError Fingerprint
  compute_hmac col product_namespace key =
      if is_nil product_namespace
      then err empty_namespace
      else fingerprint_of fingerprint_version product_namespace key
          (canonical_form product_namespace col.components)

  -- Compute
  unfoldable pub compute : Collector → Bytes → Result ComputeError Fingerprint
  compute col product_namespace = compute_hmac col product_namespace []

  -- ComputeHMACV2 past the choice of the primary component
  unfoldable pub compute_of_primary :
      Option Component → Bytes → Bytes → Result ComputeError Fingerprint
  compute_of_primary none product_namespace key = err insufficient_info
  compute_of_primary (some primary) product_namespace key =
      fingerprint_of fingerprint_version_v2 product_namespace key
        (canonical_form product_namespace (primary ∷ []))

  -- ComputeHMACV2
  unfoldable pub compute_hmac_v2 : Collector → Bytes → Bytes → Result ComputeError Fingerprint
  compute_hmac_v2 col product_namespace key =
      if is_nil product_namespace
      then err empty_namespace
      else compute_of_primary (primary_component col.components col.primary_priority)
          product_namespace key

  -- ComputeV2 and ComputeDefault
  unfoldable pub compute_v2 : Collector → Bytes → Result ComputeError Fingerprint
  compute_v2 col product_namespace = compute_hmac_v2 col product_namespace []

  unfoldable pub compute_default : Collector → Bytes → Result ComputeError Fingerprint
  compute_default col product_namespace = compute_v2 col product_namespace

  -- ComputeHMACDefault
  unfoldable pub compute_hmac_default : Collector → Bytes → Bytes → Result ComputeError Fingerprint
  compute_hmac_default col product_namespace key = compute_hmac_v2 col product_namespace key

  -- ComputeHMACVersion
  unfoldable pub compute_hmac_version :
      Collector → Bytes → ℤ → Bytes → Result ComputeError Fingerprint
  compute_hmac_version col product_namespace version key =
      if eq_ℤ version fingerprint_version
      then compute_hmac col product_namespace key
      else if eq_ℤ version fingerprint_version_v2
      then compute_hmac_v2 col product_namespace key
      else err unknown_version

  -- ComputeVersion
  unfoldable pub compute_version : Collector → Bytes → ℤ → Result ComputeError Fingerprint
  compute_version col product_namespace version =
      compute_hmac_version col product_namespace version []
