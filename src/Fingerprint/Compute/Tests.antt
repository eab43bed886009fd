-- ===== src/Fingerprint/Compute/Tests.antt =====
-- The fingerprints of a machine over a concrete library, in which every digest is the same.
use mathlib.Core.List.Permᴰ
use grantseal.Prelude.{
  ◌≡◌, ◌<◌, ◌++◌, inr, refl, codes, List, [], ◌∷◌, Bytes, length, some, pos, true, eqb, join,
  trim_space, arith, cut, cut_prefix,
}
use grantseal.Prelude.Maps.{lookup, insert}
use grantseal.Prelude.Results.{ok}
use grantseal.Features.{sort_strings, insert_sorted}
use grantseal.Fingerprint.Scheme.{parse, is_lower_hex, sha256_hex_len}
use grantseal.Fingerprint.Compute.{
  HashLibrary, Component, Collector, compute_hmac, compute_hmac_v2, compute_hmac_version,
  primary_component, best_from, choose, chosen_of, rank, ranks_from, is_placeholder_value,
  normalize, compute_v2, format_int, digits, compute_of_primary, fingerprint_of, canonical_form,
  entries, categories_from, tagged_digest, fingerprint_prefix,
}
use grantseal.Fingerprint.RequestCode.{
  request_code_default, request_code_v2, request_code_from_fingerprint, strip_fingerprint_prefixes,
  strip_version, trim_prefix, groups,
}
use grantseal.Fingerprint.Compute.Order.{persisted, compute_hmac_reordered}
use grantseal.Fingerprint.Compute.Primary.{compute_hmac_v2_stable}
use grantseal.Fingerprint.Compute.Codes.{IsHashLibrary, compute_hmac_version-parse}
use grantseal.Fingerprint.RequestCode.Shape.{IsRequestCode, request_code_default-IsRequestCode}

abbrev digest : Bytes
digest = codes "0123456789abcdef0123456789abcdef0123456789abcdef0123456789abcdef"

abbrev hash : HashLibrary
hash = record {
  to_lower = λ s. s;
  fields = λ s. s ∷ [];
  to_upper = λ s. s;
  sha256 = λ b. b;
  hmac = λ k b. b;
  hex_encode = λ b. digest;
}

digest_hex : is_lower_hex digest ≡ true
unfolding is_lower_hex
digest_hex = refl

hash-IsHashLibrary : IsHashLibrary hash
hash-IsHashLibrary = record {
  sha256_hex = λ b. digest_hex;
  sha256_size = λ b. refl;
  hmac_hex = λ k b. digest_hex;
  hmac_size = λ k b. refl;
  upper_length = λ n b h. refl;
}

abbrev machine : Component
machine = record { category = codes "machine_id"; value = codes "m-1" }

abbrev board : Component
board = record { category = codes "board_uuid"; value = codes "b-1" }

abbrev priority : List Bytes
priority = codes "machine_id" ∷ codes "board_uuid" ∷ []

abbrev collector : Collector
collector = record { components = board ∷ machine ∷ []; primary_priority = priority }

compute_hmac_reordered_example :
    persisted hash (
      compute_hmac hash
        (record { components = board ∷ machine ∷ []; primary_priority = priority })
        (codes "editor")
        [])
    ≡ persisted hash (
        compute_hmac hash
          (record { components = machine ∷ board ∷ []; primary_priority = priority })
          (codes "editor")
          [])
compute_hmac_reordered_example =
    compute_hmac_reordered hash (codes "editor") [] priority (Permᴰ.swap refl refl)

machine_first : primary_component hash (machine ∷ []) priority ≡ some machine
unfolding primary_component best_from normalize is_placeholder_value choose chosen_of rank
    ranks_from lookup insert eqb join trim_space
machine_first = refl

board_second : rank priority (codes "machine_id") < rank priority (codes "board_uuid")
unfolding rank ranks_from lookup insert eqb
board_second = omega arith

compute_hmac_v2_stable_example :
    compute_hmac_v2 hash
      (record { components = machine ∷ board ∷ []; primary_priority = priority })
      (codes "editor")
      []
    ≡ compute_hmac_v2 hash
        (record { components = machine ∷ []; primary_priority = priority })
        (codes "editor")
        []
compute_hmac_v2_stable_example =
    compute_hmac_v2_stable hash priority (codes "editor") [] (machine ∷ []) [] machine board
      machine_first (inr board_second)

computed :
    compute_hmac_version hash collector (codes "editor") (pos 2) []
    ≡ ok (record {
      version = pos 2;
      product_namespace = codes "editor";
      fingerprint = codes "fp:v2:sha256:" ++ digest;
      components_used = codes "machine_id" ∷ [];
    })
unfolding compute_hmac_version compute_hmac_v2 primary_component best_from normalize
    is_placeholder_value choose chosen_of rank ranks_from lookup insert eqb join trim_space
    compute_of_primary fingerprint_of canonical_form entries categories_from tagged_digest
    fingerprint_prefix format_int digits sort_strings insert_sorted
computed = refl

computed_v2 :
    compute_hmac_v2 hash collector (codes "editor") []
    ≡ ok (record {
      version = pos 2;
      product_namespace = codes "editor";
      fingerprint = codes "fp:v2:sha256:" ++ digest;
      components_used = codes "machine_id" ∷ [];
    })
unfolding compute_hmac_version
computed_v2 = computed

compute_hmac_version-parse_example :
    (d : Bytes) × (length d ≡ sha256_hex_len)
    × (parse (codes "fp:v2:sha256:" ++ digest)
        ≡ ok (record { version = pos 2; algorithm = codes "sha256"; digest = d; namespace = [] }))
compute_hmac_version-parse_example =
    compute_hmac_version-parse hash hash-IsHashLibrary collector (codes "editor") [] (pos 2)
      (record {
        version = pos 2;
        product_namespace = codes "editor";
        fingerprint = codes "fp:v2:sha256:" ++ digest;
        components_used = codes "machine_id" ∷ [];
      })
      computed

code :
    request_code_default hash collector (codes "editor") ≡ ok (codes "V2-0123-4567-89ab-cdef-0123")
unfolding request_code_default request_code_v2 compute_v2 request_code_from_fingerprint
    strip_fingerprint_prefixes strip_version trim_prefix cut cut_prefix groups format_int digits
    join
code = rw computed_v2 refl

request_code_default-IsRequestCode_example :
    (d : Bytes) × (length d ≡ sha256_hex_len)
    × IsRequestCode hash (codes "V2") d (codes "V2-0123-4567-89ab-cdef-0123")
request_code_default-IsRequestCode_example =
    request_code_default-IsRequestCode hash hash-IsHashLibrary collector (codes "editor")
      (codes "V2-0123-4567-89ab-cdef-0123") code
