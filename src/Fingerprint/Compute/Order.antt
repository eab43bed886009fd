-- ===== src/Fingerprint/Compute/Order.antt =====
-- The order in which the components are collected does not matter.
use Prim.Native.Nat.Ordering.{eq}
use mathlib.Core.List.{Permᴰ}
use grantseal.Prelude.{
  if◌then◌else◌, Bool, true, false, Option, none, some, List, [], ◌∷◌, ◌++◌, Bytes, is_nil, ◌≡◌,
  refl, ap, ap₂, ◌∙◌, sym, arith,
}
use grantseal.Prelude.Compare.{IsOrder, and_then-IsOrder, pullback-IsOrder}
use grantseal.Prelude.Results.{Result, ok, err}
use grantseal.Prelude.Sorting.{sort_by, insert_by, insert_by_comm}
use grantseal.Features.{sort_strings}
use grantseal.Fingerprint.Scheme.{fingerprint_version}
use grantseal.Version.Order.{compare_strings-IsOrder, compare_strings_exact}
use grantseal.Fingerprint.Compute.{
  HashLibrary, Component, Fingerprint, ComputeError, empty_namespace, categories_from,
  fingerprint_prefix, compare_entries, normalize, entries, canonical_text, canonical_form,
  fingerprint_of, tagged_digest, compute_hmac,
}

compare_entries-IsOrder : IsOrder compare_entries
unfolding compare_entries
compare_entries-IsOrder =
    and_then-IsOrder (pullback-IsOrder (λ e. e.0) compare_strings-IsOrder)
      (pullback-IsOrder (λ e. e.1) compare_strings-IsOrder)

compare_entries_exact : (a b : Bytes × Bytes) → compare_entries a b ≡ eq → a ≡ b
unfolding compare_entries
compare_entries_exact (c, v) (d, w) h =
    let first = compare_strings_exact c d in
    let second = compare_strings_exact v w in ground (arith, first, second)

module _ (h : HashLibrary) where
  abbrev sorted : List Component → List (Bytes × Bytes)
  sorted cs = sort_by compare_entries (entries h cs)

  sorted_step :
      (c : Component) (l m : List Component) → sorted l ≡ sorted m → sorted (c ∷ l) ≡ sorted (c ∷ m)
  unfolding entries
  sorted_step c l m e = at (is_nil (normalize h c.value))
    where
      at :
          (b : Bool)
          → sort_by compare_entries
              (if b then entries h l else (c.category, normalize h c.value) ∷ entries h l)
            ≡ sort_by compare_entries
                (if b then entries h m else (c.category, normalize h c.value) ∷ entries h m)
      at true = e
      at false =
          unfold sort_by in ap (insert_by compare_entries (c.category, normalize h c.value)) e

  sorted_swap : (c d : Component) (l : List Component) → sorted (c ∷ d ∷ l) ≡ sorted (d ∷ c ∷ l)
  unfolding entries sort_by
  sorted_swap c d l = at (is_nil (normalize h c.value)) (is_nil (normalize h d.value))
    where
      x : Bytes × Bytes
      x = (c.category, normalize h c.value)

      y : Bytes × Bytes
      y = (d.category, normalize h d.value)

      at :
          (a b : Bool)
          → sort_by compare_entries (
              if a
              then (if b then entries h l else y ∷ entries h l)
              else x ∷ (if b then entries h l else y ∷ entries h l))
            ≡ sort_by compare_entries (
                if b
                then (if a then entries h l else x ∷ entries h l)
                else y ∷ (if a then entries h l else x ∷ entries h l))
      at true true = refl
      at true false = refl
      at false true = refl
      at false false =
          insert_by_comm compare_entries-IsOrder compare_entries_exact x y
            (sort_by compare_entries (entries h l))

  sorted_reordered : {l m : List Component} → Permᴰ l m → sorted l ≡ sorted m
  sorted_reordered Permᴰ.nil = refl
  sorted_reordered (Permᴰ.cons {a} {b} {l₁} {l₂} e p) =
      ap (λ c. sorted (c ∷ l₁)) e ∙ sorted_step b l₁ l₂ (sorted_reordered p)
  sorted_reordered (Permᴰ.swap {a} {b} {a'} {b'} {l} e f) =
      sorted_swap a b l ∙ ap₂ (λ c d. sorted (c ∷ d ∷ l)) f e
  sorted_reordered (Permᴰ.trans p q) = sorted_reordered p ∙ sorted_reordered q

  is_nil-sorted : (l : List (Bytes × Bytes)) → is_nil (sort_by compare_entries l) ≡ is_nil l
  unfolding sort_by
  is_nil-sorted [] = refl
  is_nil-sorted (e ∷ l) = inserted (sort_by compare_entries l)
    where
      inserted : (l : List (Bytes × Bytes)) → is_nil (insert_by compare_entries e l) ≡ false
      inserted [] = unfold insert_by in refl
      inserted (f ∷ l) = unfold insert_by in ground arith

  -- The fingerprint that is persisted, without the categories that are reported next to it.
  abbrev pub persisted : Result ComputeError Fingerprint → Result ComputeError Bytes
  persisted (ok fp) = ok fp.fingerprint
  persisted (err e) = err e

  -- The version 1 fingerprint, keyed or not, does not depend on the order in which the components are
  -- collected, nor does its failure.
  pub compute_hmac_reordered :
      (product_namespace key : Bytes) (priority : List Bytes) {l m : List Component}
      → Permᴰ l m
      → persisted (
          compute_hmac h
            (record { components = l; primary_priority = priority })
            product_namespace
            key)
        ≡ persisted (
            compute_hmac h
              (record { components = m; primary_priority = priority })
              product_namespace
              key)
  unfolding compute_hmac canonical_form
  compute_hmac_reordered product_namespace key priority {l} {m} p =
      at (is_nil product_namespace) (is_nil (entries h l)) (is_nil (entries h m)) (
        sym (is_nil-sorted (entries h l))
        ∙ ap is_nil (sorted_reordered p)
        ∙ is_nil-sorted (entries h m))
    where
      formed : Bool → List Component → Option (Bytes × List Bytes)
      formed empty l =
          if empty
          then none
          else some
              (canonical_text product_namespace (sorted l), sort_strings (categories_from h [] l))

      at :
          (refused a b : Bool)
          → a ≡ b
          → persisted (
              if refused
              then err empty_namespace
              else fingerprint_of h fingerprint_version product_namespace key (formed a l))
            ≡ persisted (
                if refused
                then err empty_namespace
                else fingerprint_of h fingerprint_version product_namespace key (formed b m))
      at true a b e = refl
      at false true true e = unfold fingerprint_of in refl
      at false true false e = absurd (cc)
      at false false true e = absurd (cc)
      at false false false e =
          unfold fingerprint_of in
          ap
            (λ t. ok (
              fingerprint_prefix fingerprint_version
              ++ tagged_digest h key (canonical_text product_namespace t)))
            (sorted_reordered p)
