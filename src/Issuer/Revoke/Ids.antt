-- ===== src/Issuer/Revoke/Ids.antt =====
-- The ids of a list: dedupeNonEmpty of internal/issuer/revoke.go.
use grantseal.Prelude.{
  if◌then◌else◌, Bool, true, false, ◌&&◌, ◌||◌, not, List, [], ◌∷◌, Bytes, eqb, eqb→eq, eqb_refl,
  is_nil, any, ◌≡◌, ◌≢◌, ◌↔◌, ◌⊎◌, inl, inr, refl, ap, arith, Bool-cases,
}
use grantseal.Prelude.Among.{IsAmong, any_iff}
use grantseal.Revocation.List.{build_provider}
use grantseal.Issuer.Revoke.{dedupe_from, dedupe_non_empty}

abbrev among : Bytes → List Bytes → Bool
among t ids = any (λ u. eqb u t) ids

-- No id stands twice in the list.
abbrev pub Distinct : List Bytes → Type 0
Distinct [] = Unit
Distinct (s ∷ ids) = (IsAmong s ids → ⊥) × Distinct ids

dedupe_from-among :
    (t : Bytes) (ids seen : List Bytes)
    → among t (dedupe_from seen ids) ≡ (not (is_nil t) && (among t ids && not (among t seen)))
unfolding dedupe_from
dedupe_from-among t [] seen = ground arith
dedupe_from-among t (s ∷ ids) seen =
    at (λ seen. dedupe_from-among t ids seen) (not (is_nil s) && not (among s seen)) refl
      (Bool-cases (eqb s t))
  where
    at :
        ((seen : List Bytes)
          → among t (dedupe_from seen ids)
            ≡ (not (is_nil t) && (among t ids && not (among t seen))))
        → (b : Bool) → (not (is_nil s) && not (among s seen)) ≡ b
        → (eqb s t ≡ true) ⊎ (eqb s t ≡ false)
        → among t (
            let rest = dedupe_from (if b then s ∷ seen else seen) ids in
            if b then s ∷ rest else rest)
          ≡ (not (is_nil t) && ((eqb s t || among t ids) && not (among t seen)))
    at ih true e (inl same) =
        let nils = ap is_nil (eqb→eq s t same) in
        let seens = ap (λ u. among u seen) (eqb→eq s t same) in ground arith
    at ih true e (inr other) = let left = ih (s ∷ seen) in ground arith
    at ih false e (inl same) =
        let nils = ap is_nil (eqb→eq s t same) in
        let seens = ap (λ u. among u seen) (eqb→eq s t same) in let left = ih seen in ground arith
    at ih false e (inr other) = let left = ih seen in ground arith

dedupe_from-Distinct : (ids seen : List Bytes) → Distinct (dedupe_from seen ids)
unfolding dedupe_from
dedupe_from-Distinct [] seen = tt
dedupe_from-Distinct (s ∷ ids) seen =
    at (λ seen. dedupe_from-Distinct ids seen) (not (is_nil s) && not (among s seen)) refl
  where
    at :
        ((seen : List Bytes) → Distinct (dedupe_from seen ids))
        → (b : Bool) → (not (is_nil s) && not (among s seen)) ≡ b
        → Distinct (
            let rest = dedupe_from (if b then s ∷ seen else seen) ids in
            if b then s ∷ rest else rest)
    at ih true e = (
      λ m.
          let here = (any_iff s (dedupe_from (s ∷ seen) ids)).1 m in
          let left = dedupe_from-among s ids (s ∷ seen) in
          let same = eqb_refl s in absurd (ground arith),
      ih (s ∷ seen),
    )
    at ih false e = ih seen

not_nil : (t : Bytes) → (not (is_nil t) ≡ true) ↔ (t ≢ [])
not_nil [] = (λ h. absurd (cc), λ h. absurd (h refl))
not_nil (c ∷ t) = (λ h e. absurd (cc), λ h. refl)

-- The ids of an issued list are those of the request, but for the empty ones, each once.
pub dedupe_non_empty_iff :
    (ids : List Bytes)
    → ((t : Bytes) → IsAmong t (dedupe_non_empty ids) ↔ ((t ≢ []) × IsAmong t ids))
      × Distinct (dedupe_non_empty ids)
unfolding dedupe_non_empty
dedupe_non_empty_iff ids = (λ t. (forth t, back t), dedupe_from-Distinct ids [])
  where
    forth : (t : Bytes) → IsAmong t (dedupe_from [] ids) → (t ≢ []) × IsAmong t ids
    forth t m =
        let here = (any_iff t (dedupe_from [] ids)).1 m in
        let eq = dedupe_from-among t ids [] in
        ((not_nil t).0 (ground arith), (any_iff t ids).0 (ground arith))

    back : (t : Bytes) → ((t ≢ []) × IsAmong t ids) → IsAmong t (dedupe_from [] ids)
    back t (ne, m) =
        let some_byte = (not_nil t).1 ne in
        let there = (any_iff t ids).1 m in
        let eq = dedupe_from-among t ids [] in (any_iff t (dedupe_from [] ids)).0 (ground arith)

kept_by_provider :
    (ids seen : List Bytes) → build_provider (dedupe_from seen ids) ≡ dedupe_from seen ids
unfolding dedupe_from build_provider
kept_by_provider [] seen = refl
kept_by_provider (s ∷ ids) seen =
    at (λ seen. kept_by_provider ids seen) (not (is_nil s) && not (among s seen)) refl
  where
    at :
        ((seen : List Bytes) → build_provider (dedupe_from seen ids) ≡ dedupe_from seen ids)
        → (b : Bool) → (not (is_nil s) && not (among s seen)) ≡ b
        → build_provider (
            let rest = dedupe_from (if b then s ∷ seen else seen) ids in
            if b then s ∷ rest else rest)
          ≡ (let rest = dedupe_from (if b then s ∷ seen else seen) ids in
              if b then s ∷ rest else rest)
    at ih true e = let left = ih (s ∷ seen) in ground arith
    at ih false e = ih seen

-- The client keeps every id of an issued list.
pub build_provider-dedupe_non_empty :
    (ids : List Bytes) → build_provider (dedupe_non_empty ids) ≡ dedupe_non_empty ids
unfolding dedupe_non_empty
build_provider-dedupe_non_empty ids = kept_by_provider ids []
