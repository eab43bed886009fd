-- ===== src/Fingerprint/Compute/Primary.antt =====
-- The version 2 fingerprint depends on its primary component only.
use grantseal.Prelude.{
  ℕ, ◌≤◌, ◌<◌, ltb, if◌then◌else◌, Bool, true, false, Option, none, some, List, [], ◌∷◌, ◌++◌,
  Bytes, ◌≡◌, ◌⊎◌, inl, inr, refl, ap, ◌∙◌, sym, arith,
}
use grantseal.Prelude.Options.{of_some}
use grantseal.Fingerprint.Compute.{
  HashLibrary, Component, is_placeholder_value, normalize, rank, choose, chosen_of, best_from,
  primary_component, compute_hmac_v2,
}

-- Two states of the loop: the same, or the second took a component of rank `r` that the first did not, and
-- the first has nothing of a lower rank.
abbrev Ahead : ℕ → Option (ℕ × Component) → Type 0
Ahead r none = Unit
Ahead r (some (best, c)) = r ≤ best

abbrev Near : ℕ → Component → Option (ℕ × Component) → Option (ℕ × Component) → Type 0
Near r d st now = (st ≡ now) ⊎ ((now ≡ some (r, d)) × Ahead r st)

above :
    (r s best : ℕ) (c x : Component) (b : Bool)
    → r ≤ best
    → ltb s r ≡ false
    → Ahead r (if b then some (s, c) else some (best, x))
above r s best c x true a h = ground arith
above r s best c x false a h = a

choose-Near :
    (r s : ℕ) (d c : Component) (st now : Option (ℕ × Component))
    → Near r d st now
    → Near r d (choose s c st) (choose s c now)
choose-Near r s d c st now (inl e) = inl (ap (choose s c) e)
choose-Near r s d c none now (inr (e, a)) = rw e (fresh (ltb s r) refl)
  where
    fresh : (b : Bool) → ltb s r ≡ b → Near r d (choose s c none) (choose s c (some (r, d)))
    fresh true h = unfold choose in inl (rw h refl)
    fresh false h = unfold choose in inr (rw h refl, ground arith)
choose-Near r s d c (some (best, x)) now (inr (e, a)) = rw e (kept (ltb s r) refl)
  where
    kept :
        (b : Bool) → ltb s r ≡ b → Near r d (choose s c (some (best, x))) (choose s c (some (r, d)))
    kept true h =
        let lower : ltb s best ≡ true = ground arith in unfold choose in inl (rw (h, lower) refl)
    kept false h = unfold choose in inr (rw h refl, above r s best c x (ltb s best) a h)

chosen-Near :
    (r b : ℕ) (d c : Component) (st now : Option (ℕ × Component))
    → Near r d st now
    → st ≡ some (b, c)
    → b < r
    → now ≡ st
chosen-Near r b d c st now (inl e) h w = sym e
chosen-Near r b d c none now (inr (e, a)) h w = cc
chosen-Near r b d c (some (best, x)) now (inr (e, a)) h w =
    absurd (lower (ap (λ p. p.0) (of_some h)))
  where
    lower : best ≡ b → ⊥
    lower same = omega (arith, same, a, w)

module _ (h : HashLibrary) (priority : List Bytes) where
  -- A component that the loop of primaryComponent skips, or ranks behind another one.
  abbrev pub IsSecondary : Component → Component → Type 0
  IsSecondary c d =
      (is_placeholder_value (normalize h d.value) ≡ true)
      ⊎ (rank priority c.category < rank priority d.category)

  best_from-Near :
      (r : ℕ) (d : Component) (l : List Component) (st now : Option (ℕ × Component))
      → Near r d st now
      → Near r d (best_from h priority l st) (best_from h priority l now)
  unfolding best_from
  best_from-Near r d [] st now n = n
  best_from-Near r d (c ∷ l) st now n =
      best_from-Near r d l
        (if is_placeholder_value (normalize h c.value)
          then st
          else choose (rank priority c.category) c st)
        (if is_placeholder_value (normalize h c.value)
          then now
          else choose (rank priority c.category) c now)
        (at (is_placeholder_value (normalize h c.value)))
    where
      at :
          (b : Bool)
          → Near r d
              (if b then st else choose (rank priority c.category) c st)
              (if b then now else choose (rank priority c.category) c now)
      at true = n
      at false = choose-Near r (rank priority c.category) d c st now n

  -- The rank that the loop keeps is that of the component it keeps.
  abbrev Ranked : Option (ℕ × Component) → Type 0
  Ranked none = Unit
  Ranked (some (best, c)) = best ≡ rank priority c.category

  best_from-Ranked :
      (l : List Component) (st : Option (ℕ × Component))
      → Ranked st
      → Ranked (best_from h priority l st)
  unfolding best_from
  best_from-Ranked [] st w = w
  best_from-Ranked (c ∷ l) st w =
      best_from-Ranked l
        (if is_placeholder_value (normalize h c.value)
          then st
          else choose (rank priority c.category) c st)
        (at (is_placeholder_value (normalize h c.value)) st w)
    where
      kept :
          (b : Bool) (best : ℕ) (x : Component)
          → best ≡ rank priority x.category
          → Ranked (if b then some (rank priority c.category, c) else some (best, x))
      kept true best x w = refl
      kept false best x w = w

      at :
          (b : Bool) (st : Option (ℕ × Component))
          → Ranked st
          → Ranked (if b then st else choose (rank priority c.category) c st)
      at true st w = w
      at false none w = unfold choose in refl
      at false (some (best, x)) w =
          unfold choose in kept (ltb (rank priority c.category) best) best x w

  best_from-append :
      (l m : List Component) (st : Option (ℕ × Component))
      → best_from h priority (l ++ m) st ≡ best_from h priority m (best_from h priority l st)
  unfolding best_from
  best_from-append [] m st = refl
  best_from-append (c ∷ l) m st = best_from-append l m (
      if is_placeholder_value (normalize h c.value)
      then st
      else choose (rank priority c.category) c st)

  start-Near : (r : ℕ) (d : Component) (st : Option (ℕ × Component)) → Near r d st (choose r d st)
  start-Near r d none = unfold choose in inr (refl, tt)
  start-Near r d (some (best, x)) = at (ltb r best) refl
    where
      at : (b : Bool) → ltb r best ≡ b → Near r d (some (best, x)) (choose r d (some (best, x)))
      at true e = unfold choose in inr (rw e refl, ground arith)
      at false e = unfold choose in inl (rw e refl)

  found :
      (st : Option (ℕ × Component)) (c : Component)
      → Ranked st
      → chosen_of st ≡ some c
      → st ≡ some (rank priority c.category, c)
  unfolding chosen_of
  found none c w e = cc
  found (some (best, x)) c w e =
      ap (λ b. some (b, x)) w ∙ ap (λ c. some (rank priority c.category, c)) (of_some e)

  -- The primary component stays the same when a component that is not usable, or of a category of a later rank,
  -- appears at any place among the collected ones.
  primary_component_stable :
      (l m : List Component) (c d : Component)
      → primary_component h (l ++ m) priority ≡ some c
      → IsSecondary c d
      → primary_component h (l ++ (d ∷ m)) priority ≡ some c
  unfolding primary_component
  primary_component_stable l m c d e second =
      ap chosen_of (best_from-append l (d ∷ m) none)
      ∙ ap chosen_of (at (is_placeholder_value (normalize h d.value)) second refl)
      ∙ whole
    where
      st : Option (ℕ × Component)
      st = best_from h priority l none

      whole : chosen_of (best_from h priority m st) ≡ some c
      whole = sym (ap chosen_of (best_from-append l m none)) ∙ e

      is : best_from h priority m st ≡ some (rank priority c.category, c)
      is =
          found (best_from h priority m st) c (best_from-Ranked m st (best_from-Ranked l none tt))
            whole

      at :
          (b : Bool)
          → (b ≡ true) ⊎ (rank priority c.category < rank priority d.category)
          → is_placeholder_value (normalize h d.value) ≡ b
          → best_from h priority (d ∷ m) st ≡ best_from h priority m st
      at true s p = unfold best_from in rw p refl
      at false (inl s) p = cc
      at false (inr s) p =
          unfold best_from in
          rw p (
            chosen-Near (rank priority d.category) (rank priority c.category) d c
              (best_from h priority m st)
              (best_from h priority m (choose (rank priority d.category) d st))
              (best_from-Near (rank priority d.category) d m st
                (choose (rank priority d.category) d st)
                (start-Near (rank priority d.category) d st))
              is s)

  -- A version 2 fingerprint does not change, keyed or not, when a component that is not usable, or of a category
  -- of a later rank than the primary one, appears or disappears at any place among the collected ones.
  pub compute_hmac_v2_stable :
      (product_namespace key : Bytes) (l m : List Component) (c d : Component)
      → primary_component h (l ++ m) priority ≡ some c
      → IsSecondary c d
      → compute_hmac_v2 h
          (record { components = l ++ (d ∷ m); primary_priority = priority })
          product_namespace
          key
        ≡ compute_hmac_v2 h
            (record { components = l ++ m; primary_priority = priority })
            product_namespace
            key
  unfolding compute_hmac_v2
  compute_hmac_v2_stable product_namespace key l m c d e second =
      rw (primary_component_stable l m c d e second, e) refl
