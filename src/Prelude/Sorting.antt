-- ===== src/Prelude/Sorting.antt =====
-- Sorting by a three-way comparison: the package sort on an order in which equals are the same.
use Prim.Native.Nat.{Ordering}
use Prim.Native.Nat.Ordering.{lt, eq, gt}
use mathlib.Core.Path.{◌≡◌, refl, sym, ap, ◌∙◌, subst}
use mathlib.Core.Bool.{Bool, true, false}
use mathlib.Core.List.{List, [], ◌∷◌}
use native.Mathlib.Omega.{arith}
use grantseal.Prelude.Tests.{if◌then◌else◌}
use grantseal.Prelude.Compare.{IsOrder, flip}

abbrev pub at_most : Ordering → Bool
at_most lt = true
at_most eq = true
at_most gt = false

module _ {ℓ} {A : Type ℓ} (c : A → A → Ordering) where
  unfoldable pub insert_by : A → List A → List A
  insert_by x [] = x ∷ []
  insert_by x (y ∷ ys) =
      let rest = insert_by x ys in if at_most (c x y) then x ∷ y ∷ ys else y ∷ rest

  unfoldable pub sort_by : List A → List A
  sort_by [] = []
  sort_by (x ∷ xs) = insert_by x (sort_by xs)

module _ {ℓ} {A : Type ℓ} {c : A → A → Ordering} (hc : IsOrder c)
    (exact : (x y : A) → c x y ≡ eq → x ≡ y) where
  insert_distinct :
      (x y : A) (l : List A)
      → c x y ≡ lt
      → insert_by c x (insert_by c y l) ≡ insert_by c y (insert_by c x l)
  unfolding insert_by
  insert_distinct x y [] h = ground (arith, hc.flips x y)
  insert_distinct x y (z ∷ l) h = ground (
    arith,
    hc.flips x y,
    hc.trans x y z,
    hc.same y z x,
    hc.flips x z,
    hc.flips y z,
    hc.same z x y,
    insert_distinct x y l h,
  )

  pub insert_by_comm :
      (x y : A) (l : List A) → insert_by c x (insert_by c y l) ≡ insert_by c y (insert_by c x l)
  insert_by_comm x y l = at (c x y) refl
    where
      at :
          (o : Ordering)
          → c x y ≡ o
          → insert_by c x (insert_by c y l) ≡ insert_by c y (insert_by c x l)
      at lt e = insert_distinct x y l e
      at eq e =
          subst (λ z. insert_by c x (insert_by c z l) ≡ insert_by c z (insert_by c x l))
            (exact x y e) refl
      at gt e = sym (insert_distinct y x l (hc.flips x y ∙ ap flip e))
