-- ===== src/Prelude/Compare.antt =====
-- Three-way comparison: Go's -1, 0 and 1 are `lt`, `eq` and `gt`.
use Prim.Native.Nat.{ℕ, Ordering}
use Prim.Native.Nat.Ordering.{lt, eq, gt}
use mathlib.Core.Path.{◌≡◌, refl}
use mathlib.Core.List.{List, [], ◌∷◌}
use native.Mathlib.Omega.{arith}
use grantseal.Prelude.Tests.{ltb, if◌then◌else◌}

abbrev pub flip : Ordering → Ordering
flip lt = gt
flip eq = eq
flip gt = lt

-- The first comparison that is not `eq` decides.
abbrev pub and_then : Ordering → Ordering → Ordering
and_then lt o = lt
and_then eq o = o
and_then gt o = gt

-- A total preorder: it turns round under `flip`, it is transitive, and equals are interchangeable.
pub record IsOrder {ℓ} {A : Type ℓ} (c : A → A → Ordering) : Type ℓ where
  pub flips : (x y : A) → c y x ≡ flip (c x y)
  pub trans : (x y z : A) → c x y ≡ lt → c y z ≡ lt → c x z ≡ lt
  pub same : (x y z : A) → c x y ≡ eq → c x z ≡ c y z

-- cmpUint, and the comparison of bytes
unfoldable pub cmp_uint : ℕ → ℕ → Ordering
cmp_uint a b = if ltb a b then lt else if ltb b a then gt else eq

pub cmp_uint-IsOrder : IsOrder cmp_uint
unfolding cmp_uint
cmp_uint-IsOrder = record {
  flips = λ x y. ground arith;
  trans = λ x y z h k. ground arith;
  same = λ x y z h. ground arith;
}

module _ {ℓ} {A : Type ℓ} where
  -- the comparison of two lists, element by element; a proper prefix comes first
  unfoldable pub lexicographic : (A → A → Ordering) → List A → List A → Ordering
  lexicographic c [] [] = eq
  lexicographic c [] (y ∷ ys) = lt
  lexicographic c (x ∷ xs) [] = gt
  lexicographic c (x ∷ xs) (y ∷ ys) = and_then (c x y) (lexicographic c xs ys)

module _ {ℓ} {A : Type ℓ} {c d : A → A → Ordering} (hc : IsOrder c) (hd : IsOrder d) where
  and_then_trans :
      (x y z : A)
      → and_then (c x y) (d x y) ≡ lt
      → and_then (c y z) (d y z) ≡ lt
      → and_then (c x z) (d x z) ≡ lt
  and_then_trans x y z h k = ground (
    arith,
    hc.trans x y z,
    hc.same x y z,
    hc.flips x y,
    hc.flips y z,
    hc.flips x z,
    hc.same z y x,
    hd.trans x y z,
  )

  pub and_then-IsOrder : IsOrder (λ x y. and_then (c x y) (d x y))
  and_then-IsOrder = record {
    flips = λ x y. ground (arith, hc.flips x y, hd.flips x y);
    trans = and_then_trans;
    same = λ x y z h. ground (arith, hc.same x y z, hd.same x y z);
  }

pub pullback-IsOrder {ℓ κ} :
    {A : Type ℓ} {B : Type κ} (f : A → B) {c : B → B → Ordering}
    → IsOrder c
    → IsOrder (λ x y. c (f x) (f y))
pullback-IsOrder f h = record {
  flips = λ x y. h.flips (f x) (f y);
  trans = λ x y z. h.trans (f x) (f y) (f z);
  same = λ x y z. h.same (f x) (f y) (f z);
}

module _ {ℓ} {A : Type ℓ} {c : A → A → Ordering} (hc : IsOrder c) where
  lexicographic-flip : (xs ys : List A) → lexicographic c ys xs ≡ flip (lexicographic c xs ys)
  unfolding lexicographic
  lexicographic-flip [] [] = refl
  lexicographic-flip [] (y ∷ ys) = refl
  lexicographic-flip (x ∷ xs) [] = refl
  lexicographic-flip (x ∷ xs) (y ∷ ys) = ground (arith, hc.flips x y, lexicographic-flip xs ys)

  lexicographic_trans :
      (xs ys zs : List A)
      → lexicographic c xs ys ≡ lt
      → lexicographic c ys zs ≡ lt
      → lexicographic c xs zs ≡ lt
  unfolding lexicographic
  lexicographic_trans [] [] zs h k = cc
  lexicographic_trans [] (y ∷ ys) [] h k = cc
  lexicographic_trans [] (y ∷ ys) (z ∷ zs) h k = refl
  lexicographic_trans (x ∷ xs) [] zs h k = cc
  lexicographic_trans (x ∷ xs) (y ∷ ys) [] h k = cc
  lexicographic_trans (x ∷ xs) (y ∷ ys) (z ∷ zs) h k = ground (
    arith,
    hc.trans x y z,
    hc.same x y z,
    hc.flips x y,
    hc.flips y z,
    hc.flips x z,
    hc.same z y x,
    lexicographic_trans xs ys zs,
  )

  lexicographic_same :
      (xs ys zs : List A)
      → lexicographic c xs ys ≡ eq
      → lexicographic c xs zs ≡ lexicographic c ys zs
  unfolding lexicographic
  lexicographic_same [] [] zs h = refl
  lexicographic_same [] (y ∷ ys) zs h = cc
  lexicographic_same (x ∷ xs) [] zs h = cc
  lexicographic_same (x ∷ xs) (y ∷ ys) [] h = refl
  lexicographic_same (x ∷ xs) (y ∷ ys) (z ∷ zs) h =
      ground (arith, hc.same x y z, lexicographic_same xs ys zs)

  pub lexicographic-IsOrder : IsOrder (lexicographic c)
  lexicographic-IsOrder = record {
    flips = lexicographic-flip;
    trans = lexicographic_trans;
    same = lexicographic_same;
  }
