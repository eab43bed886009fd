-- ===== src/Features/Sorted.antt =====
-- The order of texts in pkg/license/features.go, and sorted lists of them.
use grantseal.Prelude.{
  ℕ, zero, suc, ◌≤◌, if◌then◌else◌, Bool, true, false, none, some, List, [], ◌∷◌, Bytes, length,
  get_elem?, All, ◌≡◌, refl, ◌∙◌, sym, subst, arith,
}
use grantseal.Prelude.Options.{of_some}
use grantseal.Version.Order.{compare_strings-IsOrder, compare_strings_exact}
use grantseal.Features.{string_le, insert_sorted, sort_strings}

pub string_le_total : (a b : Bytes) → string_le a b ≡ false → string_le b a ≡ true
string_le_total a b h = ground (arith, compare_strings-IsOrder.flips a b)

pub string_le_refl : (a : Bytes) → string_le a a ≡ true
string_le_refl a = ground (arith, compare_strings-IsOrder.flips a a)

pub string_le_trans :
    (a b c : Bytes) → string_le a b ≡ true → string_le b c ≡ true → string_le a c ≡ true
string_le_trans a b c h k = ground (
  arith,
  compare_strings-IsOrder.trans a b c,
  compare_strings-IsOrder.same a b c,
  compare_strings-IsOrder.same c b a,
  compare_strings-IsOrder.flips a c,
  compare_strings-IsOrder.flips b c,
  compare_strings-IsOrder.flips a b,
)

pub string_le_antisym : (a b : Bytes) → string_le a b ≡ true → string_le b a ≡ true → a ≡ b
string_le_antisym a b h k =
    compare_strings_exact a b (ground (arith, compare_strings-IsOrder.flips a b))

abbrev pub IsSorted : List Bytes → Type 0
IsSorted [] = Unit
IsSorted (f ∷ fs) = All (λ g. string_le f g ≡ true) fs × IsSorted fs

All-insert_sorted :
    (P : Bytes → Type 0) (f : Bytes) (fs : List Bytes) → P f → All P fs → All P (insert_sorted f fs)
unfolding insert_sorted
All-insert_sorted P f [] p ps = (p, tt)
All-insert_sorted P f (g ∷ gs) p (q, qs) = at (string_le f g) (All-insert_sorted P f gs p qs)
  where
    at :
        (b : Bool)
        → All P (insert_sorted f gs)
        → All P (if b then f ∷ g ∷ gs else g ∷ insert_sorted f gs)
    at true rest = (p, (q, qs))
    at false rest = (q, rest)

All-string_le :
    (f g : Bytes) (fs : List Bytes)
    → string_le f g ≡ true
    → All (λ x. string_le g x ≡ true) fs
    → All (λ x. string_le f x ≡ true) fs
All-string_le f g [] h ps = tt
All-string_le f g (x ∷ fs) h (p, ps) = (string_le_trans f g x h p, All-string_le f g fs h ps)

insert_sorted-IsSorted : (f : Bytes) (fs : List Bytes) → IsSorted fs → IsSorted (insert_sorted f fs)
unfolding insert_sorted
insert_sorted-IsSorted f [] s = (tt, tt)
insert_sorted-IsSorted f (g ∷ gs) (p, s) = at (string_le f g) refl (insert_sorted-IsSorted f gs s)
  where
    at :
        (b : Bool)
        → string_le f g ≡ b
        → IsSorted (insert_sorted f gs)
        → IsSorted (if b then f ∷ g ∷ gs else g ∷ insert_sorted f gs)
    at true e rest = ((e, All-string_le f g gs e p), (p, s))
    at false e rest =
        (All-insert_sorted (λ x. string_le g x ≡ true) f gs (string_le_total f g e) p, rest)

pub sort_strings-IsSorted : (fs : List Bytes) → IsSorted (sort_strings fs)
unfolding sort_strings
sort_strings-IsSorted [] = tt
sort_strings-IsSorted (f ∷ fs) =
    insert_sorted-IsSorted f (sort_strings fs) (sort_strings-IsSorted fs)

-- What is found at an index is among what a quantifier ranges over.
All-get :
    (P : Bytes → Type 0) (fs : List Bytes) (i : ℕ) (a : Bytes)
    → All P fs
    → get_elem? fs i ≡ some a
    → P a
All-get P [] i a ps e = absurd (cc)
All-get P (f ∷ fs) zero a (p, ps) e = subst P (of_some e) p
All-get P (f ∷ fs) (suc i) a (p, ps) e = All-get P fs i a ps e

pub ascending :
    (fs : List Bytes) (i j : ℕ) (a b : Bytes)
    → IsSorted fs
    → i ≤ j
    → get_elem? fs i ≡ some a
    → get_elem? fs j ≡ some b
    → string_le a b ≡ true
ascending [] i j a b s w h k = cc
ascending (f ∷ fs) zero zero a b s w h k =
    subst (λ b. string_le a b ≡ true) (of_some (sym h ∙ k)) (string_le_refl a)
ascending (f ∷ fs) zero (suc j) a b (p, s) w h k =
    subst (λ f. string_le f b ≡ true) (of_some h) (All-get (λ x. string_le f x ≡ true) fs j b p k)
ascending (f ∷ fs) (suc i) zero a b s w h k = absurd (omega (arith, w))
ascending (f ∷ fs) (suc i) (suc j) a b (p, s) w h k = ascending fs i j a b s (omega (arith, w)) h k

pub get-none : (fs : List Bytes) (i j : ℕ) → i ≤ j → get_elem? fs i ≡ none → get_elem? fs j ≡ none
get-none [] i j w h = refl
get-none (f ∷ fs) zero j w h = cc
get-none (f ∷ fs) (suc i) zero w h = absurd (omega (arith, w))
get-none (f ∷ fs) (suc i) (suc j) w h = get-none fs i j (omega (arith, w)) h

pub past_end : (fs : List Bytes) → get_elem? fs (length fs) ≡ none
past_end [] = refl
past_end (f ∷ fs) = past_end fs
