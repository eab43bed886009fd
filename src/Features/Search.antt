-- ===== src/Features/Search.antt =====
-- HasFeature of pkg/license/result.go searches a sorted list by halves.
use grantseal.Prelude.{
  ℕ, zero, suc, ◌+◌, ◌/◌, ◌≤◌, ◌<◌, ltb, if◌then◌else◌, Bool, true, false, Option, none, some, List,
  [], ◌∷◌, Bytes, eqb, eqb→eq, eqb_refl, length, get_elem?, ◌≡◌, ◌≢◌, ◌↔◌, ◌⊎◌, inl, inr, refl, ap,
  ◌∙◌, sym, subst, arith, Bool-cases,
}
use grantseal.Prelude.Among.{IsAmong, here, there}
use grantseal.Prelude.Options.{of_some}
use grantseal.Payload.{Payload}
use grantseal.Features.Granted.{effective_features_iff}
use grantseal.Features.{
  string_le, effective_features, default_edition_features, at_least, search_loop, has_feature,
}
use grantseal.Features.Sorted.{
  string_le_refl, string_le_trans, string_le_antisym, IsSorted, sort_strings-IsSorted, ascending,
  get-none, past_end,
}

at_option : Bytes → Option Bytes → Bool
at_option name none = true
at_option name (some g) = string_le name g

at_least-option :
    (fs : List Bytes) (name : Bytes) (h : ℕ) → at_least fs name h ≡ at_option name (get_elem? fs h)
at_least-option fs name h = split (get_elem? fs h)
  where
    split :
        (o : Option Bytes) → (elim o [ none ↦ true | some g ↦ string_le name g ]) ≡ at_option name o
    split none = unfold at_option in refl
    split (some g) = unfold at_option in refl

at_least-up :
    (fs : List Bytes) (name : Bytes) (k h : ℕ)
    → IsSorted fs
    → k ≤ h
    → at_least fs name k ≡ true
    → at_least fs name h ≡ true
at_least-up fs name k h s w e =
    at_least-option fs name h
    ∙ at (get_elem? fs k) (get_elem? fs h) refl refl (sym (at_least-option fs name k) ∙ e)
  where
    at :
        (o p : Option Bytes)
        → get_elem? fs k ≡ o
        → get_elem? fs h ≡ p
        → at_option name o ≡ true
        → at_option name p ≡ true
    at o none x y e = unfold at_option in refl
    at none (some g) x y e = absurd (missing (sym (get-none fs k h w x) ∙ y))
      where
        missing : none ≡ some g → ⊥
        missing h = absurd (cc)
    at (some f) (some g) x y e =
        unfold at_option in string_le_trans name f g e (ascending fs k h f g s w x y)

-- The index that the search gives: everything before it is below the name, and what stands there is not.
abbrev Found : List Bytes → Bytes → ℕ → Type 0
Found fs name r = ((k : ℕ) → k < r → at_least fs name k ≡ false) × (at_least fs name r ≡ true)

-- With fuel for the length of the interval the loop ends with the first index that is not below the name.
search_loop-Found :
    (fuel : ℕ) (fs : List Bytes) (name : Bytes) (i j : ℕ)
    → IsSorted fs
    → i ≤ j
    → j ≤ i + fuel
    → ((k : ℕ) → k < i → at_least fs name k ≡ false)
    → at_least fs name j ≡ true
    → Found fs name (search_loop fuel fs name i j)
unfolding search_loop
search_loop-Found zero fs name i j s w f below top =
    (below, subst (λ n. at_least fs name n ≡ true) (meet w f) top)
  where
    meet : i ≤ j → j ≤ i + 0 → j ≡ i
    meet w f = omega (arith, w, f)
search_loop-Found (suc fuel) fs name i j s w f below top =
    at (ltb i j) refl (at_least fs name ((i + j) / 2)) refl
      (λ m n w f b t. search_loop-Found fuel fs name m n s w f b t)
  where
    at :
        (a : Bool)
        → ltb i j ≡ a
        → (b : Bool) → at_least fs name ((i + j) / 2) ≡ b
        → ((m n : ℕ)
            → m ≤ n
            → n ≤ m + fuel
            → ((k : ℕ) → k < m → at_least fs name k ≡ false)
            → at_least fs name n ≡ true
            → Found fs name (search_loop fuel fs name m n))
        → Found fs name (
            if a
            then (if b
                then search_loop fuel fs name i ((i + j) / 2)
                else search_loop fuel fs name ((i + j) / 2 + 1) j)
            else i)
    at false e b h ih =
        let meet : j ≡ i = ground arith in (below, subst (λ n. at_least fs name n ≡ true) meet top)
    at true e true h ih =
        let lower : i < j = ground arith in
        ih i ((i + j) / 2) (omega (arith, lower)) (omega (arith, lower, f)) below h
    at true e false h ih =
        let lower : i < j = ground arith in
        ih ((i + j) / 2 + 1) j (omega (arith, lower)) (omega (arith, lower, f)) skipped top
      where
        skipped : (k : ℕ) → k < (i + j) / 2 + 1 → at_least fs name k ≡ false
        skipped k w = elim (Bool-cases (at_least fs name k)) [
          | inl up ↦
              absurd (clash (sym (at_least-up fs name k ((i + j) / 2) s (omega (arith, w)) up) ∙ h))
          | inr down ↦ down
        ]
          where
            clash : true ≡ false → ⊥
            clash h = absurd (cc)

IsAmong-get :
    (name : Bytes) (fs : List Bytes) → IsAmong name fs → (k : ℕ) × (get_elem? fs k ≡ some name)
IsAmong-get name [] m = elim m [ ]
IsAmong-get name (f ∷ fs) (here e) = (0, ap some e)
IsAmong-get name (f ∷ fs) (there m) = let (k, e) = IsAmong-get name fs m in (suc k, e)

get-IsAmong :
    (name : Bytes) (fs : List Bytes) (k : ℕ) → get_elem? fs k ≡ some name → IsAmong name fs
get-IsAmong name [] k e = absurd (cc)
get-IsAmong name (f ∷ fs) zero e = here (of_some e)
get-IsAmong name (f ∷ fs) (suc k) e = there (get-IsAmong name fs k e)

holds_name : Bytes → Option Bytes → Bool
holds_name name none = false
holds_name name (some g) = eqb g name

has_feature-holds :
    (fs : List Bytes) (name : Bytes)
    → has_feature fs name
      ≡ holds_name name (get_elem? fs (search_loop (suc (length fs)) fs name 0 (length fs)))
unfolding has_feature
has_feature-holds fs name =
    split (get_elem? fs (search_loop (suc (length fs)) fs name 0 (length fs)))
  where
    split : (o : Option Bytes) → (elim o [ none ↦ false | some g ↦ eqb g name ]) ≡ holds_name name o
    split none = unfold holds_name in refl
    split (some g) = unfold holds_name in refl

not_below : (name : Bytes) → false ≡ at_option name (some name) → ⊥
unfolding at_option
not_below name h = let same = string_le_refl name in absurd (ground arith)

Found-holds_name :
    (fs : List Bytes) (name : Bytes) (r : ℕ)
    → IsSorted fs
    → Found fs name r
    → (holds_name name (get_elem? fs r) ≡ true) ↔ IsAmong name fs
unfolding holds_name at_option
Found-holds_name fs name r s (below, top) = (forth (get_elem? fs r) refl, back)
  where
    forth : (o : Option Bytes) → get_elem? fs r ≡ o → holds_name name o ≡ true → IsAmong name fs
    forth none e h = absurd (cc)
    forth (some g) e h = get-IsAmong name fs r (e ∙ ap some (eqb→eq g name h))

    reached : (k : ℕ) → get_elem? fs k ≡ some name → k < r → ⊥
    reached k e w =
        not_below name (sym (below k w) ∙ at_least-option fs name k ∙ ap (at_option name) e)

    here_it_is :
        (k : ℕ) (o : Option Bytes)
        → get_elem? fs k ≡ some name
        → r ≤ k
        → get_elem? fs r ≡ o
        → holds_name name o ≡ true
    here_it_is k none e w x = absurd (missing (sym (get-none fs r k w x) ∙ e))
      where
        missing : none ≡ some name → ⊥
        missing h = absurd (cc)
    here_it_is k (some g) e w x =
        ap (λ f. eqb f name)
          (string_le_antisym g name (ascending fs r k g name s w x e)
            (sym (ap (at_option name) x) ∙ sym (at_least-option fs name r) ∙ top))
        ∙ eqb_refl name

    back : IsAmong name fs → holds_name name (get_elem? fs r) ≡ true
    back m =
        let (k, e) = IsAmong-get name fs m in
        here_it_is k (get_elem? fs r) e (no_lower k (reached k e)) refl
      where
        no_lower : (k : ℕ) → (k < r → ⊥) → r ≤ k
        no_lower k h = omega (arith, h)

-- The search is right on every sorted list, and its fuel is enough.
pub has_feature-IsSorted :
    (fs : List Bytes) (name : Bytes) → IsSorted fs → (has_feature fs name ≡ true) ↔ IsAmong name fs
has_feature-IsSorted fs name s =
    subst (λ b. (b ≡ true) ↔ IsAmong name fs) (sym (has_feature-holds fs name))
      (Found-holds_name fs name (search_loop (suc (length fs)) fs name 0 (length fs)) s (
        search_loop-Found (suc (length fs)) fs name 0 (length fs) s (omega arith) (omega arith)
          (λ k w. absurd (omega (arith, w)))
          (at_least-option fs name (length fs) ∙ ap (at_option name) (past_end fs) ∙ end)))
  where
    end : at_option name none ≡ true
    end = unfold at_option in refl

-- HasFeature, over the features that a validation stores, answers yes for exactly the features of the edition and
-- those that the payload names itself, without the empty name: the rounds that its binary search is given are
-- enough for any number of features.
pub has_feature-effective_features :
    (p : Payload) (name : Bytes)
    → (has_feature (effective_features p) name ≡ true) ↔ (
        (IsAmong name p.features × (name ≢ [])) ⊎ IsAmong name (default_edition_features p.edition))
has_feature-effective_features p name = (
  λ e. (effective_features_iff name p).0 (search.0 e),
  λ g. search.1 ((effective_features_iff name p).1 g),
)
  where
    sorted : IsSorted (effective_features p)
    sorted = unfold effective_features in sort_strings-IsSorted _

    search : (has_feature (effective_features p) name ≡ true) ↔ IsAmong name (effective_features p)
    search = has_feature-IsSorted (effective_features p) name sorted
