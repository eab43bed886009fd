-- ===== src/Features/Granted.antt =====
-- Which features a license grants.
use grantseal.Prelude.{
  if◌then◌else◌, Bool, true, false, ◌&&◌, ◌||◌, not, List, [], ◌∷◌, Bytes, eqb, eqb→eq, is_nil, ◌≡◌,
  ◌≢◌, ◌↔◌, ◌⊎◌, inl, inr, refl, sym, ap, ◌∙◌, arith, Bool-cases,
}
use grantseal.Prelude.Among.{IsAmong, any_iff}
use grantseal.Payload.{Payload}
use grantseal.Features.{
  default_edition_features, member, add_member, add_all, add_named, insert_sorted, sort_strings,
  effective_features,
}

member-insert_sorted :
    (t f : Bytes) (gs : List Bytes) → member t (insert_sorted f gs) ≡ (eqb f t || member t gs)
unfolding insert_sorted
member-insert_sorted t f [] = refl
member-insert_sorted t f (g ∷ gs) = ground (arith, member-insert_sorted t f gs)

member-sort_strings : (t : Bytes) (fs : List Bytes) → member t (sort_strings fs) ≡ member t fs
unfolding sort_strings
member-sort_strings t [] = refl
member-sort_strings t (f ∷ fs) =
    member-insert_sorted t f (sort_strings fs) ∙ ap (λ b. eqb f t || b) (member-sort_strings t fs)

absorbs : (x y : Bool) → (x ≡ true → y ≡ true) → y ≡ (x || y)
absorbs true y h = h refl
absorbs false y h = refl

member-add_member :
    (t f : Bytes) (set : List Bytes) → member t (add_member f set) ≡ (eqb f t || member t set)
unfolding add_member
member-add_member t f set = elim (Bool-cases (member f set)) [
  | inl known ↦ rw known (absorbs (eqb f t) (member t set) (λ e. rw⁻¹ (eqb→eq f t e) known))
  | inr new ↦ rw new refl
]

member-add_all :
    (t : Bytes) (fs set : List Bytes) → member t (add_all fs set) ≡ (member t fs || member t set)
unfolding add_all
member-add_all t [] set = refl
member-add_all t (f ∷ fs) set =
    member-add_all t fs (add_member f set)
    ∙ ap (λ b. member t fs || b) (member-add_member t f set)
    ∙ swap (member t fs) (eqb f t) (member t set)
  where
    swap : (x y z : Bool) → (x || (y || z)) ≡ ((y || x) || z)
    swap x y z = ground arith

member-add_named :
    (t : Bytes) (fs set : List Bytes)
    → member t (add_named fs set) ≡ ((not (is_nil t) && member t fs) || member t set)
unfolding add_named
member-add_named t [] set = ground arith
member-add_named t (f ∷ fs) set =
    member-add_named t fs (if is_nil f then set else add_member f set)
    ∙ ap (λ b. (not (is_nil t) && member t fs) || b) (step f)
    ∙ swap (not (is_nil t)) (member t fs) (eqb f t) (member t set)
  where
    step :
        (f : Bytes)
        → member t (if is_nil f then set else add_member f set)
          ≡ ((not (is_nil t) && eqb f t) || member t set)
    step [] = nil t
      where
        nil : (t : Bytes) → member t set ≡ ((not (is_nil t) && eqb [] t) || member t set)
        nil [] = refl
        nil (c ∷ t) = unfold eqb in refl
    step (c ∷ f) = member-add_member t (c ∷ f) set ∙ ap (λ b. b || member t set) (full t)
      where
        full : (t : Bytes) → eqb (c ∷ f) t ≡ (not (is_nil t) && eqb (c ∷ f) t)
        full [] = unfold eqb in refl
        full (d ∷ t) = refl

    swap : (n x y z : Bool) → ((n && x) || ((n && y) || z)) ≡ ((n && (y || x)) || z)
    swap n x y z = ground arith

member-effective_features :
    (t : Bytes) (p : Payload)
    → member t (effective_features p) ≡ (
        (not (is_nil t) && member t p.features)
        || (member t (default_edition_features p.edition) || false))
unfolding effective_features
member-effective_features t p =
    member-sort_strings t (add_named p.features (add_all (default_edition_features p.edition) []))
    ∙ member-add_named t p.features (add_all (default_edition_features p.edition) [])
    ∙ ap (λ b. (not (is_nil t) && member t p.features) || b)
        (member-add_all t (default_edition_features p.edition) [])

named : (t : Bytes) → (not (is_nil t) ≡ true) ↔ (t ≢ [])
named [] = (λ h. cc, λ h. absurd (h refl))
named (c ∷ t) = (λ h e. cc, λ h. refl)

-- A license grants exactly the features of its edition and those that it names itself, without the
-- empty name.
pub effective_features_iff :
    (t : Bytes) (p : Payload)
    → IsAmong t (effective_features p)
      ↔ ((IsAmong t p.features × (t ≢ [])) ⊎ IsAmong t (default_edition_features p.edition))
effective_features_iff t p = (
  λ a. forth ((any_iff t (effective_features p)).1 a),
  λ a. (any_iff t (effective_features p)).0 (back a),
)
  where
    split :
        (x y z : Bool)
        → (((x && y) || (z || false)) ≡ true) ↔ (((x ≡ true) × (y ≡ true)) ⊎ (z ≡ true))
    split x y z = (λ h. ground arith, λ h. ground arith)

    here :
        (((not (is_nil t) && member t p.features)
            || (member t (default_edition_features p.edition) || false))
          ≡ true)
        ↔ (((not (is_nil t) ≡ true) × (member t p.features ≡ true))
            ⊎ (member t (default_edition_features p.edition) ≡ true))
    here =
        split (not (is_nil t)) (member t p.features) (member t (default_edition_features p.edition))

    forth :
        member t (effective_features p) ≡ true
        → (IsAmong t p.features × (t ≢ [])) ⊎ IsAmong t (default_edition_features p.edition)
    forth h = elim (here.0 (sym (member-effective_features t p) ∙ h)) [
      | inl (n, m) ↦ inl ((any_iff t p.features).0 m, (named t).0 n)
      | inr d ↦ inr ((any_iff t (default_edition_features p.edition)).0 d)
    ]

    back :
        (IsAmong t p.features × (t ≢ [])) ⊎ IsAmong t (default_edition_features p.edition)
        → member t (effective_features p) ≡ true
    back (inl (m, n)) =
        member-effective_features t p ∙ here.1 (inl ((named t).1 n, (any_iff t p.features).1 m))
    back (inr d) =
        member-effective_features t p
        ∙ here.1 (inr ((any_iff t (default_edition_features p.edition)).1 d))
