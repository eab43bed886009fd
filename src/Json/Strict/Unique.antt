-- ===== src/Json/Strict/Unique.antt =====
-- The scan accepts exactly the values in which no object has a key twice.
use grantseal.Prelude.{
  ℕ, zero, suc, ◌≤◌, ◌<◌, if◌then◌else◌, Bool, true, false, ◌&&◌, not, List, [], ◌∷◌, ◌++◌, Bytes,
  eqb, any, length, length-append, append_assoc, ◌≡◌, ◌↔◌, refl, ap, ◌∙◌, sym, subst, arith,
}
use grantseal.Prelude.Results.{Result, ok, err, ◌>>=◌}
use grantseal.Code.{Code, malformed}
use grantseal.Json.{Json, Items, Members, scalar, text, array, object, nil, cons, end, member}
use grantseal.Json.Strict.{
  Token, open_object, close_object, open_array, close_array, string_token, scalar_token,
  walk_no_dup_keys, walk_object, walk_array, check_end, reject_duplicate_keys,
}

-- The tokens of a value.
unfoldable mutual
  pub tokens : Json → List Token
  tokens (scalar s) = scalar_token s ∷ []
  tokens (text s) = string_token s ∷ []
  tokens (array xs) = open_array ∷ (item_tokens xs ++ (close_array ∷ []))
  tokens (object ms) = open_object ∷ (member_tokens ms ++ (close_object ∷ []))

  pub item_tokens : Items → List Token
  item_tokens nil = []
  item_tokens (cons v xs) = tokens v ++ item_tokens xs

  pub member_tokens : Members → List Token
  member_tokens end = []
  member_tokens (member k v ms) = string_token k ∷ (tokens v ++ member_tokens ms)

-- No object of the value, at any depth, has a key twice.
unfoldable mutual
  pub unique : Json → Bool
  unique (scalar s) = true
  unique (text s) = true
  unique (array xs) = unique_items xs
  unique (object ms) = unique_members [] ms

  pub unique_items : Items → Bool
  unique_items nil = true
  unique_items (cons v xs) = unique v && unique_items xs

  pub unique_members : List Bytes → Members → Bool
  unique_members seen end = true
  unique_members seen (member k v ms) =
      not (any (λ j. eqb j k) seen) && (unique v && unique_members (k ∷ seen) ms)

abbrev verdict : Bool → List Token → Result Code (List Token)
verdict b rest = if b then ok rest else err malformed

-- The verdict on a value, and then on what follows it.
then_verdict :
    (a b : Bool) (mid rest : List Token) (r : Result Code (List Token))
    (f : List Token → Result Code (List Token))
    → r ≡ verdict a mid
    → f mid ≡ verdict b rest
    → (r >>= f) ≡ verdict (a && b) rest
then_verdict true b mid rest r f e g = rw e g
then_verdict false b mid rest r f e g = rw e refl

after_key :
    (seen_before a b : Bool) (mid rest : List Token) (r : Result Code (List Token))
    (f : List Token → Result Code (List Token))
    → r ≡ verdict a mid
    → f mid ≡ verdict b rest
    → (if seen_before then err malformed else (r >>= f))
      ≡ verdict (not seen_before && (a && b)) rest
after_key true a b mid rest r f e g = refl
after_key false a b mid rest r f e g = then_verdict a b mid rest r f e g

tokens_some : (v : Json) → 0 < length (tokens v)
unfolding tokens
tokens_some (scalar s) = omega arith
tokens_some (text s) = omega arith
tokens_some (array xs) = omega arith
tokens_some (object ms) = omega arith

walk_array-step :
    (fuel : ℕ) (v : Json) (rest : List Token)
    → walk_array (suc fuel) (tokens v ++ rest)
      ≡ (walk_no_dup_keys fuel (tokens v ++ rest) >>= walk_array fuel)
unfolding walk_array tokens
walk_array-step fuel (scalar s) rest = refl
walk_array-step fuel (text s) rest = refl
walk_array-step fuel (array xs) rest = refl
walk_array-step fuel (object ms) rest = refl

mutual
  unfolding tokens unique walk_no_dup_keys

  walk_value-tokens :
      (v : Json) (fuel : ℕ) (rest : List Token)
      → length (tokens v) ≤ fuel
      → walk_no_dup_keys fuel (tokens v ++ rest) ≡ verdict (unique v) rest
  walk_value-tokens (scalar s) zero rest w = absurd (omega (arith, w))
  walk_value-tokens (scalar s) (suc fuel) rest w = refl
  walk_value-tokens (text s) zero rest w = absurd (omega (arith, w))
  walk_value-tokens (text s) (suc fuel) rest w = refl
  walk_value-tokens (array xs) zero rest w = absurd (omega (arith, w))
  walk_value-tokens (array xs) (suc fuel) rest w =
      ap (walk_array fuel) (append_assoc (item_tokens xs) (close_array ∷ []) rest)
      ∙ walk_array-tokens xs fuel rest
          (omega (arith, w, length-append (item_tokens xs) (close_array ∷ [])))
  walk_value-tokens (object ms) zero rest w = absurd (omega (arith, w))
  walk_value-tokens (object ms) (suc fuel) rest w =
      ap (walk_object fuel []) (append_assoc (member_tokens ms) (close_object ∷ []) rest)
      ∙ walk_object-tokens ms fuel [] rest
          (omega (arith, w, length-append (member_tokens ms) (close_object ∷ [])))

  walk_array-tokens :
      (xs : Items) (fuel : ℕ) (rest : List Token)
      → length (item_tokens xs) < fuel
      → walk_array fuel (item_tokens xs ++ (close_array ∷ rest)) ≡ verdict (unique_items xs) rest
  walk_array-tokens xs zero rest w = absurd (omega (arith, w))
  walk_array-tokens nil (suc fuel) rest w = refl
  walk_array-tokens (cons v xs) (suc fuel) rest w =
      ap (walk_array (suc fuel)) (append_assoc (tokens v) (item_tokens xs) (close_array ∷ rest))
      ∙ walk_array-step fuel v (item_tokens xs ++ (close_array ∷ rest))
      ∙ then_verdict (unique v) (unique_items xs) (item_tokens xs ++ (close_array ∷ rest)) rest
          (walk_no_dup_keys fuel (tokens v ++ (item_tokens xs ++ (close_array ∷ rest))))
          (walk_array fuel)
          (walk_value-tokens v fuel (item_tokens xs ++ (close_array ∷ rest))
            (omega (arith, w, length-append (tokens v) (item_tokens xs))))
          (walk_array-tokens xs fuel rest
            (omega (arith, w, tokens_some v, length-append (tokens v) (item_tokens xs))))

  walk_object-tokens :
      (ms : Members) (fuel : ℕ) (seen : List Bytes) (rest : List Token)
      → length (member_tokens ms) < fuel
      → walk_object fuel seen (member_tokens ms ++ (close_object ∷ rest))
        ≡ verdict (unique_members seen ms) rest
  walk_object-tokens ms zero seen rest w = absurd (omega (arith, w))
  walk_object-tokens end (suc fuel) seen rest w = refl
  walk_object-tokens (member k v ms) (suc fuel) seen rest w =
      ap (λ ts. walk_object (suc fuel) seen (string_token k ∷ ts))
        (append_assoc (tokens v) (member_tokens ms) (close_object ∷ rest))
      ∙ after_key (any (λ j. eqb j k) seen) (unique v) (unique_members (k ∷ seen) ms)
          (member_tokens ms ++ (close_object ∷ rest)) rest
          (walk_no_dup_keys fuel (tokens v ++ (member_tokens ms ++ (close_object ∷ rest))))
          (walk_object fuel (k ∷ seen))
          (walk_value-tokens v fuel (member_tokens ms ++ (close_object ∷ rest))
            (omega (arith, w, length-append (tokens v) (member_tokens ms))))
          (walk_object-tokens ms fuel (k ∷ seen) rest
            (omega (arith, w, length-append (tokens v) (member_tokens ms))))

end_verdict :
    (b at_end : Bool) (rest : List Token)
    → ((verdict b rest >>= check_end at_end) ≡ ok tt) ↔ ((b ≡ true) × (at_end ≡ true) × (rest ≡ []))
unfolding check_end
end_verdict true true [] = (λ _. (refl, refl, refl), λ _. refl)
end_verdict true false [] = (λ e. absurd (cc), λ (p, q, r). absurd (cc q))
end_verdict true at_end (t ∷ ts) = (λ e. absurd (cc), λ (p, q, r). absurd (cc r))
end_verdict false at_end rest = (λ e. absurd (cc), λ (p, q, r). absurd (cc p))

-- The tokens of a value, followed by any others, are accepted exactly if no object in the value has a key twice at
-- any depth, no token follows, and the input ends there without an error. The fuel of the scan is enough for
-- every value.
pub reject_duplicate_keys_iff :
    (v : Json) (rest : List Token) (at_end : Bool)
    → (reject_duplicate_keys (record { tokens = tokens v ++ rest; at_end = at_end }) ≡ ok tt)
      ↔ ((unique v ≡ true) × (at_end ≡ true) × (rest ≡ []))
unfolding reject_duplicate_keys
reject_duplicate_keys_iff v rest at_end =
    subst
      (λ r.
        ((r >>= check_end at_end) ≡ ok tt) ↔ ((unique v ≡ true) × (at_end ≡ true) × (rest ≡ [])))
      (sym (
        walk_value-tokens v (suc (suc (length (tokens v ++ rest)))) rest
          (omega (arith, length-append (tokens v) rest))))
      (end_verdict (unique v) at_end rest)
