-- ===== src/Json/Canonical/Stable.antt =====
-- The canonical encoding does not depend on the order in which a map or a struct gives its members.
use grantseal.Prelude.{if◌then◌else◌, Bool, true, false, not, Bytes, ◌≡◌, ◌≢◌, refl, ap, ◌∙◌}
use grantseal.Features.{string_le}
use grantseal.Features.Sorted.{string_le_total, string_le_trans, string_le_antisym}
use grantseal.Json.{Json, Items, Members, array, object, cons, end, member}
use grantseal.Json.Canonical.{
  insert_member, sorted, sorted_items, sorted_members, write, encode_canonical,
}
use grantseal.Json.Canonical.Alike.{
  sorted-Alike, Alike, AlikeItems, AlikeMembers, same, in_array, in_object, no_item, item, unmoved,
  behind, swapped, next,
}

one_way : (j k : Bytes) → j ≢ k → string_le j k ≡ not (string_le k j)
one_way j k n = decided (string_le j k) (string_le k j) refl refl
  where
    decided : (a b : Bool) → string_le j k ≡ a → string_le k j ≡ b → a ≡ not b
    decided true true g h = absurd (n (string_le_antisym j k g h))
    decided true false g h = refl
    decided false true g h = refl
    decided false false g h = cc (string_le_total j k g, h)

insert_member-swap :
    (j k : Bytes) (v w : Json) (ms : Members)
    → j ≢ k
    → insert_member j v (insert_member k w ms) ≡ insert_member k w (insert_member j v ms)
unfolding insert_member
insert_member-swap j k v w end n = at_end (string_le j k) (string_le k j) (one_way j k n)
  where
    at_end :
        (c d : Bool)
        → c ≡ not d
        → (if c then member j v (member k w end) else member k w (member j v end))
          ≡ (if d then member k w (member j v end) else member j v (member k w end))
    at_end true true e = absurd (cc)
    at_end true false e = refl
    at_end false true e = refl
    at_end false false e = absurd (cc)
insert_member-swap j k v w (member i u ms) n =
    inside (string_le j i) (string_le k i) refl refl (insert_member-swap j k v w ms n)
  where
    first : (c d : Bool) → c ≡ not d → (x y : Members) → (if c then x else y) ≡ (if d then y else x)
    first true true e x y = absurd (cc)
    first true false e x y = refl
    first false true e x y = refl
    first false false e x y = absurd (cc)

    inside :
        (a b : Bool)
        → string_le j i ≡ a
        → string_le k i ≡ b
        → insert_member j v (insert_member k w ms) ≡ insert_member k w (insert_member j v ms)
        → insert_member j v
            (if b then member k w (member i u ms) else member i u (insert_member k w ms))
          ≡ insert_member k w
              (if a then member j v (member i u ms) else member i u (insert_member j v ms))
    inside true true g h ih = rw (g, h) (first (string_le j k) (string_le k j) (one_way j k n) _ _)
    inside true false g h ih = rw (g, h, behind_j (string_le k j) refl) refl
      where
        behind_j : (d : Bool) → string_le k j ≡ d → string_le k j ≡ false
        behind_j false e = e
        behind_j true e = absurd (cc (string_le_trans k j i e g, h))
    inside false true g h ih = rw (g, h, behind_k (string_le j k) refl) refl
      where
        behind_k : (d : Bool) → string_le j k ≡ d → string_le j k ≡ false
        behind_k false e = e
        behind_k true e = absurd (cc (string_le_trans j k i e h, g))
    inside false false g h ih = rw (g, h) (ap (λ l. member i u l) ih)

mutual
  unfolding sorted

  sorted-same : (v w : Json) → Alike v w → sorted v ≡ sorted w
  sorted-same v w (same u) = refl
  sorted-same v w (in_array xs ys a) = ap array (items-same xs ys a)
  sorted-same v w (in_object ms ns a) = ap object (members-same ms ns a)

  items-same : (xs ys : Items) → AlikeItems xs ys → sorted_items xs ≡ sorted_items ys
  items-same xs ys no_item = refl
  items-same xs ys (item v w ps qs a b) =
      ap (λ u. cons u (sorted_items ps)) (sorted-same v w a)
      ∙ ap (λ l. cons (sorted w) l) (items-same ps qs b)

  members-same : (ms ns : Members) → AlikeMembers ms ns → sorted_members ms ≡ sorted_members ns
  members-same ms ns (unmoved os) = refl
  members-same ms ns (behind k v w ps qs a b) =
      ap (λ u. insert_member k u (sorted_members ps)) (sorted-same v w a)
      ∙ ap (λ l. insert_member k (sorted w) l) (members-same ps qs b)
  members-same ms ns (swapped j k v w os n) =
      insert_member-swap j k (sorted v) (sorted w) (sorted_members os) n
  members-same ms ns (next ps qs rs a b) = members-same ps qs a ∙ members-same qs rs b

-- Two values that differ only in the order of the members of objects, at any depth, where no member passes
-- another one of its key, have the same canonical encoding, and that encoding writes a value which
-- differs from them in the same way only.
pub encode_canonical_stable :
    (quote : Bytes → Bytes) (v w : Json)
    → Alike v w
    → (encode_canonical quote v ≡ encode_canonical quote w)
      × ((u : Json) × Alike v u × (encode_canonical quote v ≡ write quote u))
unfolding encode_canonical
encode_canonical_stable quote v w a =
    (ap (write quote) (sorted-same v w a), (sorted v, sorted-Alike v, refl))
