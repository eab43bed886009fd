-- ===== src/Json/Canonical/Alike.antt =====
-- The canonical encoding writes the same value: only the order of the members of objects changes, and no member
-- passes another one of its key.
use grantseal.Prelude.{if◌then◌else◌, Bool, true, false, Bytes, ◌≡◌, ◌≢◌, refl, ap}
use grantseal.Features.{string_le}
use grantseal.Features.Sorted.{string_le_refl}
use grantseal.Json.{Json, Items, Members, scalar, text, array, object, nil, cons, end, member}
use grantseal.Json.Canonical.{insert_member, sorted, sorted_items, sorted_members}

mutual
  pub data Alike : Json → Json → Type 0 where
    same : (v : Json) → Alike v v
    in_array : (xs ys : Items) → AlikeItems xs ys → Alike (array xs) (array ys)
    in_object : (ms ns : Members) → AlikeMembers ms ns → Alike (object ms) (object ns)

  pub data AlikeItems : Items → Items → Type 0 where
    no_item : AlikeItems nil nil
    item :
        (v w : Json) (xs ys : Items)
        → Alike v w
        → AlikeItems xs ys
        → AlikeItems (cons v xs) (cons w ys)

  pub data AlikeMembers : Members → Members → Type 0 where
    unmoved : (ms : Members) → AlikeMembers ms ms
    behind :
        (k : Bytes) (v w : Json) (ms ns : Members)
        → Alike v w
        → AlikeMembers ms ns
        → AlikeMembers (member k v ms) (member k w ns)
    swapped :
        (j k : Bytes) (v w : Json) (ms : Members)
        → j ≢ k
        → AlikeMembers (member j v (member k w ms)) (member k w (member j v ms))
    next : (ms ns os : Members) → AlikeMembers ms ns → AlikeMembers ns os → AlikeMembers ms os

apart : (k j : Bytes) → string_le k j ≡ false → k ≢ j
apart k j h e = cc (h, ap (λ i. string_le k i) e, string_le_refl k)

insert_member-Alike :
    (k : Bytes) (v : Json) (ms : Members) → AlikeMembers (member k v ms) (insert_member k v ms)
unfolding insert_member
insert_member-Alike k v end = unmoved (member k v end)
insert_member-Alike k v (member j w ms) =
    placed (string_le k j) (λ h. apart k j h) (insert_member-Alike k v ms)
  where
    placed :
        (b : Bool)
        → (b ≡ false → k ≢ j)
        → AlikeMembers (member k v ms) (insert_member k v ms)
        → AlikeMembers
            (member k v (member j w ms))
            (if b then member k v (member j w ms) else member j w (insert_member k v ms))
    placed true f a = unmoved (member k v (member j w ms))
    placed false f a =
        next (member k v (member j w ms)) (member j w (member k v ms))
          (member j w (insert_member k v ms)) (swapped k j v w ms (f refl))
          (behind j w w (member k v ms) (insert_member k v ms) (same w) a)

mutual
  unfolding sorted

  pub sorted-Alike : (v : Json) → Alike v (sorted v)
  sorted-Alike (scalar s) = same (scalar s)
  sorted-Alike (text s) = same (text s)
  sorted-Alike (array xs) = in_array xs (sorted_items xs) (items-Alike xs)
  sorted-Alike (object ms) = in_object ms (sorted_members ms) (members-Alike ms)

  items-Alike : (xs : Items) → AlikeItems xs (sorted_items xs)
  items-Alike nil = no_item
  items-Alike (cons v xs) = item v (sorted v) xs (sorted_items xs) (sorted-Alike v) (items-Alike xs)

  members-Alike : (ms : Members) → AlikeMembers ms (sorted_members ms)
  members-Alike end = unmoved end
  members-Alike (member k v ms) =
      next (member k v ms) (member k (sorted v) (sorted_members ms))
        (insert_member k (sorted v) (sorted_members ms))
        (behind k v (sorted v) ms (sorted_members ms) (sorted-Alike v) (members-Alike ms))
        (insert_member-Alike k (sorted v) (sorted_members ms))
