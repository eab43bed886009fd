-- ===== src/Json/Canonical.antt =====
-- pkg/license/canonical.go: the encoding that is signed. A value is written with the keys of every object in
-- order, without space; `quote` is marshalStringNoHTMLEscape, which encoding/json does.
pub mod Alike
pub mod Stable
mod Tests
use grantseal.Prelude.{if◌then◌else◌, [], ◌∷◌, ◌++◌, Bytes}
use grantseal.Features.{string_le}
use grantseal.Json.{Json, Items, Members, scalar, text, array, object, nil, cons, end, member}

-- sort.Strings over the keys of an object, with their values
unfoldable pub insert_member : Bytes → Json → Members → Members
insert_member k v end = member k v end
insert_member k v (member j w ms) =
    let rest = insert_member k v ms in
    if string_le k j then member k v (member j w ms) else member j w rest

unfoldable mutual
  pub sorted : Json → Json
  sorted (scalar s) = scalar s
  sorted (text s) = text s
  sorted (array xs) = array (sorted_items xs)
  sorted (object ms) = object (sorted_members ms)

  pub sorted_items : Items → Items
  sorted_items nil = nil
  sorted_items (cons v xs) = cons (sorted v) (sorted_items xs)

  pub sorted_members : Members → Members
  sorted_members end = end
  sorted_members (member k v ms) = insert_member k (sorted v) (sorted_members ms)

-- encodeCanonical and encodeScalar, with the keys as they stand
unfoldable mutual
  pub write : (Bytes → Bytes) → Json → Bytes
  write quote (scalar s) = s
  write quote (text s) = quote s
  write quote (array xs) = 91 ∷ (write_items quote xs ++ (93 ∷ []))
  write quote (object ms) = 123 ∷ (write_members quote ms ++ (125 ∷ []))

  pub write_items : (Bytes → Bytes) → Items → Bytes
  write_items quote nil = []
  write_items quote (cons v nil) = write quote v
  write_items quote (cons v (cons w xs)) = write quote v ++ (44 ∷ write_items quote (cons w xs))

  pub write_members : (Bytes → Bytes) → Members → Bytes
  write_members quote end = []
  write_members quote (member k v end) = quote k ++ (58 ∷ write quote v)
  write_members quote (member k v (member j w ms)) =
      quote k ++ (58 ∷ (write quote v ++ (44 ∷ write_members quote (member j w ms))))

-- encodeCanonical
unfoldable pub encode_canonical : (Bytes → Bytes) → Json → Bytes
encode_canonical quote v = write quote (sorted v)
