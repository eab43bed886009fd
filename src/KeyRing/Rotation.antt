-- ===== src/KeyRing/Rotation.antt =====
-- Adding keys: what it does to the keys already in the ring.
use grantseal.Prelude.{
  if◌then◌else◌, Bool, true, false, some, List, [], ◌∷◌, length, Bytes, is_nil, All, eqb_iff, ◌≡◌,
  ◌≢◌, ◌↔◌, refl, ap, ◌∙◌, arith, eqb,
}
use grantseal.Prelude.Maps.{lookup, insert, lookup-insert}
use grantseal.Prelude.Results.{ok, err}
use grantseal.Code.{malformed}
use grantseal.KeyRing.{KeyEntry, KeyRing, add, lookup_public_key, resolve, public_key_size}

-- Entries added one after another, whatever the answers.
unfoldable pub add_all : List KeyEntry → KeyRing → KeyRing
add_all [] r = r
add_all (e ∷ es) r = add_all es (add e r).0

nil_iff : (b : Bytes) → (is_nil b ≡ true) ↔ (b ≡ [])
nil_iff [] = (λ h. refl, λ h. refl)
nil_iff (c ∷ cs) = (λ h. cc, λ h. cc)

add-ok_iff :
    (e : KeyEntry) (r : KeyRing)
    → ((add e r).1 ≡ ok tt) ↔ ((e.key_id ≢ []) × (length e.public_key ≡ public_key_size))
unfolding add
add-ok_iff e r = (λ h. ground (arith, nil_iff e.key_id), λ h. ground (arith, nil_iff e.key_id))

add-refused : (e : KeyEntry) (r : KeyRing) → (add e r).1 ≢ ok tt → add e r ≡ (r, err malformed)
unfolding add
add-refused e r h = ground arith

add-stored : (e : KeyEntry) (r : KeyRing) → (add e r).1 ≡ ok tt → (add e r).0 ≡ insert e.key_id e r
unfolding add
add-stored e r h = ground arith

-- Whether the entry is accepted or not, the keys under other ids resolve as before.
add_other :
    (e : KeyEntry) (r : KeyRing) (j : Bytes)
    → e.key_id ≢ j
    → lookup_public_key j (add e r).0 ≡ lookup_public_key j r
unfolding add lookup_public_key
add_other e r j h = ground (arith, eqb_iff e.key_id j, lookup-insert e.key_id j e r)

-- Add answers malformed for an empty id or a key that is not 32 bytes, and then changes nothing; or else the
-- id resolves to the new entry from then on, and every other id as before.
pub add_lem :
    (e : KeyEntry) (r : KeyRing) (j : Bytes)
    → (((add e r).1 ≡ ok tt) ↔ ((e.key_id ≢ []) × (length e.public_key ≡ public_key_size)))
      × ((add e r).1 ≢ ok tt → add e r ≡ (r, err malformed))
      × ((add e r).1 ≡ ok tt
          → lookup_public_key j (add e r).0
            ≡ (if eqb e.key_id j then resolve (some e) else lookup_public_key j r))
unfolding lookup_public_key
add_lem e r j = (
  add-ok_iff e r,
  add-refused e r,
  λ h.
      ap (λ s. resolve (lookup j s)) (add-stored e r h)
      ∙ ap resolve (lookup-insert e.key_id j e r)
      ∙ branch (eqb e.key_id j),
)
  where
    branch :
        (b : Bool)
        → resolve (if b then some e else lookup j r)
          ≡ (if b then resolve (some e) else resolve (lookup j r))
    branch true = refl
    branch false = refl

-- Rotation keeps old keys: entries added under other ids, in any number, leave what a key id resolves to
-- as it was.
pub rotation :
    (es : List KeyEntry) (r : KeyRing) (j : Bytes)
    → All (λ e. e.key_id ≢ j) es
    → lookup_public_key j (add_all es r) ≡ lookup_public_key j r
unfolding add_all
rotation [] r j h = refl
rotation (e ∷ es) r j (h, hs) = rotation es (add e r).0 j hs ∙ add_other e r j h
