-- ===== src/KeyRing/Tests.antt =====
-- Runs of the key ring.
use grantseal.Prelude.{◌≡◌, ◌↔◌, refl, some, codes, [], ◌∷◌, true, false, Bytes, eqb, eqb-ne}
use grantseal.Prelude.Maps.{lookup}
use grantseal.Prelude.Results.{ok}
use grantseal.KeyRing.{KeyEntry, KeyRing, lookup_public_key}
use grantseal.KeyRing.Policy.{lookup_public_key_iff}
use grantseal.KeyRing.Rotation.{add_all, rotation}

abbrev entry : Bytes → KeyEntry
entry id = record {
  key_id = id;
  public_key = codes "0123456789abcdef0123456789abcdef";
  enabled = true;
  revoked = false;
  not_before = some 10;
  not_after = some 20;
}

abbrev ring : KeyRing
ring = (codes "k-1", entry (codes "k-1")) ∷ []

lookup_public_key_iff_example :
    (lookup_public_key (codes "k-1") ring ≡ ok (entry (codes "k-1")))
    ↔ ((lookup (codes "k-1") ring ≡ some (entry (codes "k-1"))) × (false ≡ false) × (true ≡ true))
lookup_public_key_iff_example = lookup_public_key_iff (codes "k-1") ring (entry (codes "k-1"))

rotation_example :
    lookup_public_key (codes "k-1") (add_all (entry (codes "k-2") ∷ entry (codes "k-3") ∷ []) ring)
    ≡ lookup_public_key (codes "k-1") ring
unfolding eqb
rotation_example =
    rotation (entry (codes "k-2") ∷ entry (codes "k-3") ∷ []) ring (codes "k-1")
      (eqb-ne (codes "k-2") (codes "k-1") refl, (eqb-ne (codes "k-3") (codes "k-1") refl, tt))
