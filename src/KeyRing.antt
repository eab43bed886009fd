-- ===== src/KeyRing.antt =====
-- The ring of public keys of pkg/license/keyring.go. The copies of cloneKeyEntry are values here; the
-- lock makes each method one step.
pub mod Policy
pub mod Rotation
mod Tests
use grantseal.Prelude.{
  ℕ, ◌==◌, if◌then◌else◌, Bool, true, false, ◌&&◌, not, Option, none, some, List, [], ◌∷◌, length,
  map, Bytes, is_nil,
}
use grantseal.Prelude.Maps.{Map, lookup, insert}
use grantseal.Prelude.Results.{Result, ok, err, ◌>>◌, ◌>>=◌, fail_if}
use grantseal.Code.{Code, malformed, key_unknown, key_revoked, key_disabled}
use grantseal.Time.{Time, after, before}
use grantseal.Features.{sort_strings}

pub record KeyEntry : Type 0 where
  pub key_id : Bytes
  pub public_key : Bytes
  pub enabled : Bool
  pub revoked : Bool
  pub not_before : Option Time
  pub not_after : Option Time

abbrev pub KeyRing : Type 0
KeyRing = Map KeyEntry

-- NewKeyRing
abbrev pub new_key_ring : KeyRing
new_key_ring = []

-- ed25519.PublicKeySize
abbrev pub public_key_size : ℕ
public_key_size = 32

-- Add
unfoldable pub add : KeyEntry → KeyRing → KeyRing × Result Code (Unit {0})
add e r =
    if is_nil e.key_id
    then (r, err malformed)
    else if not (length e.public_key == public_key_size)
    then (r, err malformed)
    else (insert e.key_id e r, ok tt)

-- AddPublicKey
unfoldable pub add_public_key : Bytes → Bytes → KeyRing → KeyRing × Result Code (Unit {0})
add_public_key key_id public r =
    add
      record {
        key_id = key_id;
        public_key = public;
        enabled = true;
        revoked = false;
        not_before = none;
        not_after = none;
      }
      r

-- AddPublicKeyBase64, where `decode` is base64.URLEncoding.DecodeString
unfoldable add_public_key_base64 :
    (Bytes → Option Bytes) → Bytes → Bytes → KeyRing → KeyRing × Result Code (Unit {0})
add_public_key_base64 decode key_id encoded r = elim (decode encoded) [
  | none ↦ (r, err malformed)
  | some public ↦ add_public_key key_id public r
]

-- LookupPublicKey once the entry was looked up
unfoldable pub resolve : Option KeyEntry → Result Code KeyEntry
resolve none = err key_unknown
resolve (some e) =
    if e.revoked then err key_revoked else if not e.enabled then err key_disabled else ok e

-- LookupPublicKey
unfoldable pub lookup_public_key : Bytes → KeyRing → Result Code KeyEntry
lookup_public_key key_id r = resolve (lookup key_id r)

-- e.NotBefore != nil && t.Before(*e.NotBefore), and likewise NotAfter
abbrev pub starts_later : Option Time → Time → Bool
starts_later none t = false
starts_later (some start) t = before t start

abbrev pub ended_before : Option Time → Time → Bool
ended_before none t = false
ended_before (some end) t = after t end

-- CheckKeyPolicy
unfoldable pub check_key_policy : KeyEntry → Time → Result Code (Unit {0})
check_key_policy e issued_at =
    if e.revoked
    then err key_revoked
    else if not e.enabled
    then err key_disabled
    else if starts_later e.not_before issued_at
    then err key_disabled
    else if ended_before e.not_after issued_at
    then err key_disabled
    else ok tt

-- The window of Lookup, at the present time
unfoldable pub in_window : Time → KeyEntry → Result Code KeyEntry
in_window now e =
    if starts_later e.not_before now
    then err key_disabled
    else if ended_before e.not_after now
    then err key_disabled
    else ok e

-- Lookup
unfoldable pub lookup_at : Bytes → Time → KeyRing → Result Code KeyEntry
lookup_at key_id now r = lookup_public_key key_id r >>= in_window now

-- KeyIDs
unfoldable pub key_ids : KeyRing → List Bytes
key_ids r = sort_strings (map (λ (k, e). k) r)
