-- ===== src/KeyRing/Policy.antt =====
-- Which keys a ring resolves, and when their signatures count.
use grantseal.Prelude.{◌≤◌, true, false, Option, none, some, Bytes, ◌≡◌, ◌↔◌, refl, arith}
use grantseal.Prelude.Maps.{lookup}
use grantseal.Prelude.Results.{ok, ◌>>=◌}
use grantseal.Time.{Time}
use grantseal.KeyRing.{
  KeyEntry, KeyRing, resolve, lookup_public_key, check_key_policy, in_window, lookup_at,
  starts_later, ended_before,
}

-- An instant is in the window of a key; an end that is not set does not bound it.
abbrev pub IsFrom : Option Time → Time → Type 0
IsFrom none t = Unit
IsFrom (some start) t = start ≤ t

abbrev pub IsUntil : Option Time → Time → Type 0
IsUntil none t = Unit
IsUntil (some end) t = t ≤ end

starts_later_iff : (o : Option Time) (t : Time) → (starts_later o t ≡ false) ↔ IsFrom o t
starts_later_iff none t = (λ h. tt, λ u. refl)
starts_later_iff (some s) t = (λ h. ground arith, λ h. ground arith)

ended_before_iff : (o : Option Time) (t : Time) → (ended_before o t ≡ false) ↔ IsUntil o t
ended_before_iff none t = (λ h. tt, λ u. refl)
ended_before_iff (some s) t = (λ h. ground arith, λ h. ground arith)

-- A key may have signed at an instant exactly when it is not revoked, is enabled, and the instant is in
-- its window, both ends included.
pub check_key_policy_iff :
    (e : KeyEntry) (t : Time)
    → (check_key_policy e t ≡ ok tt)
      ↔ ((e.revoked ≡ false) × (e.enabled ≡ true) × IsFrom e.not_before t × IsUntil e.not_after t)
unfolding check_key_policy
check_key_policy_iff e t = (
  λ h. ground (arith, starts_later_iff e.not_before t, ended_before_iff e.not_after t),
  λ h. ground (arith, starts_later_iff e.not_before t, ended_before_iff e.not_after t),
)

-- The deprecated Lookup is LookupPublicKey followed by CheckKeyPolicy at the present time: same entry, same
-- error code.
pub lookup_at-policy :
    (key_id : Bytes) (now : Time) (r : KeyRing)
    → lookup_at key_id now r
      ≡ (lookup_public_key key_id r >>= λ e. check_key_policy e now >>= λ u. ok e)
unfolding lookup_at lookup_public_key
lookup_at-policy key_id now r = go (lookup key_id r)
  where
    go :
        (o : Option KeyEntry)
        → (resolve o >>= in_window now) ≡ (resolve o >>= λ e. check_key_policy e now >>= λ u. ok e)
    go none = unfold resolve in refl
    go (some e) = unfold resolve in_window check_key_policy in ground arith

-- A key that resolves is the entry stored under its id, and passes the kill switches.
pub lookup_public_key_iff :
    (key_id : Bytes) (r : KeyRing) (e : KeyEntry)
    → (lookup_public_key key_id r ≡ ok e)
      ↔ ((lookup key_id r ≡ some e) × (e.revoked ≡ false) × (e.enabled ≡ true))
unfolding lookup_public_key
lookup_public_key_iff key_id r e = go (lookup key_id r)
  where
    go :
        (o : Option KeyEntry)
        → (resolve o ≡ ok e) ↔ ((o ≡ some e) × (e.revoked ≡ false) × (e.enabled ≡ true))
    go none = unfold resolve in (λ h. cc, λ h. cc)
    go (some d) = unfold resolve in (λ h. ground arith, λ h. ground arith)
