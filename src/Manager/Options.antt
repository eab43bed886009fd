-- ===== src/Manager/Options.antt =====
-- pkg/license/manager.go: the construction of a manager from its options. The clock is not part of the
-- manager's state, so that WithClock has no counterpart.
use grantseal.Prelude.{
  if◌then◌else◌, Bool, true, false, Option, none, some, List, [], ◌∷◌, Bytes, is_nil, ℤ, pos, ltb_ℤ,
  ◌≡◌, inl, inr, refl, sym, subst, Bool-cases,
}
use grantseal.Time.{default_clock_skew}
use grantseal.KeyRing.{KeyRing}
use grantseal.AtomicFile.{File}
use grantseal.Rollback.{RollbackStore}
use grantseal.Manager.{Manager}

data ManagerOption : Type 0 where
  with_rollback_store : Option RollbackStore → ManagerOption
  with_revocation : Option (Bytes → Bool) → ManagerOption
  with_clock_skew : ℤ → ManagerOption
  with_unscoped_product_validation : ManagerOption

-- The functions that the options return
unfoldable apply_option : ManagerOption → Manager → Manager
apply_option (with_rollback_store none) m = m
apply_option (with_rollback_store (some s)) m = record m { rollback = some s }
apply_option (with_revocation none) m = m
apply_option (with_revocation (some r)) m = record m { revocation = some r }
apply_option (with_clock_skew d) m = if ltb_ℤ (pos 0) d then record m { skew = d } else m
apply_option with_unscoped_product_validation m = record m { unscoped_product = true }

unfoldable apply_options : List ManagerOption → Manager → Manager
apply_options [] m = m
apply_options (o ∷ os) m = apply_options os (apply_option o m)

unfoldable parsed_skew : Option ℤ → ℤ
parsed_skew none = pos default_clock_skew
parsed_skew (some d) = if ltb_ℤ (pos 0) d then d else pos default_clock_skew

-- clockSkewDefault, where `parse_duration` is time.ParseDuration and the variable is empty where it is not set
unfoldable clock_skew_default : (Bytes → Option ℤ) → Bytes → ℤ
clock_skew_default parse_duration v =
    if is_nil v then pos default_clock_skew else parsed_skew (parse_duration v)

-- NewManager, with the value of the environment variable and the content of the rollback file
unfoldable new_manager : (Bytes → Option ℤ) → Bytes → KeyRing → List ManagerOption → File → Manager
new_manager parse_duration v ring opts file = apply_options opts (record {
  ring = ring;
  rollback = none;
  revocation = none;
  skew = clock_skew_default parse_duration v;
  unscoped_product = false;
  cached = none;
  rollback_file = file;
})

-- A tolerated skew that the validator takes as it is.
IsPositive : ℤ → Type 0
IsPositive d = ltb_ℤ (pos 0) d ≡ true

kept_if_IsPositive : (d e : ℤ) → IsPositive e → IsPositive (if ltb_ℤ (pos 0) d then d else e)
unfolding IsPositive
kept_if_IsPositive d e h = elim (Bool-cases (ltb_ℤ (pos 0) d)) [ inl p ↦ rw p p | inr n ↦ rw n h ]

parsed_skew-IsPositive : (d : Option ℤ) → IsPositive (parsed_skew d)
unfolding IsPositive parsed_skew
parsed_skew-IsPositive none = refl
parsed_skew-IsPositive (some d) = kept_if_IsPositive d (pos default_clock_skew) refl

default-IsPositive :
    (b : Bool) (d : ℤ) → IsPositive d → IsPositive (if b then pos default_clock_skew else d)
unfolding IsPositive
default-IsPositive true d h = refl
default-IsPositive false d h = h

skew_if :
    (b : Bool) (d : ℤ) (m : Manager)
    → (if b then record m { skew = d } else m).skew ≡ (if b then d else m.skew)
skew_if true d m = refl
skew_if false d m = refl

apply_option-IsPositive :
    (o : ManagerOption) (m : Manager) → IsPositive m.skew → IsPositive (apply_option o m).skew
unfolding apply_option
apply_option-IsPositive (with_rollback_store none) m h = h
apply_option-IsPositive (with_rollback_store (some s)) m h = h
apply_option-IsPositive (with_revocation none) m h = h
apply_option-IsPositive (with_revocation (some r)) m h = h
apply_option-IsPositive (with_clock_skew d) m h =
    subst IsPositive (sym (skew_if (ltb_ℤ (pos 0) d) d m)) (kept_if_IsPositive d m.skew h)
apply_option-IsPositive with_unscoped_product_validation m h = h

apply_options-IsPositive :
    (os : List ManagerOption) (m : Manager)
    → IsPositive m.skew
    → IsPositive (apply_options os m).skew
unfolding apply_options
apply_options-IsPositive [] m h = h
apply_options-IsPositive (o ∷ os) m h =
    apply_options-IsPositive os (apply_option o m) (apply_option-IsPositive o m h)

-- A new manager has a positive skew, whatever the environment variable and the options are.
new_manager-IsPositive :
    (parse_duration : Bytes → Option ℤ) (v : Bytes) (ring : KeyRing) (opts : List ManagerOption)
    (file : File)
    → IsPositive (new_manager parse_duration v ring opts file).skew
unfolding new_manager clock_skew_default
new_manager-IsPositive parse_duration v ring opts file =
    apply_options-IsPositive opts
      (record {
        ring = ring;
        rollback = none;
        revocation = none;
        skew = clock_skew_default parse_duration v;
        unscoped_product = false;
        cached = none;
        rollback_file = file;
      })
      (default-IsPositive (is_nil v) (parsed_skew (parse_duration v))
        (parsed_skew-IsPositive (parse_duration v)))
