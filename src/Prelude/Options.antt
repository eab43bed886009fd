-- ===== src/Prelude/Options.antt =====
-- Options as the results of fallible code: Go's `(v, ok)`, and `(v, err)` where the error is not read.
use mathlib.Core.Path.{◌≡◌, refl}
use mathlib.Core.Bool.{Bool, true, false}
use mathlib.Core.Option.{Option, none, some}
use grantseal.Prelude.Tests.{if◌then◌else◌}

infixl 5 ◌>>=◌ ◌>>◌
abbrev pub ◌>>=◌ {κ ℓ} : {X : Type κ} {Y : Type ℓ} → Option X → (X → Option Y) → Option Y
none >>= f = none
some a >>= f = f a

abbrev pub ◌>>◌ {ℓ} : {B : Type ℓ} → Option (Unit {0}) → Option B → Option B
m >> k = m >>= λ _. k

abbrev pub guard : Bool → Option (Unit {0})
guard true = some tt
guard false = none

pub >>=-eq-some {ℓ κ} :
    {A : Type ℓ} {B : Type κ} (m : Option A) (f : A → Option B) {b : B}
    → (m >>= f) ≡ some b
    → (a : A) × (m ≡ some a) × (f a ≡ some b)
>>=-eq-some (some a) f h = (a, refl, h)
>>=-eq-some none f h = cc

pub of_some {ℓ} : {A : Type ℓ} {a b : A} → some a ≡ some b → a ≡ b
of_some h = cc

-- A guarded result that is there passed its guard.
pub if-eq-some {ℓ} :
    {A : Type ℓ} (b : Bool) (m : Option A) {a : A}
    → (if b then m else none) ≡ some a
    → (b ≡ true) × (m ≡ some a)
if-eq-some true m h = (refl, h)
if-eq-some false m h = cc

pub unless-eq-some {ℓ} :
    {A : Type ℓ} (b : Bool) (m : Option A) {a : A}
    → (if b then none else m) ≡ some a
    → (b ≡ false) × (m ≡ some a)
unless-eq-some true m h = cc
unless-eq-some false m h = (refl, h)
