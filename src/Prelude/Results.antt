-- ===== src/Prelude/Results.antt =====
-- The results of code that returns `(value, error)`.
use mathlib.Core.Path.{◌≡◌, refl}
use mathlib.Core.Bool.{Bool, true, false}
use mathlib.Core.Logic.{◌⊎◌, inl, inr}

pub data Result {ℓ} (E : Type ℓ) (A : Type ℓ) : Type ℓ where
  ok : A → Result E A
  err : E → Result E A

infixl 5 ◌>>=◌ ◌>>◌
abbrev pub ◌>>=◌ {ℓ} : {E A B : Type ℓ} → Result E A → (A → Result E B) → Result E B
ok a >>= f = f a
err e >>= f = err e

abbrev pub ◌>>◌ {ℓ} : {E B : Type ℓ} → Result E (Unit {ℓ}) → Result E B → Result E B
m >> k = m >>= λ _. k

-- An early `return err` under a condition.
abbrev pub fail_if {ℓ} : {E : Type ℓ} → Bool → E → Result E (Unit {ℓ})
fail_if true e = err e
fail_if false e = ok tt

pub >>=-eq-ok {ℓ} :
    {E A B : Type ℓ} (r : Result E A) (next : A → Result E B) {out : B}
    → (r >>= next) ≡ ok out
    → (value : A) × (r ≡ ok value) × (next value ≡ ok out)
>>=-eq-ok (err failure) next eq = cc
>>=-eq-ok (ok value) next eq = (value, refl, eq)

pub >>-eq-ok {ℓ} :
    {E B : Type ℓ} (m : Result E (Unit {ℓ})) (k : Result E B) {b : B}
    → (m >> k) ≡ ok b
    → (m ≡ ok tt) × (k ≡ ok b)
>>-eq-ok (ok tt) k h = (refl, h)
>>-eq-ok (err e) k h = cc

pub fail_if-eq-ok {ℓ} : {E : Type ℓ} (b : Bool) (e : E) → fail_if b e ≡ ok tt → b ≡ false
fail_if-eq-ok true e h = cc
fail_if-eq-ok false e h = refl

pub of_ok {ℓ} : {E A : Type ℓ} {a b : A} → ◌≡◌ {A = Result E A} (ok a) (ok b) → a ≡ b
of_ok h = cc

pub Result-cases {ℓ} :
    {E A : Type ℓ} (r : Result E A) → ((a : A) × (r ≡ ok a)) ⊎ ((e : E) × (r ≡ err e))
Result-cases (ok a) = inl (a, refl)
Result-cases (err e) = inr (e, refl)

pub >>-intro {ℓ} :
    {E B : Type ℓ} {m : Result E (Unit {ℓ})} {k : Result E B} {r : Result E B}
    → m ≡ ok tt
    → k ≡ r
    → (m >> k) ≡ r
>>-intro h e = rw (h, e)
