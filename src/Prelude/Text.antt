-- ===== src/Prelude/Text.antt =====
-- Go strings are sequences of bytes: `==`, and the functions of package strings that the program calls.
use Prim.Native.Nat.{ℕ}
use Prim.Native.Char.{code}
use Prim.Native.String.{String}
use mathlib.Core.Path.{ap, ◌≡◌, refl}
use mathlib.Core.Logic.{◌↔◌, ◌≢◌}
use mathlib.Core.Bool.{Bool, true, false, ◌&&◌}
use mathlib.Core.Option.{Option, none, some}
use mathlib.Core.List.{List, [], ◌∷◌, ◌++◌}
use native.Mathlib.Omega.{arith}
use grantseal.Prelude.Lists.{all}
use grantseal.Prelude.Tests.{&&-true, ◌==◌, if◌then◌else◌}

abbrev pub Bytes : Type 0
Bytes = List ℕ

-- The bytes of an ASCII literal.
abbrev pub codes : String → Bytes
codes String.[] = []
codes (String.◌∷◌ c s) = code c ∷ codes s

-- a == b
unfoldable pub eqb : Bytes → Bytes → Bool
eqb [] [] = true
eqb [] (y ∷ ys) = false
eqb (x ∷ xs) [] = false
eqb (x ∷ xs) (y ∷ ys) = (x == y) && eqb xs ys

pub eqb_refl : (s : Bytes) → eqb s s ≡ true
unfolding eqb
eqb_refl [] = refl
eqb_refl (x ∷ s) = ground (arith, eqb_refl s)

pub eqb→eq : (s t : Bytes) → eqb s t ≡ true → s ≡ t
unfolding eqb
eqb→eq [] [] h = refl
eqb→eq [] (y ∷ t) h = cc
eqb→eq (x ∷ s) [] h = cc
eqb→eq (x ∷ s) (y ∷ t) h = ground (arith, eqb→eq s t)

pub eqb_iff : (s t : Bytes) → (eqb s t ≡ true) ↔ (s ≡ t)
eqb_iff s t = (eqb→eq s t, λ e. rw e (eqb_refl t))

-- strings.Cut(s, sep) at a separator of one byte: the parts before and after the first one.
unfoldable pub cut : ℕ → Bytes → Option (Bytes × Bytes)
cut sep [] = none
cut sep (c ∷ s) =
    let rest : Option (Bytes × Bytes) = elim (cut sep s) [
      | none ↦ none
      | some (before, after) ↦ some (c ∷ before, after)
    ] in
    if c == sep then some ([], s) else rest

-- strings.CutPrefix(s, prefix)
unfoldable pub cut_prefix : Bytes → Bytes → Option Bytes
cut_prefix [] s = some s
cut_prefix (p ∷ ps) [] = none
cut_prefix (p ∷ ps) (c ∷ s) = if p == c then cut_prefix ps s else none

-- The first part of a split takes the byte `c` in front.
unfoldable pub onto_head : ℕ → List Bytes → List Bytes
onto_head c [] = (c ∷ []) ∷ []
onto_head c (p ∷ ps) = (c ∷ p) ∷ ps

-- strings.Split(s, sep) at a separator of one byte: always at least one part.
unfoldable pub split : ℕ → Bytes → List Bytes
unfolding onto_head
split sep [] = [] ∷ []
split sep (c ∷ s) = let rest = split sep s in if c == sep then [] ∷ rest else onto_head c rest

-- strings.Join(parts, sep)
unfoldable pub join : ℕ → List Bytes → Bytes
join sep [] = []
join sep (p ∷ []) = p
join sep (p ∷ q ∷ ps) = p ++ sep ∷ join sep (q ∷ ps)

abbrev pub Lacks : ℕ → Bytes → Type 0
Lacks b [] = Unit
Lacks b (c ∷ s) = (c ≢ b) × Lacks b s

pub cut-Lacks : (b : ℕ) (s : Bytes) → Lacks b s → cut b s ≡ none
unfolding cut
cut-Lacks b [] h = refl
cut-Lacks b (c ∷ s) (h, hs) = ground (arith, cut-Lacks b s hs)

pub cut-append : (b : ℕ) (p s : Bytes) → Lacks b p → cut b (p ++ b ∷ s) ≡ some (p, s)
unfolding cut
cut-append b [] s h = ground arith
cut-append b (c ∷ p) s (h, hs) = ground (arith, cut-append b p s hs)

pub split-Lacks : (b : ℕ) (s : Bytes) → Lacks b s → split b s ≡ s ∷ []
unfolding split
split-Lacks b [] h = refl
split-Lacks b (c ∷ s) (h, hs) = ground (arith, split-Lacks b s hs)

pub split-append : (b : ℕ) (p s : Bytes) → Lacks b p → split b (p ++ b ∷ s) ≡ p ∷ split b s
unfolding split
split-append b [] s h = ground arith
split-append b (c ∷ p) s (h, hs) = ground (arith, split-append b p s hs)

abbrev pub AllLack : ℕ → List Bytes → Type 0
AllLack b [] = Unit
AllLack b (p ∷ ps) = Lacks b p × AllLack b ps

-- Splitting a join gives the parts back, if there is a part and none holds the separator.
pub split-join : (b : ℕ) (ps : List Bytes) → ps ≢ [] → AllLack b ps → split b (join b ps) ≡ ps
unfolding join
split-join b [] h k = absurd (h refl)
split-join b (p ∷ []) h (k, ks) = split-Lacks b p k
split-join b (p ∷ q ∷ ps) h (k, ks) =
    rw (split-append b p (join b (q ∷ ps)) k, split-join b (q ∷ ps) (λ e. cc) ks)

pub Lacks-append : (b : ℕ) (s t : Bytes) → Lacks b s → Lacks b t → Lacks b (s ++ t)
Lacks-append b [] t h k = k
Lacks-append b (c ∷ s) t (h, hs) k = (h, Lacks-append b s t hs k)

-- A byte that fails a test is missing from a text whose bytes all pass it.
pub all-Lacks : (p : ℕ → Bool) (b : ℕ) (s : Bytes) → p b ≡ false → all p s ≡ true → Lacks b s
all-Lacks p b [] h k = tt
all-Lacks p b (c ∷ s) h k = (λ e. absurd (clash e), all-Lacks p b s h (&&-true (p c) (all p s) k).1)
  where
    clash : c ≡ b → ⊥
    clash e = cc (h, ap p e, (&&-true (p c) (all p s) k).0)

pub cut-eq-some : (b : ℕ) (s p q : Bytes) → cut b s ≡ some (p, q) → (s ≡ p ++ b ∷ q) × Lacks b p
unfolding cut
cut-eq-some b [] p q h = cc
cut-eq-some b (c ∷ s) [] q h = ground arith
cut-eq-some b (c ∷ s) (x ∷ p) q h = ground (arith, cut-eq-some b s p q)

pub cut_prefix-append : (p s : Bytes) → cut_prefix p (p ++ s) ≡ some s
unfolding cut_prefix
cut_prefix-append [] s = refl
cut_prefix-append (c ∷ p) s = ground (arith, cut_prefix-append p s)

pub cut_prefix-eq-some : (p s r : Bytes) → cut_prefix p s ≡ some r → s ≡ p ++ r
unfolding cut_prefix
cut_prefix-eq-some [] s r h = ground arith
cut_prefix-eq-some (c ∷ p) [] r h = cc
cut_prefix-eq-some (c ∷ p) (d ∷ s) r h = ground (arith, cut_prefix-eq-some p s r)

pub eqb-ne : (a b : Bytes) → eqb a b ≡ false → a ≢ b
eqb-ne a b h e = cc (h, (eqb_iff a b).1 e)
