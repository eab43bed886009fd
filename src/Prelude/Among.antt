-- ===== src/Prelude/Among.antt =====
-- Membership of a text in a list of texts, and the loop that looks for it.
use mathlib.Core.Path.{◌≡◌}
use mathlib.Core.Logic.{◌↔◌, inl, inr}
use mathlib.Core.Bool.{true}
use mathlib.Core.List.{List, [], ◌∷◌}
use native.Mathlib.Omega.{arith}
use grantseal.Prelude.Tests.{Bool-cases}
use grantseal.Prelude.Lists.{any}
use grantseal.Prelude.Text.{Bytes, eqb, eqb→eq, eqb_iff}

pub data IsAmong (t : Bytes) : List Bytes → Type 0 where
  here : {u : Bytes} {rest : List Bytes} → u ≡ t → IsAmong t (u ∷ rest)
  there : {u : Bytes} {rest : List Bytes} → IsAmong t rest → IsAmong t (u ∷ rest)

pub any-IsAmong : (t : Bytes) (ts : List Bytes) → any (λ u. eqb u t) ts ≡ true → IsAmong t ts
any-IsAmong t [] h = absurd (cc)
any-IsAmong t (u ∷ ts) h = elim (Bool-cases (eqb u t)) [
  | inl e ↦ here (eqb→eq u t e)
  | inr n ↦ there (any-IsAmong t ts (ground arith))
]

pub IsAmong-any : (t : Bytes) (ts : List Bytes) → IsAmong t ts → any (λ u. eqb u t) ts ≡ true
IsAmong-any t [] m = elim m [ ]
IsAmong-any t (u ∷ ts) (here e) = ground (arith, (eqb_iff u t).1 e)
IsAmong-any t (u ∷ ts) (there m) = ground (arith, IsAmong-any t ts m)

pub any_iff : (t : Bytes) (ts : List Bytes) → (any (λ u. eqb u t) ts ≡ true) ↔ IsAmong t ts
any_iff t ts = (any-IsAmong t ts, IsAmong-any t ts)
