-- ===== src/Prelude/Space.antt =====
-- strings.TrimSpace: it removes leading and trailing Unicode white space from UTF-8 text.
use Prim.Native.Nat.{ℕ, zero, suc, ◌<◌}
use mathlib.Core.Path.{◌≡◌, refl}
use mathlib.Core.Bool.{Bool, ◌&&◌, ◌||◌}
use mathlib.Core.List.{[], ◌∷◌, reverse, reverse-reverse}
use native.Mathlib.Omega.{arith}
use grantseal.Prelude.Tests.{◌==◌, leb, if◌then◌else◌}
use grantseal.Prelude.Lists.{length, drop}
use grantseal.Prelude.Text.{Bytes}

-- '\t', '\n', '\v', '\f', '\r', ' '
unfoldable pub ascii_space : ℕ → Bool
ascii_space c = (leb 9 c && leb c 13) || c == 32

-- U+0085 and U+00A0 in UTF-8
two_byte_space : ℕ → ℕ → Bool
two_byte_space a b = a == 0xc2 && (b == 0x85 || b == 0xa0)

-- U+1680, U+2000 to U+200A, U+2028, U+2029, U+202F, U+205F and U+3000 in UTF-8
three_byte_space : ℕ → ℕ → ℕ → Bool
three_byte_space a b c =
    (a == 0xe1 && b == 0x9a && c == 0x80)
    || (a == 0xe2 && b == 0x80 && (leb 0x80 c && leb c 0x8a || c == 0xa8 || c == 0xa9 || c == 0xaf))
    || (a == 0xe2 && b == 0x81 && c == 0x9f)
    || (a == 0xe3 && b == 0x80 && c == 0x80)

-- The number of bytes of the white space character at the front, 0 if there is none.
space_at_front : Bytes → ℕ
unfolding ascii_space two_byte_space three_byte_space
space_at_front [] = 0
space_at_front (a ∷ []) = if ascii_space a then 1 else 0
space_at_front (a ∷ b ∷ []) = if ascii_space a then 1 else if two_byte_space a b then 2 else 0
space_at_front (a ∷ b ∷ c ∷ s) =
    if ascii_space a
    then 1
    else if two_byte_space a b
    then 2
    else if three_byte_space a b c
    then 3
    else 0

-- The same at the end of a text that is given back to front.
space_at_end : Bytes → ℕ
unfolding ascii_space two_byte_space three_byte_space
space_at_end [] = 0
space_at_end (a ∷ []) = if ascii_space a then 1 else 0
space_at_end (b ∷ a ∷ []) = if ascii_space b then 1 else if two_byte_space a b then 2 else 0
space_at_end (c ∷ b ∷ a ∷ s) =
    if ascii_space c
    then 1
    else if two_byte_space b c
    then 2
    else if three_byte_space a b c
    then 3
    else 0

-- One white space character in each round; a round takes at least one byte.
strip : (Bytes → ℕ) → ℕ → Bytes → Bytes
strip space zero s = s
strip space (suc fuel) s = elim (space s) [ zero ↦ s | suc k ↦ strip space fuel (drop (suc k) s) ]

unfoldable pub trim_space : Bytes → Bytes
unfolding strip space_at_front space_at_end
trim_space s =
    let front = strip space_at_front (length s) s in
    reverse (strip space_at_end (length front) (reverse front))

-- A graphic ASCII byte is no part of any white space character.
abbrev pub IsGraphic : ℕ → Type 0
IsGraphic c = (32 < c) × (c < 127)

space_at_front-graphic : (c : ℕ) (s : Bytes) → IsGraphic c → space_at_front (c ∷ s) ≡ 0
unfolding space_at_front
space_at_front-graphic c [] h = ground arith
space_at_front-graphic c (b ∷ []) h = ground arith
space_at_front-graphic c (b ∷ d ∷ s) h = ground arith

space_at_end-graphic : (c : ℕ) (s : Bytes) → IsGraphic c → space_at_end (c ∷ s) ≡ 0
unfolding space_at_end
space_at_end-graphic c [] h = ground arith
space_at_end-graphic c (b ∷ []) h = ground arith
space_at_end-graphic c (b ∷ d ∷ s) h = ground arith

strip_none : (space : Bytes → ℕ) (fuel : ℕ) (s : Bytes) → space s ≡ 0 → strip space fuel s ≡ s
unfolding strip
strip_none space zero s h = refl
strip_none space (suc fuel) s h = rw (h, strip)

abbrev pub HeadIsGraphic : Bytes → Type 0
HeadIsGraphic [] = Unit
HeadIsGraphic (c ∷ s) = IsGraphic c

front_none : (s : Bytes) → HeadIsGraphic s → space_at_front s ≡ 0
front_none [] h = unfold space_at_front in refl
front_none (c ∷ s) h = space_at_front-graphic c s h

end_none : (s : Bytes) → HeadIsGraphic s → space_at_end s ≡ 0
end_none [] h = unfold space_at_end in refl
end_none (c ∷ s) h = space_at_end-graphic c s h

-- A text that begins and ends with graphic ASCII is left as it is.
pub trim_space-graphic :
    (s : Bytes) → HeadIsGraphic s → HeadIsGraphic (reverse s) → trim_space s ≡ s
unfolding trim_space
trim_space-graphic s h k =
    rw
      (
        strip_none space_at_front (length s) s (front_none s h),
        strip_none space_at_end (length s) (reverse s) (end_none (reverse s) k),
      )
      (reverse-reverse s)
