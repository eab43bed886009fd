-- ===== src/Issuer/PrivateKey/Text.antt =====
-- A private key is read back from the text that is written for it.
use grantseal.Prelude.{
  ℕ, true, not, some, [], ◌∷◌, ◌++◌, reverse, Bytes, length, all, ◌≡◌, refl, ap, ◌∙◌, arith,
}
use mathlib.Core.List.{reverse_aux, reverse-append, reverse-reverse}
use grantseal.Prelude.Results.{ok}
use grantseal.Issuer.PrivateKey.{
  KeyLibrary, seed_size, is_space, skip_spaces, trim_space, key_of_length, decode_private_key,
  private_key_base64,
}

-- What the issuer relies on: Base64 decodes what it encodes, and its text has no white space.
pub record IsKeyLibrary (lib : KeyLibrary) : Type 0 where
  pub b64 : (b : Bytes) → lib.b64_decode (lib.b64_encode b) ≡ some b
  pub b64_visible : (b : Bytes) → all (λ c. not (is_space c)) (lib.b64_encode b) ≡ true

visible_reverse :
    (s : Bytes)
    → all (λ c. not (is_space c)) s ≡ true
    → all (λ c. not (is_space c)) (reverse s) ≡ true
visible_reverse s h = onto s [] h refl
  where
    onto :
        (s t : Bytes)
        → all (λ c. not (is_space c)) s ≡ true
        → all (λ c. not (is_space c)) t ≡ true
        → all (λ c. not (is_space c)) (reverse_aux s t) ≡ true
    onto [] t h k = k
    onto (c ∷ s) t h k = onto s (c ∷ t) (ground arith) (ground arith)

skip_spaces-visible : (s : Bytes) → all (λ c. not (is_space c)) s ≡ true → skip_spaces s ≡ s
unfolding skip_spaces
skip_spaces-visible [] h = refl
skip_spaces-visible (c ∷ s) h = ground arith

line_end : (s : Bytes) → skip_spaces (10 ∷ s) ≡ skip_spaces s
unfolding skip_spaces is_space
line_end s = refl

front :
    (c : ℕ) (s : Bytes)
    → all (λ c. not (is_space c)) (c ∷ s) ≡ true
    → skip_spaces ((c ∷ s) ++ (10 ∷ [])) ≡ (c ∷ s) ++ (10 ∷ [])
unfolding skip_spaces
front c s h = ground arith

-- The line break that is written after a key is trimmed.
pub trim_space-line :
    (s : Bytes) → all (λ c. not (is_space c)) s ≡ true → trim_space (s ++ (10 ∷ [])) ≡ s
unfolding trim_space
trim_space-line [] h = unfold skip_spaces is_space in refl
trim_space-line (c ∷ s) h =
    ap (λ t. reverse (skip_spaces (reverse t))) (front c s h)
    ∙ ap (λ t. reverse (skip_spaces t)) (reverse-append (c ∷ s) (10 ∷ []))
    ∙ ap reverse (
        line_end (reverse (c ∷ s))
        ∙ skip_spaces-visible (reverse (c ∷ s)) (visible_reverse (c ∷ s) h))
    ∙ reverse-reverse (c ∷ s)

-- The text that is written for a private key decodes to the key of its seed.
pub decode_private_key-written :
    (lib : KeyLibrary) (laws : IsKeyLibrary lib) (private : Bytes)
    → length (lib.seed private) ≡ seed_size
    → decode_private_key lib (private_key_base64 lib private ++ (10 ∷ []))
      ≡ ok (lib.new_key_from_seed (lib.seed private))
unfolding decode_private_key private_key_base64 key_of_length
decode_private_key-written lib laws private size =
    rw
      (
        trim_space-line (lib.b64_encode (lib.seed private)) (laws.b64_visible (lib.seed private)),
        laws.b64 (lib.seed private),
        size,
      )
      refl
