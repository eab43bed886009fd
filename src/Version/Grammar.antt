-- ===== src/Version/Grammar.antt =====
-- parseVersion of version.go accepts every text of the grammar
-- ["v"] MAJOR "." MINOR "." PATCH ["-" id {"." id}] ["+" id {"." id}] and reads it right.
use grantseal.Prelude.{
  ℕ, ◌+◌, ◌≤◌, true, false, ◌&&◌, ◌≡◌, ◌≢◌, some, List, [], ◌∷◌, ◌++◌, Bytes, length, all, All,
  arith, is_nil, not, refl, sym, join, split, Lacks, AllLack, Lacks-append, all-Lacks, split-Lacks,
  split-append, split-join, le→not_ltb,
}
use grantseal.Version.{
  max_uint64, decimal, is_digit, is_alphanumeric_id, is_alphanumeric_byte, has_leading_zero,
  parse_numeric_id, is_valid_prerelease_id, parse_core, parse_prerelease, is_valid_dot_separated,
  is_valid_build_part,
}
use grantseal.Version.Bounds.{IsIdentifier}

-- A number of the core: digits, without a leading zero, in range.
pub record IsNumber (s : Bytes) : Type 0 where
  pub some_digit : s ≢ []
  pub digits : all is_digit s ≡ true
  pub no_zero : has_leading_zero s ≡ false
  pub fits : decimal 0 s ≤ max_uint64

pub parse_numeric_id-IsNumber : (s : Bytes) → IsNumber s → parse_numeric_id s ≡ some (decimal 0 s)
unfolding parse_numeric_id
parse_numeric_id-IsNumber [] h = absurd (h.some_digit refl)
parse_numeric_id-IsNumber (c ∷ s) h =
    rw (h.digits, not, h.no_zero, le→not_ltb max_uint64 (decimal 0 (c ∷ s)) h.fits)

digits-Lacks : (b : ℕ) (s : Bytes) → is_digit b ≡ false → IsNumber s → Lacks b s
digits-Lacks b s h k = all-Lacks is_digit b s h k.digits

identifier-Lacks :
    (b : ℕ) (s : Bytes) → is_alphanumeric_byte b ≡ false → is_alphanumeric_id s ≡ true → Lacks b s
unfolding is_alphanumeric_id
identifier-Lacks b [] h k = tt
identifier-Lacks b (c ∷ s) h k = all-Lacks is_alphanumeric_byte b (c ∷ s) h k

-- The core as text, and behind it what follows.
abbrev pub core_text : Bytes → Bytes → Bytes → Bytes
core_text a b c = a ++ b'.' ∷ (b ++ b'.' ∷ c)

module _ (a b c : Bytes) (ha : IsNumber a) (hb : IsNumber b) (hc : IsNumber c) where
  split-core : split b'.' (core_text a b c) ≡ a ∷ b ∷ c ∷ []
  split-core = rw (
    split-append b'.' a (b ++ b'.' ∷ c) (digits-Lacks b'.' a refl ha),
    split-append b'.' b c (digits-Lacks b'.' b refl hb),
    split-Lacks b'.' c (digits-Lacks b'.' c refl hc),
  )

  pub parse_core-split :
      parse_core (split b'.' (core_text a b c)) ≡ some (decimal 0 a, decimal 0 b, decimal 0 c)
  parse_core-split = rw split-core (
      unfold parse_core in
      rw (
        parse_numeric_id-IsNumber a ha,
        parse_numeric_id-IsNumber b hb,
        parse_numeric_id-IsNumber c hc,
      ))

  pub core-Lacks : (d : ℕ) → is_digit d ≡ false → d ≢ b'.' → Lacks d (core_text a b c)
  core-Lacks d h k = Lacks-append d a (b'.' ∷ (b ++ b'.' ∷ c)) (digits-Lacks d a h ha) (
    λ e. k (sym e),
    Lacks-append d b (b'.' ∷ c) (digits-Lacks d b h hb) (λ e. k (sym e), digits-Lacks d c h hc),
  )

pub join-Lacks : (d : ℕ) (ids : List Bytes) → d ≢ b'.' → AllLack d ids → Lacks d (join b'.' ids)
unfolding join
join-Lacks d [] h k = tt
join-Lacks d (p ∷ []) h (k, ks) = k
join-Lacks d (p ∷ q ∷ ps) h (k, ks) =
    Lacks-append d p (b'.' ∷ join b'.' (q ∷ ps)) k (λ e. h (sym e), join-Lacks d (q ∷ ps) h ks)

pub join-ne-nil : (p : Bytes) (ids : List Bytes) → p ≢ [] → join b'.' (p ∷ ids) ≢ []
unfolding join
join-ne-nil p [] h e = h e
join-ne-nil [] (q ∷ ps) h e = h refl
join-ne-nil (c ∷ p) (q ∷ ps) h e = cc

-- Identifiers of build metadata: a number may have leading zeros there.
abbrev pub IsBuildPart : Bytes → Type 0
IsBuildPart id = is_alphanumeric_id id ≡ true

pub AllLack-build :
    (d : ℕ) (ids : List Bytes)
    → is_alphanumeric_byte d ≡ false
    → All IsBuildPart ids
    → AllLack d ids
AllLack-build d [] h k = tt
AllLack-build d (p ∷ ids) h (k, ks) = (identifier-Lacks d p h k, AllLack-build d ids h ks)

pub All-IsBuildPart : (ids : List Bytes) → All IsIdentifier ids → All IsBuildPart ids
All-IsBuildPart [] h = tt
All-IsBuildPart (p ∷ ids) ((k, _), ks) = (k, All-IsBuildPart ids ks)

pub part-ne-nil : (p : Bytes) → IsBuildPart p → p ≢ []
unfolding is_alphanumeric_id
part-ne-nil [] h e = cc
part-ne-nil (c ∷ p) h e = cc

identifier-valid :
    (p : Bytes) → IsIdentifier p → (not (is_nil p) && is_valid_prerelease_id p) ≡ true
unfolding is_valid_prerelease_id
identifier-valid [] (h, k) = absurd (part-ne-nil [] h refl)
identifier-valid (c ∷ p) (h, k) = ground arith

identifiers-valid :
    (ids : List Bytes)
    → All IsIdentifier ids
    → all (λ id. not (is_nil id) && is_valid_prerelease_id id) ids ≡ true
identifiers-valid [] h = refl
identifiers-valid (p ∷ ids) (h, hs) = rw (identifier-valid p h, identifiers-valid ids hs)

build-valid : (p : Bytes) → IsBuildPart p → is_valid_build_part true p ≡ true
unfolding is_valid_build_part
build-valid [] h = absurd (part-ne-nil [] h refl)
build-valid (c ∷ p) h = ground arith

builds-valid : (ids : List Bytes) → All IsBuildPart ids → all (is_valid_build_part true) ids ≡ true
builds-valid [] h = refl
builds-valid (p ∷ ids) (h, hs) = rw (build-valid p h, builds-valid ids hs)

pub parse_prerelease_step :
    (s : Bytes) (ids : List Bytes)
    → s ≢ []
    → split b'.' s ≡ ids
    → ids ≢ []
    → 3 + length ids ≤ 32
    → All IsIdentifier ids
    → parse_prerelease s ≡ some ids
unfolding parse_prerelease
parse_prerelease_step [] ids h e k few ok = absurd (h refl)
parse_prerelease_step (c ∷ s) [] h e k few ok = absurd (k refl)
parse_prerelease_step (c ∷ s) (p ∷ ids) h e k few ok =
    rw (e, le→not_ltb 32 (3 + length (p ∷ ids)) few, identifiers-valid (p ∷ ids) ok)

pub dot_separated_step :
    (s : Bytes) (ids : List Bytes)
    → s ≢ []
    → split b'.' s ≡ ids
    → All IsBuildPart ids
    → is_valid_dot_separated s true ≡ true
unfolding is_valid_dot_separated
dot_separated_step [] ids h e ok = absurd (h refl)
dot_separated_step (c ∷ s) ids h e ok = rw (e, builds-valid ids ok)

pub split-identifiers :
    (p : Bytes) (ids : List Bytes)
    → All IsBuildPart (p ∷ ids)
    → split b'.' (join b'.' (p ∷ ids)) ≡ p ∷ ids
split-identifiers p ids h =
    split-join b'.' (p ∷ ids) (λ e. cc) (AllLack-build b'.' (p ∷ ids) refl h)

-- The optional parts of a version.
abbrev pub prerelease_text : List Bytes → Bytes
prerelease_text [] = []
prerelease_text (p ∷ ids) = b'-' ∷ join b'.' (p ∷ ids)

abbrev pub build_text : List Bytes → Bytes
build_text [] = []
build_text (p ∷ ids) = b'+' ∷ join b'.' (p ∷ ids)

abbrev pub version_text : Bytes → Bytes → Bytes → List Bytes → List Bytes → Bytes
version_text a b c pre build = (core_text a b c ++ prerelease_text pre) ++ build_text build
