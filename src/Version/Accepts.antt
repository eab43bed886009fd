-- ===== src/Version/Accepts.antt =====
-- The steps of parseVersion of version.go, and what they make of a text of the grammar.
use grantseal.Prelude.{
  ℕ, ◌+◌, ◌≤◌, ltb, true, false, ◌||◌, ◌≡◌, ◌≢◌, none, some, List, [], ◌∷◌, ◌++◌, Bytes, length,
  all, All, arith, is_nil, refl, sym, ap, ◌∙◌, append_assoc, &&-true, inl, inr, ◌⊎◌, append-nil,
  cut, join, split, Lacks, Lacks-append, cut-Lacks, cut-append, trim_space, if◌then◌else◌,
  le→not_ltb,
}
use grantseal.Version.{
  Semver, decimal, is_digit, parse_core, parse_prerelease, parse_parts, parse_after_build,
  parse_after_prefix, trim_v, parse_version, is_valid_dot_separated,
}
use grantseal.Version.Bounds.{IsIdentifier}
use grantseal.Version.Grammar.{
  IsNumber, IsBuildPart, parse_core-split, core-Lacks, core_text, join-ne-nil, part-ne-nil,
  join-Lacks, AllLack-build, All-IsBuildPart, parse_prerelease_step, dot_separated_step,
  split-identifiers, prerelease_text, build_text, version_text,
}

-- One step of the parser for each part of the text.
parts_plain :
    (core : Bytes) {x y z : ℕ}
    → parse_core (split b'.' core) ≡ some (x, y, z)
    → parse_parts core none ≡ some (record { major = x; minor = y; patch = z; prerelease = [] })
unfolding parse_parts
parts_plain core h = rw (h, parse_parts)

parts_prerelease :
    (core pre : Bytes) {x y z : ℕ} {ids : List Bytes}
    → parse_core (split b'.' core) ≡ some (x, y, z)
    → parse_prerelease pre ≡ some ids
    → parse_parts core (some pre)
      ≡ some (record { major = x; minor = y; patch = z; prerelease = ids })
unfolding parse_parts
parts_prerelease core pre h k = rw (h, k, parse_parts)

after_build_plain : (v : Bytes) → cut b'-' v ≡ none → parse_after_build v ≡ parse_parts v none
unfolding parse_after_build
after_build_plain v h = rw (h, parse_after_build)

after_build_prerelease :
    (v : Bytes) {core pre : Bytes}
    → cut b'-' v ≡ some (core, pre)
    → parse_after_build v ≡ parse_parts core (some pre)
unfolding parse_after_build
after_build_prerelease v h = rw (h, parse_after_build)

after_prefix_plain : (v : Bytes) → cut b'+' v ≡ none → parse_after_prefix v ≡ parse_after_build v
unfolding parse_after_prefix
after_prefix_plain v h = rw (h, parse_after_prefix)

after_prefix_build :
    (v : Bytes) {rest build : Bytes}
    → cut b'+' v ≡ some (rest, build)
    → is_valid_dot_separated build true ≡ true
    → parse_after_prefix v ≡ parse_after_build rest
unfolding parse_after_prefix
after_prefix_build v h k = rw (h, k, parse_after_prefix)

version_trimmed :
    (text : Bytes) {v : Bytes}
    → trim_space text ≡ v
    → is_nil v ≡ false
    → length v ≤ 256
    → parse_version text ≡ parse_after_prefix (trim_v v)
unfolding parse_version
version_trimmed text {v} e h k = rw (
  ap (λ t. if is_nil t || ltb 256 (length t) then none else parse_after_prefix (trim_v t)) e,
  h,
  le→not_ltb 256 (length v) k,
)

trim_v-digit : (c : ℕ) (s : Bytes) → is_digit c ≡ true → trim_v (c ∷ s) ≡ c ∷ s
unfolding trim_v
trim_v-digit c s h = ground arith

trim_v-v : (s : Bytes) → trim_v (b'v' ∷ s) ≡ s
unfolding trim_v
trim_v-v s = refl

module _ (a b c : Bytes) (ha : IsNumber a) (hb : IsNumber b) (hc : IsNumber c) where
  abbrev version_value : List Bytes → Semver
  version_value pre = record {
    major = decimal 0 a;
    minor = decimal 0 b;
    patch = decimal 0 c;
    prerelease = pre;
  }

  after_build-text :
      (pre : List Bytes)
      → 3 + length pre ≤ 32
      → All IsIdentifier pre
      → parse_after_build (core_text a b c ++ prerelease_text pre) ≡ some (version_value pre)
  after_build-text [] few ok = rw (append-nil (core_text a b c)) (
      after_build_plain (core_text a b c)
        (cut-Lacks b'-' (core_text a b c) (core-Lacks a b c ha hb hc b'-' refl (λ e. omega arith)))
      ∙ parts_plain (core_text a b c) (parse_core-split a b c ha hb hc))
  after_build-text (p ∷ ids) few ok =
      let parts = All-IsBuildPart (p ∷ ids) ok in
      after_build_prerelease (core_text a b c ++ prerelease_text (p ∷ ids)) (
        cut-append b'-' (core_text a b c) (join b'.' (p ∷ ids))
          (core-Lacks a b c ha hb hc b'-' refl (λ e. omega arith)))
      ∙ parts_prerelease (core_text a b c) (join b'.' (p ∷ ids)) (parse_core-split a b c ha hb hc) (
          parse_prerelease_step (join b'.' (p ∷ ids)) (p ∷ ids)
            (join-ne-nil p ids (part-ne-nil p parts.0)) (split-identifiers p ids parts) (λ e. cc)
            few ok)

  prerelease-Lacks :
      (pre : List Bytes)
      → All IsIdentifier pre
      → Lacks b'+' (core_text a b c ++ prerelease_text pre)
  prerelease-Lacks pre ok =
      Lacks-append b'+' (core_text a b c) (prerelease_text pre)
        (core-Lacks a b c ha hb hc b'+' refl (λ e. omega arith)) (rest pre ok)
    where
      rest : (ids : List Bytes) → All IsIdentifier ids → Lacks b'+' (prerelease_text ids)
      rest [] ok = tt
      rest (p ∷ ids) ok = (
        λ e. omega arith,
        join-Lacks b'+' (p ∷ ids) (λ e. omega arith)
            (AllLack-build b'+' (p ∷ ids) refl (All-IsBuildPart (p ∷ ids) ok)),
      )

  after_prefix-text :
      (pre build : List Bytes)
      → 3 + length pre ≤ 32
      → All IsIdentifier pre
      → All IsBuildPart build
      → parse_after_prefix (version_text a b c pre build) ≡ some (version_value pre)
  after_prefix-text pre [] few ok bok = rw (append-nil (core_text a b c ++ prerelease_text pre)) (
      after_prefix_plain _ (cut-Lacks b'+' _ (prerelease-Lacks pre ok))
      ∙ after_build-text pre few ok)
  after_prefix-text pre (p ∷ ids) few ok bok =
      after_prefix_build _
        (cut-append b'+' (core_text a b c ++ prerelease_text pre) (join b'.' (p ∷ ids))
          (prerelease-Lacks pre ok))
        (dot_separated_step (join b'.' (p ∷ ids)) (p ∷ ids)
          (join-ne-nil p ids (part-ne-nil p bok.0)) (split-identifiers p ids bok) bok)
      ∙ after_build-text pre few ok

  trim_v-text : (s : Bytes) → trim_v (core_text a b c ++ s) ≡ core_text a b c ++ s
  trim_v-text s = go a ha.some_digit ha.digits
    where
      go :
          (d : Bytes)
          → d ≢ []
          → all is_digit d ≡ true
          → trim_v (core_text d b c ++ s) ≡ core_text d b c ++ s
      go [] h k = absurd (h refl)
      go (x ∷ d) h k = trim_v-digit x _ (&&-true (is_digit x) (all is_digit d) k).0

  text-ne-nil : (s : Bytes) → is_nil (core_text a b c ++ s) ≡ false
  text-ne-nil s = go a ha.some_digit
    where
      go : (d : Bytes) → d ≢ [] → is_nil (core_text d b c ++ s) ≡ false
      go [] h = absurd (h refl)
      go (x ∷ d) h = refl

  -- Every text of the grammar, of at most 256 bytes and 29 identifiers, is accepted, with white
  -- space around it and with or without the "v"; the result has its numbers and identifiers, and
  -- the build metadata makes no difference.
  pub parse_version-text :
      (text : Bytes) (pre build : List Bytes)
      → (trim_space text ≡ version_text a b c pre build)
        ⊎ (trim_space text ≡ b'v' ∷ version_text a b c pre build)
      → length (trim_space text) ≤ 256
      → 3 + length pre ≤ 32
      → All IsIdentifier pre
      → All IsBuildPart build
      → parse_version text ≡ some (version_value pre)
  parse_version-text text pre build (inl e) fits few ok bok =
      let assoc = append_assoc (core_text a b c) (prerelease_text pre) (build_text build) in
      version_trimmed text (e ∙ assoc) (text-ne-nil (prerelease_text pre ++ build_text build))
        (rw (e ∙ assoc) at fits)
      ∙ ap parse_after_prefix (trim_v-text (prerelease_text pre ++ build_text build) ∙ sym assoc)
      ∙ after_prefix-text pre build few ok bok
  parse_version-text text pre build (inr e) fits few ok bok =
      version_trimmed text e refl (rw e at fits)
      ∙ ap parse_after_prefix (trim_v-v (version_text a b c pre build))
      ∙ after_prefix-text pre build few ok bok
