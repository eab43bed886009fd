-- ===== src/Fingerprint/Scheme/Forms.antt =====
-- The two forms that Parse of scheme.go accepts, and nothing else.
use grantseal.Prelude.{
  true, false, ◌≡◌, ◌≢◌, ◌⊎◌, inl, inr, refl, ap, ◌∙◌, arith, some, [], ◌∷◌, ◌++◌, Bytes, codes,
  eqb, eqb→eq, cut, length, is_nil, ℤ, Lacks, cut-append, Bool-cases,
}
use grantseal.Prelude.Results.{ok}
use grantseal.Fingerprint.Scheme.{
  Scheme, parse, parse_opaque, parse_versioned, parse_digest, known_version, known_algorithm,
  is_lower_hex, atoi, opaque_version, opaque_algorithm, fingerprint_version, fingerprint_version_v2,
}

-- "opaque:<namespace>:<value>", where only the first two colons separate.
pub record IsOpaqueForm (value : Bytes) (s : Scheme) : Type 0 where
  pub version : s.version ≡ opaque_version
  pub algorithm : s.algorithm ≡ opaque_algorithm
  pub namespace : s.namespace ≢ []
  pub payload : s.digest ≢ []
  pub one_segment : Lacks b':' s.namespace
  pub text : value ≡ codes "opaque:" ++ (s.namespace ++ b':' ∷ s.digest)

-- "fp:v<N>:<algorithm>:<digest>" with a known version and algorithm and 64 lowercase hex digits.
pub record IsFingerprintForm (value version : Bytes) (s : Scheme) : Type 0 where
  pub number : atoi version ≡ some s.version
  pub known : (s.version ≡ fingerprint_version) ⊎ (s.version ≡ fingerprint_version_v2)
  pub algorithm : (s.algorithm ≡ codes "sha256") ⊎ (s.algorithm ≡ codes "hmac-sha256")
  pub hex : is_lower_hex s.digest ≡ true
  pub size : length s.digest ≡ 64
  pub namespace : s.namespace ≡ []
  pub text : value ≡ codes "fp:v" ++ (version ++ b':' ∷ (s.algorithm ++ b':' ∷ s.digest))

known_algorithm_sound :
    (a : Bytes) → known_algorithm a ≡ true → (a ≡ codes "sha256") ⊎ (a ≡ codes "hmac-sha256")
unfolding known_algorithm
known_algorithm_sound a h = elim (Bool-cases (eqb a (codes "sha256"))) [
  | inl e ↦ inl (eqb→eq a (codes "sha256") e)
  | inr e ↦ inr (eqb→eq a (codes "hmac-sha256") (ground arith))
]

-- The text of a scheme, as the issuer's tools write it.
abbrev pub opaque_text : Bytes → Bytes → Bytes
opaque_text ns val = codes "opaque:" ++ (ns ++ b':' ∷ val)

abbrev pub fingerprint_text : Bytes → Bytes → Bytes → Bytes
fingerprint_text version algorithm digest =
    codes "fp:v" ++ (version ++ b':' ∷ (algorithm ++ b':' ∷ digest))

-- Every opaque identifier with a namespace and a value is accepted, and the value may hold colons.
pub parse-opaque_text :
    (ns val : Bytes)
    → ns ≢ []
    → Lacks b':' ns
    → val ≢ []
    → parse (opaque_text ns val)
      ≡ ok (record {
        version = opaque_version;
        algorithm = opaque_algorithm;
        digest = val;
        namespace = ns;
      })
unfolding parse
parse-opaque_text [] val h l k = absurd (h refl)
parse-opaque_text (c ∷ ns) [] h l k = absurd (k refl)
parse-opaque_text (c ∷ ns) (d ∷ val) h l k = rw (cut-append b':' (c ∷ ns) (d ∷ val) l, parse_opaque)

algorithm-Lacks : (a : Bytes) → known_algorithm a ≡ true → Lacks b':' a
algorithm-Lacks a h = go (known_algorithm_sound a h)
  where
    go : (a ≡ codes "sha256") ⊎ (a ≡ codes "hmac-sha256") → Lacks b':' a
    go (inl e) = rw e (omega arith)
    go (inr e) = rw e (omega arith)

hex-not_nil : (s : Bytes) → is_lower_hex s ≡ true → is_nil s ≡ false
unfolding is_lower_hex
hex-not_nil [] h = cc
hex-not_nil (c ∷ s) h = refl

fingerprint_step : (rest : Bytes) → parse (codes "fp:v" ++ rest) ≡ parse_versioned (cut b':' rest)
unfolding parse
fingerprint_step rest = refl

atoi-not_nil : (s : Bytes) {v : ℤ} → atoi s ≡ some v → is_nil s ≡ false
unfolding atoi
atoi-not_nil [] h = cc
atoi-not_nil (c ∷ s) h = refl

versioned_at :
    (version after : Bytes) {v : ℤ}
    → atoi version ≡ some v
    → known_version (some v) ≡ ok v
    → parse_versioned (some (version, after)) ≡ parse_digest v (cut b':' after)
unfolding parse_versioned
versioned_at version after e k = rw (atoi-not_nil version e, e, k)

versioned_step :
    (version after : Bytes) {v : ℤ}
    → atoi version ≡ some v
    → (v ≡ fingerprint_version) ⊎ (v ≡ fingerprint_version_v2)
    → parse_versioned (some (version, after)) ≡ parse_digest v (cut b':' after)
versioned_step version after number (inl e) =
    versioned_at version after number (rw e (unfold known_version in refl))
versioned_step version after number (inr e) =
    versioned_at version after number (rw e (unfold known_version in refl))

digest_step :
    (v : ℤ) (algorithm digest : Bytes)
    → known_algorithm algorithm ≡ true
    → is_lower_hex digest ≡ true
    → length digest ≡ 64
    → parse_digest v (some (algorithm, digest))
      ≡ ok (record { version = v; algorithm = algorithm; digest = digest; namespace = [] })
unfolding parse_digest
digest_step v algorithm digest alg hex size =
    rw (parse_digest, alg, hex-not_nil digest hex, size, hex)

-- Every fingerprint value is accepted whose version segment, without a colon, reads as a known
-- number, with a known algorithm and a digest of 64 lowercase hex digits.
pub parse-fingerprint_text :
    (version algorithm digest : Bytes) {v : ℤ}
    → Lacks b':' version
    → atoi version ≡ some v
    → (v ≡ fingerprint_version) ⊎ (v ≡ fingerprint_version_v2)
    → known_algorithm algorithm ≡ true
    → is_lower_hex digest ≡ true
    → length digest ≡ 64
    → parse (fingerprint_text version algorithm digest)
      ≡ ok (record { version = v; algorithm = algorithm; digest = digest; namespace = [] })
parse-fingerprint_text version algorithm digest {v} l number known alg hex size =
    fingerprint_step (version ++ b':' ∷ (algorithm ++ b':' ∷ digest))
    ∙ ap parse_versioned (cut-append b':' version (algorithm ++ b':' ∷ digest) l)
    ∙ versioned_step version (algorithm ++ b':' ∷ digest) number known
    ∙ ap (parse_digest v) (cut-append b':' algorithm digest (algorithm-Lacks algorithm alg))
    ∙ digest_step v algorithm digest alg hex size
