-- ===== src/Fingerprint/Compute/Codes.antt =====
-- The values that are computed are values that Parse accepts.
use grantseal.Prelude.{
  ℕ, if◌then◌else◌, Bool, true, false, Option, none, some, List, [], ◌∷◌, ◌++◌, Bytes, codes, eqb,
  length, take, is_nil, ℤ, pos, eq_ℤ, ◌≡◌, ◌≢◌, ◌⊎◌, inl, inr, refl, ap, ◌∙◌, sym, subst, arith,
  Lacks,
}
use grantseal.Prelude.Results.{Result, ok, err, of_ok}
use grantseal.Fingerprint.Scheme.{
  parse, is_lower_hex, fingerprint_version, fingerprint_version_v2, sha256_hex_len, atoi,
  known_algorithm,
}
use grantseal.Fingerprint.Scheme.Forms.{fingerprint_text, parse-fingerprint_text}
use grantseal.Fingerprint.Compute.{
  HashLibrary, Component, Collector, Fingerprint, ComputeError, empty_namespace, unknown_version,
  digits, format_int, fingerprint_prefix, tagged_digest, fingerprint_of, canonical_form,
  compute_hmac, compute_of_primary, primary_component, compute_hmac_v2, compute_hmac_version,
}

-- What the package relies on: a digest in hex is 64 lowercase digits, and upper case keeps the length of
-- lowercase hex digits.
pub record IsHashLibrary (h : HashLibrary) : Type 0 where
  pub sha256_hex : (b : Bytes) → is_lower_hex (h.hex_encode (h.sha256 b)) ≡ true
  pub sha256_size : (b : Bytes) → length (h.hex_encode (h.sha256 b)) ≡ sha256_hex_len
  pub hmac_hex : (k b : Bytes) → is_lower_hex (h.hex_encode (h.hmac k b)) ≡ true
  pub hmac_size : (k b : Bytes) → length (h.hex_encode (h.hmac k b)) ≡ sha256_hex_len
  pub upper_length :
      (n : ℕ) (b : Bytes)
      → is_lower_hex b ≡ true
      → length (h.to_upper (take n b)) ≡ length (take n b)

abbrev pub algorithm_of : Bytes → Bytes
algorithm_of key = if is_nil key then codes "sha256" else codes "hmac-sha256"

-- The version 1 and the version 2 of a scheme, with the digit that stands for it.
abbrev pub IsVersion : ℤ → Bytes → Type 0
IsVersion v digit =
    ((v ≡ fingerprint_version) × (digit ≡ codes "1"))
    ⊎ ((v ≡ fingerprint_version_v2) × (digit ≡ codes "2"))

atoi_one : atoi (codes "1") ≡ some (pos 1)
unfolding atoi
atoi_one = refl

atoi_two : atoi (codes "2") ≡ some (pos 2)
unfolding atoi
atoi_two = refl

one_digit : (c : ℕ) → c ≢ b':' → Lacks b':' (c ∷ [])
one_digit c h = (h, tt)

version_digit-Lacks : (v : ℤ) (digit : Bytes) → IsVersion v digit → Lacks b':' digit
version_digit-Lacks v digit (inl (e, x)) =
    subst (Lacks b':') (sym x) (one_digit 49 (λ h. omega (arith, h)))
version_digit-Lacks v digit (inr (e, x)) =
    subst (Lacks b':') (sym x) (one_digit 50 (λ h. omega (arith, h)))

version_digit : (v : ℤ) (digit : Bytes) → IsVersion v digit → atoi digit ≡ some v
version_digit v digit (inl (e, x)) = ap atoi x ∙ atoi_one ∙ ap some (sym e)
version_digit v digit (inr (e, x)) = ap atoi x ∙ atoi_two ∙ ap some (sym e)

version_known :
    (v : ℤ) (digit : Bytes)
    → IsVersion v digit
    → (v ≡ fingerprint_version) ⊎ (v ≡ fingerprint_version_v2)
version_known v digit (inl (e, x)) = inl e
version_known v digit (inr (e, x)) = inr e

algorithm_of-known :
    (b : Bool) → known_algorithm (if b then codes "sha256" else codes "hmac-sha256") ≡ true
unfolding known_algorithm eqb
algorithm_of-known true = refl
algorithm_of-known false = refl

-- The fingerprint is the text of a digest.
pub record IsDigest (v : ℤ) (digit key : Bytes) (fp : Fingerprint) : Type 0 where
  pub digest : Bytes
  pub hex : is_lower_hex digest ≡ true
  pub size : length digest ≡ sha256_hex_len
  pub version : fp.version ≡ v
  pub text : fp.fingerprint ≡ fingerprint_text digit (algorithm_of key) digest

module _ (h : HashLibrary) (laws : IsHashLibrary h) where
  tagged :
      (v : ℤ) (digit key canonical : Bytes)
      → IsVersion v digit
      → (digest : Bytes) × (is_lower_hex digest ≡ true)
        × (length digest ≡ sha256_hex_len)
        × (fingerprint_prefix v ++ tagged_digest h key canonical
            ≡ fingerprint_text digit (algorithm_of key) digest)
  unfolding tagged_digest
  tagged v digit [] canonical w = (
    h.hex_encode (h.sha256 canonical),
    laws.sha256_hex canonical,
    laws.sha256_size canonical,
    prefixed w,
  )
    where
      prefixed :
          IsVersion v digit
          → fingerprint_prefix v ++ (codes "sha256:" ++ h.hex_encode (h.sha256 canonical))
            ≡ fingerprint_text digit (codes "sha256") (h.hex_encode (h.sha256 canonical))
      prefixed (inl (e, d)) = unfold fingerprint_prefix format_int digits in rw (e, d) refl
      prefixed (inr (e, d)) = unfold fingerprint_prefix format_int digits in rw (e, d) refl
  tagged v digit (k ∷ key) canonical w = (
    h.hex_encode (h.hmac (k ∷ key) canonical),
    laws.hmac_hex (k ∷ key) canonical,
    laws.hmac_size (k ∷ key) canonical,
    prefixed w,
  )
    where
      prefixed :
          IsVersion v digit
          → fingerprint_prefix v
              ++ (codes "hmac-sha256:" ++ h.hex_encode (h.hmac (k ∷ key) canonical))
            ≡ fingerprint_text digit
                (codes "hmac-sha256")
                (h.hex_encode (h.hmac (k ∷ key) canonical))
      prefixed (inl (e, d)) = unfold fingerprint_prefix format_int digits in rw (e, d) refl
      prefixed (inr (e, d)) = unfold fingerprint_prefix format_int digits in rw (e, d) refl

  fingerprint_of-IsDigest :
      (v : ℤ) (digit ns key : Bytes) (o : Option (Bytes × List Bytes)) (fp : Fingerprint)
      → IsVersion v digit
      → fingerprint_of h v ns key o ≡ ok fp
      → IsDigest v digit key fp
  unfolding fingerprint_of
  fingerprint_of-IsDigest v digit ns key none fp w e = absurd (cc)
  fingerprint_of-IsDigest v digit ns key (some (canonical, categories)) fp w e =
      let (digest, hex, size, text) = tagged v digit key canonical w in
      subst (IsDigest v digit key) (of_ok e)
        (record { digest = digest; hex = hex; size = size; version = refl; text = text })

  unless_empty :
      (b : Bool) (r : Result ComputeError Fingerprint) (fp : Fingerprint)
      → (if b then err empty_namespace else r) ≡ ok fp
      → r ≡ ok fp
  unless_empty true r fp e = cc
  unless_empty false r fp e = e

  compute_hmac-IsDigest :
      (col : Collector) (ns key : Bytes) (fp : Fingerprint)
      → compute_hmac h col ns key ≡ ok fp
      → IsDigest fingerprint_version (codes "1") key fp
  unfolding compute_hmac
  compute_hmac-IsDigest col ns key fp e =
      fingerprint_of-IsDigest fingerprint_version (codes "1") ns key
        (canonical_form h ns col.components) fp (inl (refl, refl)) (unless_empty (is_nil ns) _ fp e)

  pub compute_hmac_v2-IsDigest :
      (col : Collector) (ns key : Bytes) (fp : Fingerprint)
      → compute_hmac_v2 h col ns key ≡ ok fp
      → IsDigest fingerprint_version_v2 (codes "2") key fp
  unfolding compute_hmac_v2
  compute_hmac_v2-IsDigest col ns key fp e =
      primary (primary_component h col.components col.primary_priority)
        (unless_empty (is_nil ns) _ fp e)
    where
      primary :
          (o : Option Component)
          → compute_of_primary h o ns key ≡ ok fp
          → IsDigest fingerprint_version_v2 (codes "2") key fp
      primary none e = unfold compute_of_primary in absurd (cc)
      primary (some c) e =
          unfold compute_of_primary in
          fingerprint_of-IsDigest fingerprint_version_v2 (codes "2") ns key
            (canonical_form h ns (c ∷ [])) fp (inr (refl, refl)) e

  compute_hmac_version-IsDigest :
      (col : Collector) (ns key : Bytes) (v : ℤ) (fp : Fingerprint)
      → compute_hmac_version h col ns v key ≡ ok fp
      → (digit : Bytes) × (w : ℤ) × IsVersion w digit × IsDigest w digit key fp
  unfolding compute_hmac_version
  compute_hmac_version-IsDigest col ns key v fp e =
      at (eq_ℤ v fingerprint_version) (eq_ℤ v fingerprint_version_v2) e
    where
      at :
          (a b : Bool)
          → (if a
              then compute_hmac h col ns key
              else if b
              then compute_hmac_v2 h col ns key
              else err unknown_version)
            ≡ ok fp
          → (digit : Bytes) × (w : ℤ) × IsVersion w digit × IsDigest w digit key fp
      at true b e =
          (codes "1", fingerprint_version, inl (refl, refl), compute_hmac-IsDigest col ns key fp e)
      at false true e = (
        codes "2",
        fingerprint_version_v2,
        inr (refl, refl),
        compute_hmac_v2-IsDigest col ns key fp e,
      )
      at false false e = absurd (cc)

  digest_parses :
      (v : ℤ) (digit key : Bytes) (fp : Fingerprint)
      → IsVersion v digit
      → (d : IsDigest v digit key fp)
      → parse fp.fingerprint
        ≡ ok (record {
          version = fp.version;
          algorithm = algorithm_of key;
          digest = d.digest;
          namespace = [];
        })
  digest_parses v digit key fp w d =
      rw (d.text, d.version)
        (parse-fingerprint_text digit (algorithm_of key) d.digest (version_digit-Lacks v digit w)
          (version_digit v digit w) (version_known v digit w) (algorithm_of-known (is_nil key))
          d.hex d.size)

  -- Every fingerprint that is computed, of either version, keyed or not, is a value that Parse accepts as a
  -- device binding: with its version, its algorithm and no namespace.
  pub compute_hmac_version-parse :
      (col : Collector) (product_namespace key : Bytes) (v : ℤ) (fp : Fingerprint)
      → compute_hmac_version h col product_namespace v key ≡ ok fp
      → (digest : Bytes) × (length digest ≡ sha256_hex_len)
        × (parse fp.fingerprint
            ≡ ok (record {
              version = fp.version;
              algorithm = algorithm_of key;
              digest = digest;
              namespace = [];
            }))
  compute_hmac_version-parse col product_namespace key v fp e =
      let (digit, w, known, d) = compute_hmac_version-IsDigest col product_namespace key v fp e in
      (d.digest, d.size, digest_parses w digit key fp known d)
