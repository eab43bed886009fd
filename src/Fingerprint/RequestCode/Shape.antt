-- ===== src/Fingerprint/RequestCode/Shape.antt =====
-- The shape of a request code.
use grantseal.Prelude.{
  ℕ, zero, suc, ◌+◌, ◌*◌, ◌≤◌, ◌<◌, if◌then◌else◌, Bool, true, false, List, [], ◌∷◌, ◌++◌, Bytes,
  codes, cut, cut_prefix, join, length, take, drop, is_nil, ℤ, ◌≡◌, inl, inr, refl, ap, ◌∙◌, sym,
  subst, arith,
}
use grantseal.Prelude.Results.{ok, >>=-eq-ok, of_ok}
use grantseal.Fingerprint.Scheme.{is_lower_hex, fingerprint_version_v2, sha256_hex_len}
use grantseal.Fingerprint.Scheme.Forms.{fingerprint_text}
use grantseal.Fingerprint.Compute.{
  HashLibrary, Collector, Fingerprint, digits, format_int, compute_hmac_v2, compute_v2,
}
use grantseal.Fingerprint.RequestCode.{
  trim_prefix, strip_version, strip_fingerprint_prefixes, groups, request_code_from_fingerprint,
  request_code_v2, request_code_default,
}
use grantseal.Fingerprint.Compute.Codes.{
  IsHashLibrary, IsVersion, IsDigest, compute_hmac_v2-IsDigest,
}

-- The digest of a fingerprint text is what is left when its prefixes are stripped.
hex_untagged : (s : Bytes) → is_lower_hex s ≡ true → trim_prefix (codes "sha256:") s ≡ s
unfolding trim_prefix cut_prefix is_lower_hex
hex_untagged [] e = cc
hex_untagged (c ∷ s) e = ground arith

strip_text :
    (v : ℤ) (digit digest : Bytes) (keyless : Bool)
    → IsVersion v digit
    → is_lower_hex digest ≡ true
    → strip_fingerprint_prefixes
        (fingerprint_text digit (if keyless then codes "sha256" else codes "hmac-sha256") digest)
      ≡ digest
unfolding strip_fingerprint_prefixes strip_version cut_prefix cut trim_prefix
strip_text v digit digest true (inl (e, x)) hex = rw x refl
strip_text v digit digest true (inr (e, x)) hex = rw x refl
strip_text v digit digest false (inl (e, x)) hex = rw x (hex_untagged digest hex)
strip_text v digit digest false (inr (e, x)) hex = rw x (hex_untagged digest hex)

length-take : (n : ℕ) (s : Bytes) → n ≤ length s → length (take n s) ≡ n
length-take zero s h = refl
length-take (suc n) [] h = omega (arith, h)
length-take (suc n) (c ∷ s) h = let ih = length-take n s (omega (arith, h)) in omega (arith, ih)

length-drop : (n : ℕ) (s : Bytes) → n ≤ length s → length (drop n s) + n ≡ length s
length-drop zero s h = omega arith
length-drop (suc n) [] h = omega (arith, h)
length-drop (suc n) (c ∷ s) h = let ih = length-drop n s (omega (arith, h)) in omega (arith, ih)

take-drop : (n : ℕ) (s : Bytes) → take n s ++ drop n s ≡ s
take-drop zero s = refl
take-drop (suc n) [] = refl
take-drop (suc n) (c ∷ s) = ap (◌∷◌ c) (take-drop n s)

groups_step :
    (fuel : ℕ) (s : Bytes) → 0 < length s → groups (suc fuel) s ≡ take 4 s ∷ groups fuel (drop 4 s)
unfolding groups
groups_step fuel [] h = absurd (omega (arith, h))
groups_step fuel (c ∷ s) h = refl

-- The groups of a text of `4 * count` bytes: as many, of four bytes each, that make up the text.
abbrev pub AreFours : ℕ → List Bytes → Bytes → Type 0
AreFours zero gs s = (gs ≡ []) × (s ≡ [])
AreFours (suc count) [] s = ⊥
AreFours (suc count) (g ∷ gs) s =
    (length g ≡ 4) × ((rest : Bytes) × (s ≡ g ++ rest) × AreFours count gs rest)

groups-AreFours :
    (count fuel : ℕ) (s : Bytes)
    → count < fuel
    → length s ≡ 4 * count
    → AreFours count (groups fuel s) s
groups-AreFours count zero s w h = absurd (omega (arith, w))
groups-AreFours zero (suc fuel) [] w h = unfold groups in (refl, refl)
groups-AreFours zero (suc fuel) (c ∷ s) w h = absurd (omega (arith, h))
groups-AreFours (suc count) (suc fuel) s w h =
    let left = length-drop 4 s (omega (arith, h)) in
    rw (groups_step fuel s (omega (arith, h))) (
      length-take 4 s (omega (arith, h)),
      (
        drop 4 s,
        sym (take-drop 4 s),
        groups-AreFours count fuel (drop 4 s) (omega (arith, w)) (omega (arith, left, h)),
      ),
    )

-- A request code: the version of the scheme and five groups of four characters, with dashes between them; the
-- groups are the first twenty digits of the digest in upper case.
pub record IsRequestCode (h : HashLibrary) (label digest code : Bytes) : Type 0 where
  pub parts : List Bytes
  pub fours : AreFours 5 parts (h.to_upper (take 20 digest))
  pub text : code ≡ join 45 (label ∷ parts)

module _ (h : HashLibrary) (laws : IsHashLibrary h) where
  code_of_digest :
      (v : ℤ) (digit key : Bytes) (fp : Fingerprint)
      → IsVersion v digit
      → (d : IsDigest v digit key fp)
      → IsRequestCode h (codes "V" ++ format_int v) d.digest (request_code_from_fingerprint h fp)
  unfolding request_code_from_fingerprint
  code_of_digest v digit key fp w d =
      let stripped =
        ap strip_fingerprint_prefixes d.text ∙ strip_text v digit d.digest (is_nil key) w d.hex in
      let twenty = length-take 20 d.digest (omega (arith, d.size)) in
      let upper = laws.upper_length 20 d.digest d.hex ∙ twenty in
      record {
        parts = groups 20 (h.to_upper (take 20 d.digest));
        fours =
            groups-AreFours 5 20 (h.to_upper (take 20 d.digest)) (omega arith)
              (upper ∙ (omega arith));
        text = rw (stripped, d.version, upper) refl;
      }

  -- The request code of a device, which version 2 computes, is "V2" and five groups of four characters.
  pub request_code_default-IsRequestCode :
      (col : Collector) (product_namespace code : Bytes)
      → request_code_default h col product_namespace ≡ ok code
      → (digest : Bytes) × (length digest ≡ sha256_hex_len)
        × IsRequestCode h (codes "V2") digest code
  unfolding request_code_default request_code_v2 compute_v2
  request_code_default-IsRequestCode col product_namespace code e =
      let (fp, computed, is_code) = >>=-eq-ok (compute_hmac_v2 h col product_namespace []) _ e in
      let d = compute_hmac_v2-IsDigest h laws col product_namespace [] fp computed in
      (
        d.digest,
        d.size,
        subst (IsRequestCode h (codes "V2") d.digest) (of_ok is_code) (
            labelled (request_code_from_fingerprint h fp) d.digest
              (code_of_digest fingerprint_version_v2 (codes "2") [] fp (inr (refl, refl)) d)),
      )
    where
      labelled :
          (code digest : Bytes)
          → IsRequestCode h (codes "V" ++ format_int fingerprint_version_v2) digest code
          → IsRequestCode h (codes "V2") digest code
      labelled code digest r = unfold format_int digits in r
