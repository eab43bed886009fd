-- ===== src/Fingerprint/Scheme/Tests.antt =====
-- Runs of scheme.go on concrete values.
use grantseal.Prelude.{◌≡◌, inr, refl, codes, pos, [], Bytes, all-Lacks}
use grantseal.Prelude.Results.{ok, err}
use grantseal.Fingerprint.Scheme.{
  parse, malformed_scheme, unknown_version, unknown_algorithm, invalid_digest, atoi,
  known_algorithm, is_lower_hex, is_digit, decimal,
}
use grantseal.Fingerprint.Scheme.Forms.{fingerprint_text, parse-fingerprint_text}

rejected :
    (parse (codes "sha256:abc") ≡ err malformed_scheme)
    × (parse (codes "fp:v3:sha256:00") ≡ err unknown_version)
    × (parse (codes "fp:v2:md5:00") ≡ err unknown_algorithm)
    × (parse (codes "fp:v2:sha256:00") ≡ err invalid_digest)
unfolding parse
rejected = (refl, refl, refl, refl)

-- Thirty-two times "a0".
abbrev some_digest : Bytes
some_digest = codes "a0a0a0a0a0a0a0a0a0a0a0a0a0a0a0a0a0a0a0a0a0a0a0a0a0a0a0a0a0a0a0a0"

parse-fingerprint_text_example :
    parse (fingerprint_text (codes "2") (codes "sha256") some_digest)
    ≡ ok (record {
      version = pos 2;
      algorithm = codes "sha256";
      digest = some_digest;
      namespace = [];
    })
unfolding atoi known_algorithm is_lower_hex decimal
parse-fingerprint_text_example =
    parse-fingerprint_text (codes "2") (codes "sha256") some_digest
      (all-Lacks is_digit b':' (codes "2") refl refl) refl (inr refl) refl refl refl
