-- ===== src/Json/Strict.antt =====
-- pkg/license/strictjson.go: the scan for duplicate keys and the strict decoding. The decoder of encoding/json
-- is what it yields: its tokens up to the first error or the end of the input.
pub mod Unique
mod Tests
use grantseal.Prelude.{
  ℕ, zero, suc, ltb, if◌then◌else◌, Bool, true, false, ◌&&◌, not, Option, none, some, List, [], ◌∷◌,
  Bytes, eqb, any, length, is_nil,
}
use grantseal.Prelude.Results.{Result, ok, err, ◌>>=◌, ◌>>◌, fail_if}
use grantseal.Code.{Code, malformed, file_too_large}

pub data Token : Type 0 where
  open_object close_object open_array close_array : Token
  string_token : Bytes → Token
  scalar_token : Bytes → Token

-- walkNoDupKeys, walkObject with the keys that were seen, and walkArray. More is false at a closing delimiter and
-- where there is no token; the decoder itself refuses a delimiter that does not match. A value with
-- all its delimiters uses at most one unit of fuel for each of its tokens; other tokens are refused with any fuel.
unfoldable mutual
  pub walk_no_dup_keys : ℕ → List Token → Result Code (List Token)
  walk_no_dup_keys zero ts = err malformed
  walk_no_dup_keys (suc fuel) [] = err malformed
  walk_no_dup_keys (suc fuel) (open_object ∷ ts) = walk_object fuel [] ts
  walk_no_dup_keys (suc fuel) (open_array ∷ ts) = walk_array fuel ts
  walk_no_dup_keys (suc fuel) (close_object ∷ ts) = err malformed
  walk_no_dup_keys (suc fuel) (close_array ∷ ts) = err malformed
  walk_no_dup_keys (suc fuel) (string_token s ∷ ts) = ok ts
  walk_no_dup_keys (suc fuel) (scalar_token s ∷ ts) = ok ts

  pub walk_object : ℕ → List Bytes → List Token → Result Code (List Token)
  walk_object zero seen ts = err malformed
  walk_object (suc fuel) seen [] = err malformed
  walk_object (suc fuel) seen (close_object ∷ ts) = ok ts
  walk_object (suc fuel) seen (string_token key ∷ ts) =
      let rest = walk_no_dup_keys fuel ts >>= walk_object fuel (key ∷ seen) in
      if any (λ k. eqb k key) seen then err malformed else rest
  walk_object (suc fuel) seen (open_object ∷ ts) = err malformed
  walk_object (suc fuel) seen (open_array ∷ ts) = err malformed
  walk_object (suc fuel) seen (close_array ∷ ts) = err malformed
  walk_object (suc fuel) seen (scalar_token s ∷ ts) = err malformed

  pub walk_array : ℕ → List Token → Result Code (List Token)
  walk_array zero ts = err malformed
  walk_array (suc fuel) [] = err malformed
  walk_array (suc fuel) (close_array ∷ ts) = ok ts
  walk_array (suc fuel) (close_object ∷ ts) = err malformed
  walk_array (suc fuel) (open_object ∷ ts) =
      walk_no_dup_keys fuel (open_object ∷ ts) >>= walk_array fuel
  walk_array (suc fuel) (open_array ∷ ts) =
      walk_no_dup_keys fuel (open_array ∷ ts) >>= walk_array fuel
  walk_array (suc fuel) (string_token s ∷ ts) =
      walk_no_dup_keys fuel (string_token s ∷ ts) >>= walk_array fuel
  walk_array (suc fuel) (scalar_token s ∷ ts) =
      walk_no_dup_keys fuel (scalar_token s ∷ ts) >>= walk_array fuel

-- What a decoder yields for an input: the tokens, and whether the input ends after them (io.EOF) or in an error.
pub record Scan : Type 0 where
  pub tokens : List Token
  pub at_end : Bool

-- rejectDuplicateKeys past the first value
unfoldable pub check_end : Bool → List Token → Result Code (Unit {0})
check_end at_end [] = fail_if (not at_end) malformed
check_end at_end (t ∷ ts) = err malformed

-- rejectDuplicateKeys
unfoldable pub reject_duplicate_keys : Scan → Result Code (Unit {0})
reject_duplicate_keys s =
    walk_no_dup_keys (suc (suc (length s.tokens))) s.tokens >>= check_end s.at_end

-- `scan` is json.NewDecoder, `decode` its Decode with DisallowUnknownFields into a value, and `exhausted` tells
-- that the next token after that value is io.EOF.
pub record Decoder (A : Type 0) : Type 0 where
  pub scan : Bytes → Scan
  pub decode : Bytes → Option A
  pub exhausted : Bytes → Bool

abbrev pub or_decode_error : {A : Type 0} → Option A → Result Code A
or_decode_error none = err malformed
or_decode_error (some a) = ok a

-- decodeStrictJSON and DecodeStrictJSON
unfoldable pub decode_strict_json : {A : Type 0} → Decoder A → Bytes → ℕ → Result Code A
decode_strict_json d content max_size = do
  fail_if (is_nil content) malformed
  fail_if (ltb 0 max_size && ltb max_size (length content)) file_too_large
  reject_duplicate_keys (d.scan content)
  value ← or_decode_error (d.decode content)
  fail_if (not (d.exhausted content)) malformed
  ok value
