-- ===== src/Payload/Errors.antt =====
-- The codes with which static validation of model.go refuses a payload.
use grantseal.Prelude.{
  is_nil, ltb_ℤ, pos, Bool, true, false, Option, none, some, List, [], ◌∷◌, Bytes, ℤ, ◌≡◌, subst,
  if◌then◌else◌,
}
use grantseal.Prelude.Results.{ok, err, ◌>>◌, fail_if}
use grantseal.Code.{Code, malformed, unsupported_schema, invalid_enum, invalid_limits}
use grantseal.Time.{Time}
use grantseal.Payload.{
  Payload, DeviceBinding, Check, validate_identity, validate_cardinality, validate_enums,
  validate_metadata, validate_caps, validate_device_ids, validate_device_id_format,
  validate_limits_range, validate_expiry_presence, validate_time_semantics, validate_static,
  max_limit_value,
}

pub data IsStaticCode : Code → Type 0 where
  malformed_code : IsStaticCode malformed
  schema_code : IsStaticCode unsupported_schema
  enum_code : IsStaticCode invalid_enum
  limits_code : IsStaticCode invalid_limits

-- Whatever error the check returns, its code is one of the four.
record Refuses (m : Check) : Type 0 where
  code : (c : Code) → m ≡ err c → IsStaticCode c

of_err : (c d : Code) → ◌≡◌ {A = Check} (err c) (err d) → c ≡ d
of_err c d h = cc

Refuses-fail_if : (b : Bool) (c : Code) → IsStaticCode c → Refuses (fail_if b c)
Refuses-fail_if true c h = record { code = λ d e. subst IsStaticCode (of_err c d e) h }
Refuses-fail_if false c h = record { code = λ d e. cc }

Refuses-ok : Refuses (ok tt)
Refuses-ok = record { code = λ d e. cc }

Refuses->> : (m k : Check) → Refuses m → Refuses k → Refuses (m >> k)
Refuses->> (ok tt) k h r = r
Refuses->> (err c) k h r = record { code = λ d e. h.code d (e) }

Refuses-if : (b : Bool) (m k : Check) → Refuses m → Refuses k → Refuses (if b then m else k)
Refuses-if true m k h r = h
Refuses-if false m k h r = r

ruleset refusal = (
  Refuses-fail_if, Refuses-ok, Refuses->>, Refuses-if, malformed_code, schema_code, enum_code,
  limits_code,
)

identity-Refuses : (p : Payload) → Refuses (validate_identity p)
unfolding validate_identity
identity-Refuses p = search refusal depth 12

cardinality-Refuses : (b : DeviceBinding) → Refuses (validate_cardinality b)
unfolding validate_cardinality
cardinality-Refuses b = search refusal depth 12

enums-Refuses : (p : Payload) → Refuses (validate_enums p)
unfolding validate_enums
enums-Refuses p = search (refusal, cardinality-Refuses) depth 12

metadata-Refuses : (m : List (Bytes × Bytes)) → Refuses (validate_metadata m)
unfolding validate_metadata
metadata-Refuses [] = Refuses-ok
metadata-Refuses ((k, v) ∷ m) =
    Refuses->> _ _ (Refuses-fail_if _ invalid_limits limits_code)
      (Refuses->> _ _ (Refuses-fail_if _ invalid_limits limits_code) (metadata-Refuses m))

caps-Refuses : (p : Payload) → Refuses (validate_caps p)
unfolding validate_caps
caps-Refuses p = search (refusal, metadata-Refuses) depth 14

ids-Refuses : (ids : List Bytes) → Refuses (validate_device_ids ids)
unfolding validate_device_ids
ids-Refuses [] = Refuses-ok
ids-Refuses (id ∷ ids) =
    Refuses->> _ _ (Refuses-fail_if _ malformed malformed_code) (ids-Refuses ids)

format-Refuses : (b : DeviceBinding) → Refuses (validate_device_id_format b)
unfolding validate_device_id_format
format-Refuses b = search (refusal, ids-Refuses) depth 8

limits-Refuses : (m : List (Bytes × ℤ)) → Refuses (validate_limits_range m)
unfolding validate_limits_range
limits-Refuses [] = Refuses-ok
limits-Refuses ((k, v) ∷ m) =
    Refuses->> _ _ (Refuses-fail_if (is_nil k) invalid_limits limits_code) (
      Refuses->> _ _ (Refuses-fail_if (ltb_ℤ v (pos 0)) invalid_limits limits_code) (
        Refuses->> _ _ (Refuses-fail_if (ltb_ℤ max_limit_value v) invalid_limits limits_code)
          (limits-Refuses m)))

presence-Refuses : (t : Bytes) (e : Option Time) → Refuses (validate_expiry_presence t e)
unfolding validate_expiry_presence
presence-Refuses t e = search refusal depth 12

times-Refuses : (p : Payload) → Refuses (validate_time_semantics p)
unfolding validate_time_semantics
times-Refuses p = search (refusal, presence-Refuses) depth 12

static-Refuses : (p : Option Payload) → Refuses (validate_static p)
unfolding validate_static
static-Refuses none = record {
  code = λ d e. subst IsStaticCode (of_err malformed d e) malformed_code;
}
static-Refuses (some p) =
    search
      (
        Refuses->>, identity-Refuses, enums-Refuses, caps-Refuses, format-Refuses, limits-Refuses,
        times-Refuses,
      )
      depth 12

-- Static validation refuses a payload only as malformed, of an unsupported schema, with an unknown
-- enumeration value, or over a limit.
pub validate_static-code :
    (p : Option Payload) {c : Code} → validate_static p ≡ err c → IsStaticCode c
validate_static-code p {c} h = (static-Refuses p).code c h
