-- ===== src/Manager.antt =====
-- pkg/license/manager.go: the facade that authenticates a license, applies the policy, advances the
-- rollback mark and caches the last success. The file of the rollback store is part of the state; the
-- readings of the clocks and the failures of system calls are arguments.
pub mod Cache
pub mod Grants
mod Options
pub mod RollbackFile
mod Tests
use grantseal.Prelude.{
  ℕ, ltb, ◌==◌, if◌then◌else◌, Bool, true, false, ◌&&◌, not, Option, none, some, Bytes, length, eqb,
  is_nil, ℤ, pos, ltb_ℤ,
}
use grantseal.Prelude.Results.{Result, ok, err, ◌>>=◌, ◌>>◌, fail_if}
use grantseal.Code.{
  Code, file_not_found, file_too_large, malformed, clock_rollback, product_required,
}
use grantseal.Time.{Time, zero_time, is_zero, after}
use grantseal.Payload.{Payload, license_type_lifetime, max_license_file_size}
use grantseal.KeyRing.{KeyRing}
use grantseal.Verifier.{Envelope, Library, VerifyResult, parse_envelope, verify}
use grantseal.AtomicFile.{File, Faults}
use grantseal.Rollback.{Codec, RollbackStore, check_and_save}
use grantseal.Validator.{ValidationContext, ValidationResult, validate, is_usable, invalid_result}

pub record CachedResult : Type 0 where
  pub result : ValidationResult
  pub expires_at : Time

pub record Manager : Type 0 where
  pub ring : KeyRing
  pub rollback : Option RollbackStore
  pub revocation : Option (Bytes → Bool)
  pub skew : ℤ
  pub unscoped_product : Bool
  pub cached : Option CachedResult
  pub rollback_file : File

-- What a method returns besides the state: the result, and the code of the error if there is one.
pub record Outcome : Type 0 where
  pub result : ValidationResult
  pub error : Option Code

-- InvalidateCache
abbrev pub invalidate_cache : Manager → Manager
invalidate_cache m = record m { cached = none }

-- return invalidResult(code, now), err
abbrev pub reject : Code → Time → Manager → Manager × Outcome
reject code now m = (m, record { result = invalid_result code now; error = some code })

-- The provider and the skew of the manager stand in for those that the context leaves out.
unfoldable pub fill_context : Manager → ValidationContext → ValidationContext
fill_context m ctx = record ctx {
  revocation = elim ctx.revocation [ none ↦ m.revocation | some r ↦ some r ];
  clock_skew = if ltb_ℤ (pos 0) ctx.clock_skew then ctx.clock_skew else m.skew;
}

abbrev pub or_else : Option Time → Time → Time
or_else none t = t
or_else (some u) t = u

-- storeCache
unfoldable pub store_cache : ValidationResult → Manager → Manager
store_cache r m = record m {
  cached =
      some (record {
        result = r;
        expires_at = or_else r.grace_until (or_else r.expires_at zero_time);
      });
}

-- ParseEnvelope and Verify behind the size cap
unfoldable pub authenticate_license : Library → KeyRing → Bytes → Result Code VerifyResult
authenticate_license lib ring content =
    fail_if (ltb max_license_file_size (length content)) file_too_large
    >> (parse_envelope lib content >>= verify lib ring)

unfoldable pub after_rollback :
    Time → ValidationResult → Manager → File × Result Code (Unit {0}) → Manager × Outcome
after_rollback now result m (file, err e) = reject e now (record m { rollback_file = file })
after_rollback now result m (file, ok u) = (
  store_cache result (record m { rollback_file = file }),
  record { result = result; error = none },
)

module _ (codec : Codec) (lib : Library) (faults : Faults) where
  -- checkAndPersistRollback, if there is a store
  unfoldable pub check_and_persist_rollback :
      Option RollbackStore → Payload → Time → File → File × Result Code (Unit {0})
  check_and_persist_rollback none p now file = (file, ok tt)
  check_and_persist_rollback (some store) p now file =
      if eqb p.license_type license_type_lifetime
      then (file, ok tt)
      else check_and_save codec store faults now file

  -- The second and third steps of Validate
  unfoldable pub authorize :
      Result Code VerifyResult → Time → ValidationContext → Manager → Manager × Outcome
  authorize (err e) now ctx m = reject e now m
  authorize (ok vr) now ctx m =
      let result = validate vr.payload now vr.key_id (fill_context m ctx) in
      if not (is_usable result)
      then (m, record { result = result; error = some result.code })
      else after_rollback now result m
          (check_and_persist_rollback m.rollback vr.payload now m.rollback_file)

  -- Validate once the trusted clock was read
  unfoldable pub validate_at : Time → Bytes → ValidationContext → Manager → Manager × Outcome
  validate_at now content ctx m =
      if is_nil ctx.product_id && not m.unscoped_product
      then reject product_required now m
      else authorize (authenticate_license lib m.ring content) now ctx m

  -- Validate: `clock` is the reading of the trusted clock, and `wall` that of the local one.
  unfoldable pub validate_license :
      Option Time → Time → Bytes → ValidationContext → Manager → Manager × Outcome
  validate_license none wall content ctx m = reject clock_rollback wall (invalidate_cache m)
  validate_license (some now) wall content ctx m = validate_at now content ctx (invalidate_cache m)

-- What os.Stat says of a license file.
pub data Stat : Type 0 where
  missing : Stat
  unreadable : Stat
  size : ℕ → Stat

-- LoadAndValidate past the size check, with what os.ReadFile returned
unfoldable pub validate_read :
    Codec
    → Library
    → Faults
    → Option Bytes
    → Option Time
    → Time
    → ValidationContext
    → Manager
    → Manager × Outcome
validate_read codec lib faults none clock wall ctx m = reject malformed wall (invalidate_cache m)
validate_read codec lib faults (some content) clock wall ctx m =
    validate_license codec lib faults clock wall content ctx m

-- LoadAndValidate
unfoldable pub load_and_validate :
    Codec
    → Library
    → Faults
    → Stat
    → Option Bytes
    → Option Time
    → Time
    → ValidationContext
    → Manager
    → Manager × Outcome
load_and_validate codec lib faults missing read clock wall ctx m =
    reject file_not_found wall (invalidate_cache m)
load_and_validate codec lib faults unreadable read clock wall ctx m =
    reject malformed wall (invalidate_cache m)
load_and_validate codec lib faults (size n) read clock wall ctx m =
    if ltb max_license_file_size n
    then reject file_too_large wall (invalidate_cache m)
    else validate_read codec lib faults read clock wall ctx m

-- CachedResult, with the reading of the trusted clock
unfoldable pub fresh : CachedResult → Option Time → Option ValidationResult
fresh c none = if is_zero c.expires_at then some c.result else none
fresh c (some now) =
    if is_zero c.expires_at
    then some c.result
    else if after now c.expires_at
    then none
    else some c.result

unfoldable pub cached_result : Manager → Option Time → Option ValidationResult
cached_result m clock = elim m.cached [ none ↦ none | some c ↦ fresh c clock ]

-- The first steps of Inspect, whose clock reading is not used by the verifier.
unfoldable pub inspect : Library → Manager → Bytes → Result Code Payload
inspect lib m content = parse_envelope lib content >>= verify lib m.ring >>= λ vr. ok vr.payload
