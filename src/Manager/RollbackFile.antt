-- ===== src/Manager/RollbackFile.antt =====
-- When the facade touches the file of the rollback store.
use grantseal.Prelude.{
  if◌then◌else◌, Bool, true, false, ◌&&◌, not, Option, none, some, Bytes, eqb, eqb_iff, is_nil, ◌≡◌,
  ◌≢◌, ◌⊎◌, inl, inr, refl, ◌∙◌, Bool-cases,
}
use grantseal.Prelude.Results.{Result, ok, err}
use grantseal.Code.{Code, product_required}
use grantseal.Time.{Time}
use grantseal.Payload.{Payload, license_type_lifetime}
use grantseal.Verifier.{Library, VerifyResult}
use grantseal.AtomicFile.{File, Faults}
use grantseal.Rollback.{Codec, RollbackStore}
use grantseal.Validator.{ValidationContext, ValidationResult, validate, is_usable, invalid_result}
use grantseal.Manager.{
  Manager, invalidate_cache, fill_context, store_cache, authenticate_license, after_rollback,
  check_and_persist_rollback, authorize, validate_at, validate_license,
}

after_rollback-file :
    (now : Time) (r : ValidationResult) (m : Manager) (p : File × Result Code (Unit {0}))
    → (after_rollback now r m p).0.rollback_file ≡ p.0
unfolding after_rollback store_cache
after_rollback-file now r m (file, err e) = refl
after_rollback-file now r m (file, ok u) = refl

module _ (codec : Codec) (lib : Library) (faults : Faults) (ctx : ValidationContext) where
  -- A license that is authentic, usable and not a lifetime license.
  abbrev pub MayAdvance : Manager → Time → Result Code VerifyResult → Type 0
  MayAdvance m now r =
      (vr : VerifyResult) × (r ≡ ok vr)
      × (is_usable (validate vr.payload now vr.key_id (fill_context m ctx)) ≡ true)
      × (vr.payload.license_type ≢ license_type_lifetime)

  persist_file :
      (store : Option RollbackStore) (p : Payload) (now : Time) (file : File)
      → ((check_and_persist_rollback codec lib faults store p now file).0 ≡ file)
        ⊎ (p.license_type ≢ license_type_lifetime)
  unfolding check_and_persist_rollback
  persist_file none p now file = inl refl
  persist_file (some store) p now file =
      elim (Bool-cases (eqb p.license_type license_type_lifetime)) [
        | inl lifetime ↦ inl (rw lifetime refl)
        | inr limited ↦ inr (λ e. cc (limited, (eqb_iff p.license_type license_type_lifetime).1 e))
      ]

  authorize_file :
      (r : Result Code VerifyResult) (now : Time) (m : Manager)
      → ((authorize codec lib faults r now ctx m).0.rollback_file ≡ m.rollback_file)
        ⊎ MayAdvance m now r
  unfolding authorize
  authorize_file (err e) now m = inl refl
  authorize_file (ok vr) now m =
      decided (is_usable (validate vr.payload now vr.key_id (fill_context m ctx))) refl
    where
      result : ValidationResult
      result = validate vr.payload now vr.key_id (fill_context m ctx)

      written : File × Result Code (Unit {0})
      written =
          check_and_persist_rollback codec lib faults m.rollback vr.payload now m.rollback_file

      decided :
          (b : Bool)
          → is_usable result ≡ b
          → ((if not b
                then (m, record { result = result; error = some result.code })
                else after_rollback now result m written).0.rollback_file
              ≡ m.rollback_file)
            ⊎ MayAdvance m now (ok vr)
      decided false h = inl refl
      decided true h = elim (persist_file m.rollback vr.payload now m.rollback_file) [
        | inl same ↦ inl (after_rollback-file now result m written ∙ same)
        | inr limited ↦ inr (vr, refl, h, limited)
      ]

-- The rollback file stays as it was, or else the trusted clock was read, the license is authentic and the
-- policy grants it at that time, and it is not a lifetime license.
pub rollback_file_guarded :
    (codec : Codec) (lib : Library) (faults : Faults) (ctx : ValidationContext) (m : Manager)
    (clock : Option Time) (wall : Time) (content : Bytes)
    → ((validate_license codec lib faults clock wall content ctx m).0.rollback_file
        ≡ m.rollback_file)
      ⊎ ((now : Time) × (clock ≡ some now)
          × MayAdvance codec lib faults ctx m now (authenticate_license lib m.ring content))
unfolding validate_license validate_at fill_context
rollback_file_guarded codec lib faults ctx m none wall content = inl refl
rollback_file_guarded codec lib faults ctx m (some now) wall content =
    guarded (is_nil ctx.product_id && not m.unscoped_product)
  where
    guarded :
        (b : Bool)
        → ((if b
              then (
                invalidate_cache m,
                record {
                  result = invalid_result product_required now;
                  error = some product_required;
                },
              )
              else authorize codec lib faults
                  (authenticate_license lib m.ring content)
                  now
                  ctx
                  (invalidate_cache m)).0.rollback_file
            ≡ m.rollback_file)
          ⊎ ((t : Time) × (some now ≡ some t)
              × MayAdvance codec lib faults ctx m t (authenticate_license lib m.ring content))
    guarded true = inl refl
    guarded false =
        elim (authorize_file codec lib faults ctx (authenticate_license lib m.ring content) now
          (invalidate_cache m)) [ inl same ↦ inl same | inr advance ↦ inr (now, refl, advance) ]
