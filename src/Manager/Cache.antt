-- ===== src/Manager/Cache.antt =====
-- What a call of Validate leaves behind: the cached decision and the rollback file.
use grantseal.Prelude.{
  if◌then◌else◌, Bool, true, false, ◌&&◌, not, Option, none, some, Bytes, is_nil, ◌≡◌, ◌≢◌, ◌⊎◌,
  inl, inr, refl, ◌∙◌, sym, arith,
}
use grantseal.Prelude.Results.{Result, ok, err}
use grantseal.Code.{Code}
use grantseal.Time.{Time}
use grantseal.Verifier.{Library, VerifyResult}
use grantseal.AtomicFile.{File, Faults}
use grantseal.Rollback.{Codec}
use grantseal.Validator.{ValidationContext, ValidationResult, validate, is_usable}
use grantseal.Manager.{
  CachedResult, Manager, Outcome, invalidate_cache, fill_context, store_cache, authenticate_license,
  after_rollback, check_and_persist_rollback, authorize, validate_at, validate_license, fresh,
  cached_result,
}

-- Nothing is cached, or else the call reported no error and its result is what is cached.
abbrev pub CachesSuccess : Manager × Outcome → Type 0
CachesSuccess (m, o) =
    (m.cached ≡ none)
    ⊎ ((o.error ≡ none) × ((c : CachedResult) × (m.cached ≡ some c) × (c.result ≡ o.result)))

after_rollback-CachesSuccess :
    (now : Time) (r : ValidationResult) (m : Manager) (p : File × Result Code (Unit {0}))
    → m.cached ≡ none
    → CachesSuccess (after_rollback now r m p)
unfolding after_rollback store_cache
after_rollback-CachesSuccess now r m (file, err e) h = inl h
after_rollback-CachesSuccess now r m (file, ok u) h = inr (refl, (_, refl, refl))

if-CachesSuccess :
    (b : Bool) (p q : Manager × Outcome)
    → CachesSuccess p
    → CachesSuccess q
    → CachesSuccess (if b then p else q)
if-CachesSuccess true p q h k = h
if-CachesSuccess false p q h k = k

module _ (codec : Codec) (lib : Library) (faults : Faults) (ctx : ValidationContext) where
  authorize-CachesSuccess :
      (r : Result Code VerifyResult) (now : Time) (m : Manager)
      → m.cached ≡ none
      → CachesSuccess (authorize codec lib faults r now ctx m)
  unfolding authorize
  authorize-CachesSuccess (err e) now m h = inl h
  authorize-CachesSuccess (ok vr) now m h =
      if-CachesSuccess (not (is_usable (validate vr.payload now vr.key_id (fill_context m ctx)))) _
        _ (inl h)
        (after_rollback-CachesSuccess now (validate vr.payload now vr.key_id (fill_context m ctx)) m
          (check_and_persist_rollback codec lib faults m.rollback vr.payload now m.rollback_file) h)

  validate_license-CachesSuccess :
      (clock : Option Time) (wall : Time) (content : Bytes) (m : Manager)
      → CachesSuccess (validate_license codec lib faults clock wall content ctx m)
  unfolding validate_license validate_at
  validate_license-CachesSuccess none wall content m = inl refl
  validate_license-CachesSuccess (some now) wall content m =
      if-CachesSuccess (is_nil ctx.product_id && not m.unscoped_product) _ _ (inl refl) (
        authorize-CachesSuccess (authenticate_license lib m.ring content) now (invalidate_cache m)
          refl)

fresh-eq-some :
    (c : CachedResult) (clock : Option Time) (r : ValidationResult)
    → fresh c clock ≡ some r
    → c.result ≡ r
unfolding fresh
fresh-eq-some c none r h = ground arith
fresh-eq-some c (some now) r h = ground arith

cached-fresh :
    (c : CachedResult) (m : Manager) (clock : Option Time) (r : ValidationResult)
    → m.cached ≡ some c
    → cached_result m clock ≡ some r
    → c.result ≡ r
unfolding cached_result
cached-fresh c m clock r e h = fresh-eq-some c clock r (rw e at h)

none-fresh :
    (m : Manager) (clock : Option Time) (r : ValidationResult)
    → m.cached ≡ none
    → cached_result m clock ≢ some r
unfolding cached_result
none-fresh m clock r e h = let k = rw e at h in cc

-- The cache never outlives a failure: whatever was cached before, a decision read back after a call, at any
-- reading of the clock, is the result of that call, which reported no error.
pub cache_is_last_success :
    (codec : Codec) (lib : Library) (faults : Faults) (ctx : ValidationContext) (m : Manager)
    (clock later : Option Time) (wall : Time) (content : Bytes) (r : ValidationResult)
    → cached_result (validate_license codec lib faults clock wall content ctx m).0 later ≡ some r
    → ((validate_license codec lib faults clock wall content ctx m).1.error ≡ none)
      × ((validate_license codec lib faults clock wall content ctx m).1.result ≡ r)
cache_is_last_success codec lib faults ctx m clock later wall content r h =
    elim (validate_license-CachesSuccess codec lib faults ctx clock wall content m) [
      | inl empty ↦ absurd (
          none-fresh (validate_license codec lib faults clock wall content ctx m).0 later r empty h)
      | inr (done, (c, stored, same)) ↦ (
        done,
        sym same
            ∙ cached-fresh c (validate_license codec lib faults clock wall content ctx m).0 later r
                stored h,
      )
    ]
