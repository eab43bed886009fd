-- ===== src/Manager/Grants.antt =====
-- When the facade reports no error, and what it writes.
use grantseal.Prelude.{
  ℕ, ◌≤◌, ltb, if◌then◌else◌, Bool, true, false, ◌&&◌, not, Option, none, some, [], ◌∷◌, Bytes,
  length, is_nil, ◌≡◌, ◌≢◌, ◌↔◌, ◌⊎◌, inl, inr, refl, sym, subst, arith, ap, eqb, eqb_iff,
}
use grantseal.Prelude.Results.{
  Result, ok, err, ◌>>=◌, ◌>>◌, fail_if, >>=-eq-ok, >>-eq-ok, fail_if-eq-ok,
}
use grantseal.Prelude.Options.{of_some}
use grantseal.Code.{Code, file_too_large, product_required}
use grantseal.Time.{Time}
use grantseal.Payload.{Payload, max_license_file_size, license_type_lifetime}
use grantseal.KeyRing.{KeyRing}
use grantseal.Verifier.{Envelope, Library, VerifyResult, parse_envelope, verify}
use grantseal.Verifier.Authentic.{IsAuthentic, verify_iff}
use grantseal.AtomicFile.{File, Faults}
use grantseal.Rollback.{Codec, RollbackStore, check_and_save}
use grantseal.Rollback.Advance.{Advances, check_and_save_iff}
use grantseal.Validator.{ValidationContext, ValidationResult, validate, is_usable, invalid_result}
use grantseal.Validator.Decision.{IsGranted, skew_of, validate_iff}
use grantseal.Manager.{
  Manager, Outcome, invalidate_cache, fill_context, authenticate_license, after_rollback,
  check_and_persist_rollback, authorize, validate_at, validate_license, store_cache,
}

module _ (codec : Codec) (lib : Library) (faults : Faults) (ctx : ValidationContext)
    (m : Manager) where
  -- How the rollback file comes to hold `left`: a store advances its mark for a license that is not a lifetime
  -- license, and nothing else changes the file.
  abbrev pub Marks : Option RollbackStore → Payload → Time → File → File → Type 0
  Marks none p now file left = left ≡ file
  Marks (some store) p now file left =
      ((p.license_type ≡ license_type_lifetime) × (left ≡ file))
      ⊎ ((p.license_type ≢ license_type_lifetime) × Advances codec store faults now file left)

  -- Everything that a license must meet at the instant `now`, and the rollback file that is left.
  pub record IsPermitted (content : Bytes) (now : Time) (vr : VerifyResult) (left : File)
      : Type 0 where
    pub scoped : (ctx.product_id ≢ []) ⊎ (m.unscoped_product ≡ true)
    pub small : length content ≤ max_license_file_size
    pub env : Envelope
    pub parsed : parse_envelope lib content ≡ ok env
    pub authentic : IsAuthentic lib m.ring env vr
    pub granted : IsGranted vr.payload now (skew_of (fill_context m ctx)) (fill_context m ctx)
    pub mark : Marks m.rollback vr.payload now m.rollback_file left

-- A call reports no error and leaves the rollback file `left`.
abbrev pub Passes : Manager × Outcome → File → Type 0
Passes (m, o) left = (o.error ≡ none) × (m.rollback_file ≡ left)

after_rollback-error :
    (now : Time) (r : ValidationResult) (m : Manager) (p : File × Result Code (Unit {0}))
    (left : File)
    → Passes (after_rollback now r m p) left ↔ (p ≡ (left, ok tt))
unfolding after_rollback store_cache
after_rollback-error now r m (file, err e) left = (λ (h, k). absurd (cc), λ h. absurd (cc))
after_rollback-error now r m (file, ok u) left =
    (λ (h, k). ap (λ f. (f, ok tt)) k, λ h. (refl, ap (λ q. q.0) h))

product_guard :
    (ctx : ValidationContext) (m : Manager)
    → (is_nil ctx.product_id && not m.unscoped_product ≡ false)
      ↔ ((ctx.product_id ≢ []) ⊎ (m.unscoped_product ≡ true))
product_guard ctx m = go ctx.product_id m.unscoped_product
  where
    neither : ((◌≢◌ {A = Bytes} [] []) ⊎ (false ≡ true)) → (true && true) ≡ false
    neither (inl n) = absurd (n refl)
    neither (inr e) = cc

    go : (id : Bytes) (b : Bool) → (is_nil id && not b ≡ false) ↔ ((id ≢ []) ⊎ (b ≡ true))
    go [] true = (λ h. inr refl, λ h. refl)
    go [] false = (λ h. cc, λ h. neither h)
    go (c ∷ id) b = (λ h. inl (λ e. cc), λ h. refl)

authenticate_iff :
    (lib : Library) (ring : KeyRing) (content : Bytes) (vr : VerifyResult)
    → (authenticate_license lib ring content ≡ ok vr) ↔ (
        (length content ≤ max_license_file_size)
        × ((env : Envelope) × (parse_envelope lib content ≡ ok env) × IsAuthentic lib ring env vr))
unfolding authenticate_license
authenticate_iff lib ring content vr = (forth, back)
  where
    forth :
        (fail_if (ltb max_license_file_size (length content)) file_too_large
            >> (parse_envelope lib content >>= verify lib ring))
          ≡ ok vr
        → (length content ≤ max_license_file_size)
          × ((env : Envelope) × (parse_envelope lib content ≡ ok env) × IsAuthentic lib ring env vr)
    forth h =
        let (small, rest) =
          >>-eq-ok (fail_if (ltb max_license_file_size (length content)) file_too_large) _ h in
        let (env, parsed, verified) =
          >>=-eq-ok (parse_envelope lib content) (verify lib ring) rest in
        (
          short (length content) (fail_if-eq-ok _ file_too_large small),
          (env, parsed, (verify_iff lib ring env vr).0 verified),
        )
      where
        short : (n : ℕ) → ltb max_license_file_size n ≡ false → n ≤ max_license_file_size
        short n h = ground arith

    back :
        (length content ≤ max_license_file_size)
          × ((env : Envelope) × (parse_envelope lib content ≡ ok env) × IsAuthentic lib ring env vr)
        → (fail_if (ltb max_license_file_size (length content)) file_too_large
            >> (parse_envelope lib content >>= verify lib ring))
          ≡ ok vr
    back (small, (env, parsed, authentic)) =
        rw (fits (length content) small, parsed, (verify_iff lib ring env vr).1 authentic) refl
      where
        fits : (n : ℕ) → n ≤ max_license_file_size → ltb max_license_file_size n ≡ false
        fits n h = ground arith

module _ (codec : Codec) (lib : Library) (faults : Faults) (ctx : ValidationContext)
    (m : Manager) where
  marks_iff :
      (store : Option RollbackStore) (p : Payload) (now : Time) (file left : File)
      → (check_and_persist_rollback codec lib faults store p now file ≡ (left, ok tt))
        ↔ Marks codec lib faults ctx m store p now file left
  unfolding check_and_persist_rollback
  marks_iff none p now file left = (λ h. ap (λ q. q.0) (sym h), λ h. ap (λ f. (f, ok tt)) (sym h))
  marks_iff (some store) p now file left =
      lifetime (eqb p.license_type license_type_lifetime)
        (eqb_iff p.license_type license_type_lifetime)
    where
      lifetime :
          (b : Bool)
          → ((b ≡ true) ↔ (p.license_type ≡ license_type_lifetime))
          → ((if b then (file, ok tt) else check_and_save codec store faults now file)
              ≡ (left, ok tt))
            ↔ Marks codec lib faults ctx m (some store) p now file left
      lifetime true e = (
        λ h. inl (e.0 refl, ap (λ q. q.0) (sym h)),
        λ h. elim h [
          | inl (l, k) ↦ ap (λ f. (f, ok tt)) (sym k)
          | inr (n, k) ↦ absurd (n (e.0 refl))
        ],
      )
      lifetime false e = (
        λ h. inr (λ l. cc (e.1 l), (check_and_save_iff codec store faults now file left).0 h),
        λ h. elim h [
          | inl (l, k) ↦ absurd (cc (e.1 l))
          | inr (n, k) ↦ (check_and_save_iff codec store faults now file left).1 k
        ],
      )

  usable_guard :
      (b : Bool) (r : ValidationResult) (c : Code) (p : Manager × Outcome) (left : File)
      → Passes (if not b then (m, record { result = r; error = some c }) else p) left
        ↔ ((b ≡ true) × Passes p left)
  usable_guard true r c p left = (λ h. (refl, h), λ (e, h). h)
  usable_guard false r c p left = (λ (h, k). absurd (cc), λ (e, h). absurd (cc))

  authorize-error :
      (vr : VerifyResult) (now : Time) (left : File)
      → Passes (authorize codec lib faults (ok vr) now ctx m) left ↔ (
          (is_usable (validate vr.payload now vr.key_id (fill_context m ctx)) ≡ true)
          × Marks codec lib faults ctx m m.rollback vr.payload now m.rollback_file left)
  unfolding authorize
  authorize-error vr now left = (
    λ h. let (u, e) = guard.0 h in (u, marks.0 (last.0 e)),
    λ (u, c). guard.1 (u, last.1 (marks.1 c)),
  )
    where
      result : ValidationResult
      result = validate vr.payload now vr.key_id (fill_context m ctx)

      written : File × Result Code (Unit {0})
      written =
          check_and_persist_rollback codec lib faults m.rollback vr.payload now m.rollback_file

      guard :
          Passes
            (if not (is_usable result)
              then (m, record { result = result; error = some result.code })
              else after_rollback now result m written)
            left
          ↔ ((is_usable result ≡ true) × Passes (after_rollback now result m written) left)
      guard =
          usable_guard (is_usable result) result result.code (after_rollback now result m written)
            left

      last : Passes (after_rollback now result m written) left ↔ (written ≡ (left, ok tt))
      last = after_rollback-error now result m written left

      marks :
          (written ≡ (left, ok tt))
          ↔ Marks codec lib faults ctx m m.rollback vr.payload now m.rollback_file left
      marks = marks_iff m.rollback vr.payload now m.rollback_file left

  authenticated-error :
      (r : Result Code VerifyResult) (now : Time) (left : File)
      → Passes (authorize codec lib faults r now ctx m) left
      → (vr : VerifyResult) × (r ≡ ok vr)
  unfolding authorize
  authenticated-error (err e) now left (h, k) = absurd (cc)
  authenticated-error (ok vr) now left h = (vr, refl)

  guarded :
      (b : Bool) (now : Time) (p : Manager × Outcome) (left : File)
      → Passes
          (if b
            then (
              m,
              record {
                result = invalid_result product_required now;
                error = some product_required;
              },
            )
            else p)
          left
        ↔ ((b ≡ false) × Passes p left)
  guarded true now p left = (λ (h, k). absurd (cc), λ (e, h). absurd (cc))
  guarded false now p left = (λ h. (refl, h), λ (e, h). h)

  validate_at_iff :
      (now : Time) (content : Bytes) (left : File)
      → Passes (validate_at codec lib faults now content ctx m) left
        ↔ ((vr : VerifyResult) × IsPermitted codec lib faults ctx m content now vr left)
  unfolding validate_at
  validate_at_iff now content left = (λ h. forth (test.0 h), λ (vr, p). test.1 (back vr p))
    where
      answer : Manager × Outcome
      answer = authorize codec lib faults (authenticate_license lib m.ring content) now ctx m

      b : Bool
      b = is_nil ctx.product_id && not m.unscoped_product

      test :
          Passes
            (if b
              then (
                m,
                record {
                  result = invalid_result product_required now;
                  error = some product_required;
                },
              )
              else answer)
            left
          ↔ ((b ≡ false) × Passes answer left)
      test = guarded b now answer left

      forth :
          (b ≡ false) × Passes answer left
          → (vr : VerifyResult) × IsPermitted codec lib faults ctx m content now vr left
      forth (g, h) =
          let (vr, e) = authenticated-error (authenticate_license lib m.ring content) now left h in
          let (small, (env, parsed, authentic)) = (authenticate_iff lib m.ring content vr).0 e in
          let (usable, mark) =
            (authorize-error vr now left).0
              (subst (λ r. Passes (authorize codec lib faults r now ctx m) left) e h) in
          (
            vr,
            record {
              scoped = (product_guard ctx m).0 g;
              small = small;
              env = env;
              parsed = parsed;
              authentic = authentic;
              granted = (validate_iff vr.payload now vr.key_id (fill_context m ctx)).0 usable;
              mark = mark;
            },
          )

      back :
          (vr : VerifyResult)
          → IsPermitted codec lib faults ctx m content now vr left
          → (b ≡ false) × Passes answer left
      back vr p = (
        (product_guard ctx m).1 p.scoped,
        subst (λ r. Passes (authorize codec lib faults r now ctx m) left)
            (sym (
              (authenticate_iff lib m.ring content vr).1 (p.small, (p.env, p.parsed, p.authentic))))
            ((authorize-error vr now left).1
              ((validate_iff vr.payload now vr.key_id (fill_context m ctx)).1 p.granted, p.mark)),
      )

module _ (codec : Codec) (lib : Library) (faults : Faults) (ctx : ValidationContext)
    (m : Manager) where
  -- The facade reports no error and leaves the rollback file `left` exactly when the trusted clock could be
  -- read, the validation is scoped to a product or may be unscoped, the file of at most 64 KB parses to an
  -- authentic envelope, the policy grants its payload at that time, and the mark is in order: without a store,
  -- or for a lifetime license, the file is as it was; else it loaded, the clock is no more than the skew
  -- behind its mark, and saving the later of the mark and the clock succeeded and left `left`.
  pub validate_license_iff :
      (clock : Option Time) (wall : Time) (content : Bytes) (left : File)
      → (((validate_license codec lib faults clock wall content ctx m).1.error ≡ none)
          × ((validate_license codec lib faults clock wall content ctx m).0.rollback_file ≡ left))
        ↔ ((now : Time) × (clock ≡ some now)
            × ((vr : VerifyResult) × IsPermitted codec lib faults ctx
                  (invalidate_cache m)
                  content
                  now
                  vr
                  left))
  unfolding validate_license
  validate_license_iff none wall content left = (λ (h, k). absurd (cc), λ (now, e, p). absurd (cc))
  validate_license_iff (some now) wall content left = (
    λ h. (
      now,
      refl,
      (validate_at_iff codec lib faults ctx (invalidate_cache m) now content left).0 h,
    ),
    λ (t, e, p). (validate_at_iff codec lib faults ctx (invalidate_cache m) now content left).1 (
        subst
          (λ u.
            (vr : VerifyResult) × IsPermitted codec lib faults ctx (invalidate_cache m) content u vr
              left)
          (of_some (sym e)) p),
  )
