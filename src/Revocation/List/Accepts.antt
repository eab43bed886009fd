-- ===== src/Revocation/List/Accepts.antt =====
-- Which version 2 lists the loader accepts, with what it then gives and stores.
use grantseal.Prelude.{
  if◌then◌else◌, Bool, true, false, Option, Bytes, pos, eq_ℤ, ◌≡◌, ◌↔◌, ◌⊎◌, inl, inr, refl, ap,
  List, [], ◌∷◌, ◌≢◌, none, some, sym, subst, ◌∙◌,
}
use grantseal.Prelude.Results.{Result, ok, err, ◌>>=◌, ◌>>◌, fail_if, >>-eq-ok, of_ok}
use grantseal.Prelude.Maps.{lookup}
use grantseal.Code.{Code, signature_invalid}
use grantseal.Time.{Time, positive_or, default_clock_skew}
use grantseal.Revocation.State.{MemStore, check_and_save}
use grantseal.Revocation.State.Taken.{IsTaken, check_and_save_iff}
use grantseal.Revocation.List.{
  RevocationList, ListLibrary, RevocationPolicy, revocation_schema_version,
  validate_revocation_v2_static, check_window, check_revocation_freshness, build_provider,
  check_revocation_replay, then_replay, check_v2, accept_list, candidate,
}
use grantseal.Revocation.List.Shape.{IsList, IsFresh, fail_if_iff, window_iff, static_iff}

-- The second list is the first without its empty texts.
pub data Gives : List Bytes → List Bytes → Type 0 where
  done : Gives [] []
  dropped : (all ids : List Bytes) → Gives all ids → Gives ([] ∷ all) ids
  kept : (id : Bytes) (all ids : List Bytes) → id ≢ [] → Gives all ids → Gives (id ∷ all) (id ∷ ids)

build_provider-Gives : (all : List Bytes) → Gives all (build_provider all)
unfolding build_provider
build_provider-Gives [] = done
build_provider-Gives ([] ∷ all) = dropped all (build_provider all) (build_provider-Gives all)
build_provider-Gives ((c ∷ id) ∷ all) =
    kept (c ∷ id) all (build_provider all) (λ e. cc) (build_provider-Gives all)

Gives-build_provider : (all ids : List Bytes) → Gives all ids → build_provider all ≡ ids
unfolding build_provider
Gives-build_provider all ids done = refl
Gives-build_provider all ids (dropped rest kept_ids g) = Gives-build_provider rest kept_ids g
Gives-build_provider all ids (kept [] rest kept_ids n g) = absurd (n refl)
Gives-build_provider all ids (kept (c ∷ id) rest kept_ids n g) =
    ap (λ l. (c ∷ id) ∷ l) (Gives-build_provider rest kept_ids g)

pub build_provider_iff : (all ids : List Bytes) → (build_provider all ≡ ids) ↔ Gives all ids
build_provider_iff all ids =
    (λ e. subst (Gives all) e (build_provider-Gives all), λ g. Gives-build_provider all ids g)

-- The answer of the store and the ids, apart.
answered :
    (p : Option MemStore × Result Code (Unit {0})) (left : Option MemStore) (all ids : List Bytes)
    → (◌≡◌ {A = Option MemStore × Result Code (List Bytes)}
        (p.0, p.1 >>= λ v. ok all)
        (left, ok ids))
      ↔ ((p ≡ (left, ok tt)) × (all ≡ ids))
answered (s, ok u) left all ids = (
  λ h. (ap (λ q. (q.0, ok tt)) h, of_ok (ap (λ q. q.1) h)),
  λ (a, b). ap (λ l. (l, ok all)) (ap (λ q. q.0) a) ∙ ap (λ l. (left, ok l)) b,
)
answered (s, err e) left all ids = (λ h. absurd (cc), λ (a, b). absurd (cc))

module _ (lib : ListLibrary) (rl : RevocationList) (canonical : Bytes) (legacy : Bool) (now : Time)
    (pol : RevocationPolicy) where
  v2_iff :
      (check_v2 lib legacy rl now pol ≡ ok tt)
      ↔ ((legacy ≡ false) × IsList rl × ((pol.relax_fresh ≡ true) ⊎ IsFresh rl pol now))
  unfolding check_v2 check_revocation_freshness
  v2_iff = (forth, back)
    where
      fresh : Result Code (Unit {0})
      fresh =
          check_window rl rl.expires_at now (positive_or pol.clock_skew default_clock_skew)
            pol.max_age

      relaxed : (b : Bool) → ((if b then ok tt else fresh) ≡ ok tt) ↔ ((b ≡ true) ⊎ (fresh ≡ ok tt))
      relaxed true = (λ h. inl refl, λ h. refl)
      relaxed false = (λ h. inr h, λ h. elim h [ inl e ↦ absurd cc | inr f ↦ f ])

      window : (fresh ≡ ok tt) ↔ IsFresh rl pol now
      window =
          window_iff rl rl.expires_at now (positive_or pol.clock_skew default_clock_skew)
            pol.max_age

      forth :
          ((fail_if legacy signature_invalid
              >> (validate_revocation_v2_static rl >> (if pol.relax_fresh then ok tt else fresh)))
            ≡ ok tt)
          → (legacy ≡ false) × IsList rl × ((pol.relax_fresh ≡ true) ⊎ IsFresh rl pol now)
      forth h =
          let (a, rest) = (fail_if_iff legacy signature_invalid _).0 h in
          let (b, last) = >>-eq-ok (validate_revocation_v2_static rl) _ rest in
          (
            a,
            (static_iff rl).0 b,
            elim ((relaxed pol.relax_fresh).0 last) [ inl e ↦ inl e | inr f ↦ inr (window.0 f) ],
          )

      back :
          (legacy ≡ false) × IsList rl × ((pol.relax_fresh ≡ true) ⊎ IsFresh rl pol now)
          → ((fail_if legacy signature_invalid
                >> (validate_revocation_v2_static rl >> (if pol.relax_fresh then ok tt else fresh)))
              ≡ ok tt)
      back (a, w, r) = (fail_if_iff legacy signature_invalid _).1 (
        a,
        rw ((static_iff rl).1 w)
            ((relaxed pol.relax_fresh).1 (elim r [ inl e ↦ inl e | inr f ↦ inr (window.1 f) ])),
      )

  -- The store of marks after a list, where there is one.
  abbrev pub Takes : Option MemStore → Option MemStore → Type 0
  Takes none left = left ≡ none
  Takes (some m) left =
      (n : MemStore) × (left ≡ some n)
      × IsTaken (lookup rl.list_id m) (candidate lib rl canonical) m n

  replay_iff :
      (store left : Option MemStore)
      → (check_revocation_replay lib rl canonical store ≡ (left, ok tt)) ↔ Takes store left
  unfolding check_revocation_replay
  replay_iff none left = (λ h. ap (λ p. p.0) (sym h), λ h. ap (λ l. (l, ok tt)) (sym h))
  replay_iff (some m) left =
      (λ h. forth (check_and_save (some (candidate lib rl canonical)) m) refl h, back)
    where
      forth :
          (q : MemStore × Result Code (Unit {0}))
          → check_and_save (some (candidate lib rl canonical)) m ≡ q
          → ◌≡◌ {A = Option MemStore × Result Code (Unit {0})} (some q.0, q.1) (left, ok tt)
          → Takes (some m) left
      forth (n, r) e h = (
        n,
        ap (λ p. p.0) (sym h),
        (check_and_save_iff (candidate lib rl canonical) m n).0
            (e ∙ ap (λ r. (n, r)) (ap (λ p. p.1) h)),
      )

      back : Takes (some m) left → check_revocation_replay lib rl canonical (some m) ≡ (left, ok tt)
      back (n, e, t) =
          rw ((check_and_save_iff (candidate lib rl canonical) m n).1 t)
            (ap (λ l. (l, ok tt)) (sym e))

  replayed :
      (store left : Option MemStore) (r : Result Code (Unit {0})) (ids : List Bytes)
      → (then_replay lib r rl canonical store ≡ (left, ok ids))
        ↔ ((r ≡ ok tt) × Takes store left × Gives rl.revoked_ids ids)
  unfolding then_replay
  replayed store left (err e) ids = (λ h. absurd (cc), λ (a, b, c). absurd (cc))
  replayed store left (ok u) ids = (
    λ h.
        let (a, b) =
          (answered (check_revocation_replay lib rl canonical store) left
              (build_provider rl.revoked_ids) ids).0
            h in
        (refl, (replay_iff store left).0 a, (build_provider_iff rl.revoked_ids ids).0 b),
    λ (e, t, g).
        (answered (check_revocation_replay lib rl canonical store) left
            (build_provider rl.revoked_ids) ids).1
          ((replay_iff store left).1 t, (build_provider_iff rl.revoked_ids ids).1 g),
  )

  -- An authenticated list of version 2 is accepted, leaves the store of marks `left` and gives the ids
  -- `ids`, exactly when its signature is over the revocation domain, it has the shape of a list, it is fresh
  -- unless the policy waives that, `ids` are its ids but for the empty ones, and the store, where there is
  -- one, takes it: it has no mark of the list or one of a lower sequence, and `left` has the list as its mark, or
  -- it has a mark of the same sequence and content, and `left` is the store.
  pub accept_list_iff :
      (store left : Option MemStore) (ids : List Bytes)
      → rl.schema_version ≡ revocation_schema_version
      → (accept_list lib (ok (canonical, (rl, legacy))) now pol store ≡ (left, ok ids)) ↔ (
          (legacy ≡ false)
          × IsList rl
          × ((pol.relax_fresh ≡ true) ⊎ IsFresh rl pol now)
          × Takes store left
          × Gives rl.revoked_ids ids)
  unfolding accept_list
  accept_list_iff store left ids v2 = rw (ap (λ z. eq_ℤ z (pos 1)) v2) (
    λ h.
        let (a, t, g) = (replayed store left (check_v2 lib legacy rl now pol) ids).0 h in
        let (x, y, z) = v2_iff.0 a in (x, y, z, t, g),
    λ (x, y, z, t, g).
        (replayed store left (check_v2 lib legacy rl now pol) ids).1 (v2_iff.1 (x, y, z), t, g),
  )
