-- ===== src/Rollback/Advance.antt =====
-- What CheckAndSave does when it answers without an error.
use grantseal.Prelude.{
  ℕ, ◌+◌, ◌≤◌, ltb, if◌then◌else◌, Bool, true, false, Option, none, some, [], ◌≡◌, ◌↔◌, refl, arith,
  ap,
}
use grantseal.Prelude.Results.{Result, ok, err, ◌>>=◌, of_ok}
use grantseal.Code.{Code, clock_rollback}
use grantseal.Time.{Time}
use grantseal.AtomicFile.{File, Faults}
use grantseal.Rollback.{
  RollbackState, Codec, RollbackStore, check_mark, check_rollback, load, save, save_checked,
  check_and_save,
}

-- The clock is no more than the skew behind the mark, where there is one.
abbrev pub NotBehind : ℕ → Option RollbackState → Time → Type 0
NotBehind skew none now = Unit
NotBehind skew (some prev) now = prev.last_trusted_time ≤ now + skew

-- The later of the mark and the clock.
abbrev pub high_water : Option RollbackState → Time → Time
high_water none now = now
high_water (some prev) now = if ltb now prev.last_trusted_time then prev.last_trusted_time else now

abbrev pub next_state : Option RollbackState → Time → RollbackState
next_state prev now = record {
  last_trusted_time = high_water prev now;
  last_verified_at = now;
  mac = [];
}

-- The file loads, the clock is not behind its mark, and the later of the two times is saved.
pub record Advances (c : Codec) (s : RollbackStore) (f : Faults) (now : Time) (file left : File)
    : Type 0 where
  pub prev : Option RollbackState
  pub loaded : load c s f file ≡ ok prev
  pub in_time : NotBehind s.skew prev now
  pub saved : save c s f (next_state prev now) file ≡ (left, ok tt)

decided_iff :
    (skew : ℕ) (prev : Option RollbackState) (now : Time) (next : RollbackState)
    → (check_rollback skew prev now ≡ ok next)
      ↔ (NotBehind skew prev now × (next_state prev now ≡ next))
unfolding check_rollback check_mark
decided_iff skew none now next = (λ h. (tt, of_ok h), λ (t, e). ap ok e)
decided_iff skew (some prev) now next =
    kept (ltb (now + skew) prev.last_trusted_time) (λ h. ground arith) (λ h. ground arith)
  where
    kept :
        (b : Bool)
        → (b ≡ false → prev.last_trusted_time ≤ now + skew)
        → (prev.last_trusted_time ≤ now + skew → b ≡ false)
        → ((if b then err clock_rollback else ok (next_state (some prev) now)) ≡ ok next)
          ↔ ((prev.last_trusted_time ≤ now + skew) × (next_state (some prev) now ≡ next))
    kept true f g = (λ h. absurd (cc), λ (t, e). absurd (cc (g t)))
    kept false f g = (λ h. (f refl, of_ok h), λ (t, e). ap ok e)

pub check_and_save_iff :
    (c : Codec) (s : RollbackStore) (f : Faults) (now : Time) (file left : File)
    → (check_and_save c s f now file ≡ (left, ok tt)) ↔ Advances c s f now file left
unfolding check_and_save save_checked
check_and_save_iff c s f now file left = (forth (load c s f file) refl, back)
  where
    saved_of :
        (r : Result Code RollbackState)
        → save_checked c s f r file ≡ (left, ok tt)
        → (next : RollbackState) × (r ≡ ok next) × (save c s f next file ≡ (left, ok tt))
    saved_of (ok next) h = (next, refl, h)
    saved_of (err e) h = absurd (cc)

    forth :
        (r : Result Code (Option RollbackState))
        → load c s f file ≡ r
        → save_checked c s f (r >>= λ prev. check_rollback s.skew prev now) file ≡ (left, ok tt)
        → Advances c s f now file left
    forth (err e) l h = absurd (cc)
    forth (ok prev) l h =
        let (next, e, w) = saved_of (check_rollback s.skew prev now) h in
        let (t, same) = (decided_iff s.skew prev now next).0 e in
        record { prev = prev; loaded = l; in_time = t; saved = rw same w }

    back : Advances c s f now file left → check_and_save c s f now file ≡ (left, ok tt)
    back a =
        rw (a.loaded, (decided_iff s.skew a.prev now (next_state a.prev now)).1 (a.in_time, refl))
          a.saved
