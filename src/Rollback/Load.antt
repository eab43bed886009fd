-- ===== src/Rollback/Load.antt =====
-- What a rollback file that loads is, and that a written one loads.
use grantseal.Prelude.{
  ℕ, ◌≤◌, ltb, if◌then◌else◌, Bool, true, false, not, Option, none, some, Bytes, length, eqb,
  eqb_iff, eqb_refl, ◌≡◌, refl, ap, ◌∙◌, sym, subst, arith,
}
use grantseal.Prelude.Results.{Result, ok, err, ◌>>=◌, >>=-eq-ok, of_ok}
use grantseal.Prelude.Options.{of_some}
use grantseal.Code.{Code, state_integrity_failure}
use grantseal.Time.{Time}
use grantseal.AtomicFile.{File, Faults, no_faults}
use grantseal.Rollback.{
  RollbackState, Codec, RollbackStore, or_integrity_failure, or_empty, mac_of, check_mac,
  authenticate, load, sealed, encode, max_rollback_state_size,
}

-- What the store relies on: hex decodes what it encodes, and a record whose tag is hex reads back as it was
-- and takes at most 4 KB.
pub record IsCodec (c : Codec) : Type 0 where
  pub hex : (b : Bytes) → c.hex_decode (c.hex_encode b) ≡ some b
  pub read_written :
      (t v : Time) (m b : Bytes)
      → c.state_json (record { last_trusted_time = t; last_verified_at = v; mac = c.hex_encode m })
        ≡ some b
      → c.read_json b
        ≡ some (record { last_trusted_time = t; last_verified_at = v; mac = c.hex_encode m })
  pub fits :
      (t v : Time) (k x b : Bytes)
      → c.state_json
          (record { last_trusted_time = t; last_verified_at = v; mac = c.hex_encode (c.hmac k x) })
        ≡ some b
      → length b ≤ max_rollback_state_size

-- The file loads, and its mark is `t` or later.
abbrev pub HasMark : Codec → RollbackStore → Time → File → Type 0
HasMark c s t file =
    (st : RollbackState) × (load c s no_faults file ≡ ok (some st)) × (t ≤ st.last_trusted_time)

of_integrity_failure :
    {A : Type 0} (o : Option A) {a : A} → or_integrity_failure o ≡ ok a → o ≡ some a
of_integrity_failure none h = cc
of_integrity_failure (some b) h = ap some (of_ok h)

pub load_readable :
    (c : Codec) (s : RollbackStore) (f : Faults) (file : File)
    → f.read ≡ false
    → load c s f file ≡ load c s no_faults file
unfolding load
load_readable c s f none h = rw h refl
load_readable c s f (some content) h = rw h refl

pub load_unreadable :
    (c : Codec) (s : RollbackStore) (f : Faults) (file : File)
    → f.read ≡ true
    → load c s f file ≡ err state_integrity_failure
unfolding load
load_unreadable c s f none h = rw h refl
load_unreadable c s f (some content) h = rw h refl

module _ (c : Codec) (laws : IsCodec c) (s : RollbackStore) where
  tag : Bytes → Bytes
  tag x = c.hex_encode (c.hmac s.hmac_key x)

  authenticate_sealed :
      (t v : Time) (x : Bytes)
      → c.times_json t v ≡ some x
      → authenticate c s (record { last_trusted_time = t; last_verified_at = v; mac = tag x })
        ≡ ok (record { last_trusted_time = t; last_verified_at = v; mac = tag x })
  unfolding authenticate mac_of check_mac tag
  authenticate_sealed t v x h =
      rw (h, laws.hex (c.hmac s.hmac_key x), eqb_refl (c.hmac s.hmac_key x)) refl

  load_sealed :
      (t v : Time) (x b : Bytes)
      → c.times_json t v ≡ some x
      → c.state_json (record { last_trusted_time = t; last_verified_at = v; mac = tag x }) ≡ some b
      → load c s no_faults (some b)
        ≡ ok (some (record { last_trusted_time = t; last_verified_at = v; mac = tag x }))
  unfolding load tag
  load_sealed t v x b h w =
      rw (too_long, laws.read_written t v (c.hmac s.hmac_key x) b w, authenticate_sealed t v x h)
        refl
    where
      too_long : ltb max_rollback_state_size (length b) ≡ false
      too_long = let small = laws.fits t v s.hmac_key x b w in ground arith

  pub encode-load :
      (st : RollbackState) (b : Bytes)
      → encode c s st ≡ ok b
      → HasMark c s st.last_trusted_time (some b)
  unfolding encode mac_of tag
  encode-load st b h =
      let (m, hm, hb) =
        >>=-eq-ok (mac_of c s st.last_trusted_time st.last_verified_at)
          (λ m. or_integrity_failure (c.state_json (sealed c st m))) h in
      let (x, hx, ht) =
        >>=-eq-ok (or_integrity_failure (c.times_json st.last_trusted_time st.last_verified_at))
          (λ b. ok (c.hex_encode (c.hmac s.hmac_key b))) hm in
      (
        record {
          last_trusted_time = st.last_trusted_time;
          last_verified_at = st.last_verified_at;
          mac = tag x;
        },
        load_sealed st.last_trusted_time st.last_verified_at x b
            (of_integrity_failure (c.times_json st.last_trusted_time st.last_verified_at) hx)
            (ap (λ m. c.state_json (sealed c st m)) (of_ok ht)
              ∙ of_integrity_failure (c.state_json (sealed c st m)) hb),
        arith_refl st.last_trusted_time,
      )
    where
      arith_refl : (n : ℕ) → n ≤ n
      arith_refl n = omega arith

  -- The tag of a record that authenticates: `want` decodes to the HMAC.
  authenticate-ok :
      (st out : RollbackState)
      → authenticate c s st ≡ ok out
      → (st ≡ out)
        × ((x : Bytes) × (c.times_json st.last_trusted_time st.last_verified_at ≡ some x)
            × (c.hex_decode st.mac ≡ some (c.hmac s.hmac_key x)))
  unfolding authenticate mac_of check_mac
  authenticate-ok st out h =
      let (m, hm, hc) =
        >>=-eq-ok (mac_of c s st.last_trusted_time st.last_verified_at) (check_mac c st) h in
      let (x, hx, ht) =
        >>=-eq-ok (or_integrity_failure (c.times_json st.last_trusted_time st.last_verified_at))
          (λ b. ok (c.hex_encode (c.hmac s.hmac_key b))) hm in
      let (got, hg, hv) =
        >>=-eq-ok (or_integrity_failure (c.hex_decode st.mac))
          (λ got.
            if not (eqb got (or_empty (c.hex_decode m)))
            then err state_integrity_failure
            else ok st)
          hc in
      let want = ap c.hex_decode (sym (of_ok ht)) ∙ laws.hex (c.hmac s.hmac_key x) in
      let (same, out_is) = passed got (c.hex_decode m) (c.hmac s.hmac_key x) want hv in
      (
        out_is,
        (
          x,
          of_integrity_failure (c.times_json st.last_trusted_time st.last_verified_at) hx,
          of_integrity_failure (c.hex_decode st.mac) hg ∙ ap some same,
        ),
      )
    where
      passed :
          (got : Bytes) (w : Option Bytes) (v : Bytes)
          → w ≡ some v
          → (if not (eqb got (or_empty w)) then err state_integrity_failure else ok st) ≡ ok out
          → (got ≡ v) × (st ≡ out)
      passed got none v e h = cc
      passed got (some w) v e h = ground (arith, eqb_iff got w)

  -- A file that loads to a record is at most 4 KB and carries, in hex, the HMAC of its two times under the
  -- key of the store.
  pub load_authentic :
      (f : Faults) (content : Bytes) (st : RollbackState)
      → load c s f (some content) ≡ ok (some st)
      → (length content ≤ max_rollback_state_size)
        × (c.read_json content ≡ some st)
        × ((x : Bytes) × (c.times_json st.last_trusted_time st.last_verified_at ≡ some x)
            × (c.hex_decode st.mac ≡ some (c.hmac s.hmac_key x)))
  unfolding load
  load_authentic f content st h =
      let (small, rest) =
        readable f.read (ltb max_rollback_state_size (length content))
          (or_integrity_failure (c.read_json content) >>= authenticate c s >>= λ st. ok (some st))
          h in
      let (out, ha, hs) =
        >>=-eq-ok (or_integrity_failure (c.read_json content) >>= authenticate c s)
          (λ st. ok (some st)) rest in
      let (raw, hr, hv) =
        >>=-eq-ok (or_integrity_failure (c.read_json content)) (authenticate c s) ha in
      let (same, tagged) = authenticate-ok raw out hv in
      let is_st = same ∙ of_some (of_ok hs) in
      (
        short content small,
        of_integrity_failure (c.read_json content) hr ∙ ap some is_st,
        subst
            (λ st.
              (x : Bytes) × (c.times_json st.last_trusted_time st.last_verified_at ≡ some x)
              × (c.hex_decode st.mac ≡ some (c.hmac s.hmac_key x)))
            is_st tagged,
      )
    where
      short :
          (b : Bytes)
          → ltb max_rollback_state_size (length b) ≡ false
          → length b ≤ max_rollback_state_size
      short b h = ground arith

      readable :
          (unread long : Bool) (r : Result Code (Option RollbackState)) {a : Option RollbackState}
          → (if unread
              then err state_integrity_failure
              else if long
              then err state_integrity_failure
              else r)
            ≡ ok a
          → (long ≡ false) × (r ≡ ok a)
      readable true long r h = cc
      readable false true r h = cc
      readable false false r h = (refl, h)
