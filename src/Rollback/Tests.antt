-- ===== src/Rollback/Tests.antt =====
-- The rollback store over a concrete codec: hex and JSON as they stand, and a tag of one number.
use grantseal.Prelude.{
  ℕ, ◌+◌, ◌≤◌, ◌≡◌, refl, subst, none, some, codes, [], ◌∷◌, Option, Bytes, length, eqb, arith,
}
use grantseal.Prelude.Results.{ok, err}
use grantseal.Prelude.Options.{of_some}
use grantseal.Code.{state_integrity_failure, clock_rollback}
use grantseal.Time.{Time}
use grantseal.AtomicFile.{File, no_faults, atomic_write_file, fsync_state_dir}
use grantseal.Rollback.{
  RollbackState, Codec, RollbackStore, check_mark, check_rollback, mac_of, check_mac, authenticate,
  load, encode, write_encoded, save, save_checked, check_and_save, run, max_rollback_state_size,
}
use grantseal.Rollback.Load.{IsCodec, load_authentic}
use grantseal.Rollback.Mark.{no_backward_clock}

abbrev tag : Bytes → Bytes → Bytes
tag k [] = []
tag k (c ∷ s) = (c + length k) ∷ []

abbrev unread : Bytes → Option RollbackState
unread [] = none
unread (t ∷ []) = none
unread (t ∷ v ∷ m) = some (record { last_trusted_time = t; last_verified_at = v; mac = m })

abbrev codec : Codec
codec = record {
  times_json = λ t v. some (t ∷ v ∷ []);
  state_json = λ st. some (st.last_trusted_time ∷ st.last_verified_at ∷ st.mac);
  read_json = unread;
  hmac = tag;
  hex_encode = λ b. b;
  hex_decode = some;
}

tag_fits : (k x : Bytes) (t v : ℕ) → length (t ∷ v ∷ tag k x) ≤ max_rollback_state_size
tag_fits k [] t v = omega arith
tag_fits k (c ∷ s) t v = omega arith

codec-IsCodec : IsCodec codec
codec-IsCodec = record {
  hex = λ b. refl;
  read_written = λ t v m b h. read t v m b h;
  fits = λ t v k x b h. fit t v k x b h;
}
  where
    read :
        (t v : Time) (m b : Bytes)
        → some (t ∷ v ∷ m) ≡ some b
        → unread b ≡ some (record { last_trusted_time = t; last_verified_at = v; mac = m })
    read t v m b h =
        subst
          (λ c. unread c ≡ some (record { last_trusted_time = t; last_verified_at = v; mac = m }))
          (of_some h) refl

    fit :
        (t v : Time) (k x b : Bytes)
        → some (t ∷ v ∷ tag k x) ≡ some b
        → length b ≤ max_rollback_state_size
    fit t v k x b h = subst (λ c. length c ≤ max_rollback_state_size) (of_some h) (tag_fits k x t v)

abbrev store : RollbackStore
store = record { path = codes "state.json"; hmac_key = codes "key"; skew = 5 }

abbrev state : RollbackState
state = record { last_trusted_time = 100; last_verified_at = 90; mac = 103 ∷ [] }

-- The tag is the first time and the length of the key.
abbrev state_file : File
state_file = some (100 ∷ 90 ∷ 103 ∷ [])

state_loads : load codec store no_faults state_file ≡ ok (some state)
unfolding load authenticate mac_of check_mac eqb
state_loads = refl

load_authentic_example :
    (3 ≤ max_rollback_state_size)
    × (codec.read_json (100 ∷ 90 ∷ 103 ∷ []) ≡ some state)
    × ((x : Bytes) × (codec.times_json 100 90 ≡ some x)
        × (codec.hex_decode (103 ∷ []) ≡ some (codec.hmac (codes "key") x)))
load_authentic_example =
    load_authentic codec codec-IsCodec store no_faults (100 ∷ 90 ∷ 103 ∷ []) state state_loads

tampered : load codec store no_faults (some (99 ∷ 90 ∷ 103 ∷ [])) ≡ err state_integrity_failure
unfolding load authenticate mac_of check_mac eqb
tampered = refl

call_done : (check_and_save codec store no_faults 120 state_file).1 ≡ ok tt
unfolding check_and_save save_checked save write_encoded encode mac_of check_mac authenticate load
    check_rollback check_mark atomic_write_file fsync_state_dir eqb
call_done = refl

no_backward_clock_example :
    check_and_save codec store no_faults 100 (
      run codec store
        ((no_faults, 140) ∷ [])
        (check_and_save codec store no_faults 120 state_file).0)
    ≡ (
      run codec store
          ((no_faults, 140) ∷ [])
          (check_and_save codec store no_faults 120 state_file).0,
      err clock_rollback,
    )
no_backward_clock_example =
    no_backward_clock codec codec-IsCodec store no_faults no_faults 120 100 ((no_faults, 140) ∷ [])
      state_file call_done refl (omega arith)
