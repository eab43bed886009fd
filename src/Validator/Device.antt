-- ===== src/Validator/Device.antt =====
-- What checkDevice of validator.go lets pass.
use grantseal.Prelude.{
  true, false, Bytes, eqb, eqb_iff, any, is_nil, ◌≡◌, ◌⊎◌, ◌↔◌, inl, inr, arith,
}
use grantseal.Prelude.Among.{IsAmong, any_iff}
use grantseal.Code.{license_ok}
use grantseal.Payload.{DeviceBinding, device_mode_none, device_mode_single, device_mode_multi}
use grantseal.Validator.{check_device}

-- A license without binding runs everywhere, a bound one on the devices that it lists.
abbrev pub BindsDevice : DeviceBinding → Bytes → Type 0
BindsDevice b fingerprint =
    (b.mode ≡ device_mode_none)
    ⊎ (((b.mode ≡ device_mode_single) ⊎ (b.mode ≡ device_mode_multi))
        × (is_nil fingerprint ≡ false)
        × IsAmong fingerprint b.device_ids)

device_tests :
    (b : DeviceBinding) (fp : Bytes)
    → (check_device b fp ≡ license_ok) ↔ (
        (b.mode ≡ device_mode_none)
        ⊎ (((b.mode ≡ device_mode_single) ⊎ (b.mode ≡ device_mode_multi))
            × (is_nil fp ≡ false)
            × (any (λ id. eqb id fp) b.device_ids ≡ true)))
unfolding check_device
device_tests b fp = (
  λ h. ground (
    arith,
    eqb_iff b.mode device_mode_none,
    eqb_iff b.mode device_mode_single,
    eqb_iff b.mode device_mode_multi,
  ),
  λ h. ground (
    arith,
    eqb_iff b.mode device_mode_none,
    eqb_iff b.mode device_mode_single,
    eqb_iff b.mode device_mode_multi,
  ),
)

-- The device gate passes exactly when the license is not bound, or the device's fingerprint is given
-- and is one of the license's device ids.
pub check_device_iff :
    (b : DeviceBinding) (fp : Bytes) → (check_device b fp ≡ license_ok) ↔ BindsDevice b fp
check_device_iff b fp = (λ h. forth ((device_tests b fp).0 h), λ d. (device_tests b fp).1 (back d))
  where
    forth :
        (b.mode ≡ device_mode_none)
          ⊎ (((b.mode ≡ device_mode_single) ⊎ (b.mode ≡ device_mode_multi))
              × (is_nil fp ≡ false)
              × (any (λ id. eqb id fp) b.device_ids ≡ true))
        → BindsDevice b fp
    forth (inl e) = inl e
    forth (inr (m, n, a)) = inr (m, n, (any_iff fp b.device_ids).0 a)

    back :
        BindsDevice b fp
        → (b.mode ≡ device_mode_none)
          ⊎ (((b.mode ≡ device_mode_single) ⊎ (b.mode ≡ device_mode_multi))
              × (is_nil fp ≡ false)
              × (any (λ id. eqb id fp) b.device_ids ≡ true))
    back (inl e) = inl e
    back (inr (m, n, a)) = inr (m, n, (any_iff fp b.device_ids).1 a)
