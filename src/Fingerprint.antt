-- ===== src/Fingerprint.antt =====
-- pkg/fingerprint: device fingerprints and the values that bind a license to devices.
pub mod Scheme
pub mod Compute
pub mod RequestCode
