-- ===== src/Revocation.antt =====
-- pkg/license/revocation.go and revocation_state.go: offline revocation lists and their anti-replay state.
pub mod State
pub mod List
pub mod FileStore
