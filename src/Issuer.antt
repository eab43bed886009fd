-- ===== src/Issuer.antt =====
-- internal/issuer: keys, licenses and revocation lists on the issuer's side.
pub mod PrivateKey
pub mod KeyFiles
pub mod Signer
pub mod Revoke
