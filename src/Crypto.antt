-- ===== src/Crypto.antt =====
-- src/qwed_a2a/security/crypto.py, the attestation tokens: the replay registry (Jti), signing (Sign)
-- and verification (Verify).
pub mod Base64
pub mod Issuers
pub mod Jti
pub mod KeyPair
pub mod Jwk
pub mod Service
pub mod Sign
pub mod Verify
pub mod Sample
mod Registry
mod Examples
