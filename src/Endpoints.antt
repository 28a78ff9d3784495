-- ===== src/Endpoints.antt =====
-- src/qwed_a2a/protocol/endpoints.py: who the caller is (Identity), how much a request may send
-- (Limits), the gateway (Gateway), and the published keys (Jwks).
pub mod Identity
pub mod Limits
pub mod Gateway
pub mod Jwks
pub mod App
mod Examples
