-- ===== src/Rmcp/V2_0.antt =====
-- RMCP+ sessions: ipmi-rs/src/rmcp/v2_0.
pub mod Algorithms
pub mod OpenSession
pub mod Agreement
pub mod Rakp
pub mod Handshake
pub mod Payload
pub mod Crypto
pub mod Activation
pub mod Session
mod Examples
