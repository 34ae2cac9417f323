-- ===== src/Rmcp/V2_0/Crypto.antt =====
-- The cryptography of RMCP+ sessions: ipmi-rs/src/rmcp/v2_0/crypto.
pub mod Backend
pub mod SubState
pub mod Keys
pub mod Packet
pub mod State
pub mod Authentic
pub mod Counting
mod Examples
mod Integrity
mod Confidentiality
pub mod RoundTrip
