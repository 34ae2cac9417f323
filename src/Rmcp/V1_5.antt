-- ===== src/Rmcp/V1_5.antt =====
-- IPMI 1.5 sessions: ipmi-rs/src/rmcp/v1_5.
pub mod Md2
pub mod Auth
pub mod Message
pub mod RoundTrip
pub mod Authentic
pub mod State
pub mod Receive
pub mod Replay
pub mod Delivered
pub mod Session
pub mod Commands
pub mod Activation
mod Examples
