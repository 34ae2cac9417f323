-- ===== src/Rmcp/Sol.antt =====
-- ipmi-rs/src/rmcp/v2_0/sol.rs: serial over LAN.
pub mod Frame
pub mod Flow
