-- ===== src/Rmcp.antt =====
-- ipmi-rs/src/rmcp: the LAN transport.
pub mod Checksum
pub mod Header
pub mod Asf
pub mod Sol
pub mod Errors
pub mod Ipmb
pub mod V1_5
pub mod CipherPolicy
pub mod V2_0
pub mod Activation
