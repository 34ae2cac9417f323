-- ===== src/Rmcp/Ipmb.antt =====
pub mod Packet
pub mod State
pub mod Receive
pub mod Session
