-- ===== src/Fru.antt =====
-- FRU inventories: ipmi-rs-core/src/storage/fru, and the transfers of ipmi-rs/src/fru.rs.
pub mod Commands
mod Examples
pub mod Inventory
pub mod Transfer
