-- ===== src/App.antt =====
-- ipmi-rs-core/src/app: the application commands.
pub mod Watchdog
pub mod User
pub mod DeviceId
pub mod ChannelAccess
pub mod GlobalEnables
