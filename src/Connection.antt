-- ===== src/Connection.antt =====
-- ipmi-rs-core/src/connection: addresses, network functions, messages and completion codes.
mod Examples
pub mod NetFn
pub mod Channel
pub mod Message
pub mod CompletionCode
