-- ===== src/Core.antt =====
-- crates/core: what app and enclave share.
pub mod Calendar
pub mod Subscription
pub mod Notes
