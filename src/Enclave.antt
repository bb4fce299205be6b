-- ===== src/Enclave.antt =====
-- crates/enclave: the attested core.
pub mod Service
pub mod State
pub mod Ledger
pub mod Witness
pub mod Cover
pub mod Plans
pub mod Notes
pub mod Apple
pub mod Stripe
pub mod Subscriptions
pub mod Stats
pub mod Ghost
