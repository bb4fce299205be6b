-- ===== src/Tests.antt =====
-- Runs of the model on small inputs, and each theorem applied to one.
pub mod Dates
pub mod Money
pub mod Subscriptions
pub mod Records
pub mod Hosts
pub mod Service
pub mod Kept
pub mod Wire
pub mod Purchases
pub mod Signed
pub mod Counts
