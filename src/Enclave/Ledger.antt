-- ===== src/Enclave/Ledger.antt =====
-- crates/enclave/src/ledger.rs: the account book. `Tables` are the tables and the statements that
-- change them, `Money` the pockets, holds and settlements.
pub mod Tables
pub mod Money
pub mod Kept
