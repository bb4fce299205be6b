-- ===== src/Proto.antt =====
-- crates/proto: what travels between a client and the enclave.
pub mod Frames
pub mod Kind
pub mod Exchange
