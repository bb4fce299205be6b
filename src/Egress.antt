-- ===== src/Egress.antt =====
-- crates/egress/src/lib.rs: the host's side of an enclave, which has no network and no disk.
pub mod Host
pub mod Allow
