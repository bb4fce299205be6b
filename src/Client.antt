-- ===== src/Client.antt =====
-- crates/client/src: the app's side.
pub mod Gateways
