-- ===== src/Store.antt =====
-- The credential store: crates/pqkey-ctap/src/store.
pub mod Hex
pub mod Manifest
mod Order
pub mod Membership
pub mod Decoded
mod Tests
