-- ===== src/Cbor.antt =====
-- Canonical CBOR: crates/pqkey-ctap/src/ctap/cbor.rs.
pub mod Header
pub mod Canonical
pub mod Grammar
pub mod Request
mod Numbers
pub mod Keys
mod WellFormed
pub mod Replaced
mod Flat
mod Copy
pub mod Raw
pub mod Bounds
mod Tests
pub mod Decoding
mod Heads
mod Accepts
mod Found
mod Kinds
mod Loops
mod Accepted
pub mod Exact
