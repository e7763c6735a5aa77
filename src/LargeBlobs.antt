-- ===== src/LargeBlobs.antt =====
-- Fragmented reads and writes of the large-blob array: crates/pqkey-ctap/src/ctap/large_blobs.rs, and
-- the validation of store/large_blobs.rs.
pub mod Types
pub mod Read
pub mod Write
pub mod Handle
mod Authorization
pub mod Integrity
pub mod Staging
pub mod Transfer
pub mod Reading
pub mod Expiry
mod Tests
