-- ===== src/Pin.antt =====
-- The PIN of the authenticator: crates/pqkey-ctap/src/ctap/pin, storage.rs, authenticator_config.rs and
-- reset.rs, with a module per file and the theorems about them.
pub mod Types
pub mod Retry
pub mod Token
pub mod Permissions
pub mod Storage
pub mod Params
pub mod Client
pub mod Issue
pub mod Config
pub mod Guesses
pub mod Attempts
pub mod Paid
pub mod Uncounted
pub mod Verified
pub mod Lifetime
pub mod Looks
pub mod Binding
pub mod Policy
pub mod Rotation
pub mod Grants
pub mod Accepted
mod Tests
