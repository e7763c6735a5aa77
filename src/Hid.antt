-- ===== src/Hid.antt =====
-- crates/pqkey/src/transport/ctaphid_host.rs, and the APDU test of crates/pqkey-ctap/src/ctap/u2f.rs
-- that it calls: the CTAPHID state machine.
pub mod Types
pub mod Apdu
pub mod Channels
pub mod Output
pub mod Transaction
pub mod Input
pub mod Timers
pub mod App
pub mod Invariant
pub mod Steps
pub mod Drain
pub mod Reassembly
pub mod Arbitration
pub mod Resync
pub mod Forgotten
mod Tests
