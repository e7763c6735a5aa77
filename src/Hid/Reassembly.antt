-- ===== src/Hid/Reassembly.antt =====
-- Messages cut into reports (`queue_message`) and put together again (`handle_frame`) in
-- ctaphid_host.rs.
pub mod Packets
pub mod Messages
pub mod RoundTrip
