-- ===== src/Lib.antt =====
-- Verification of a FIDO2 software authenticator: its CTAPHID transport, its PIN, its
-- large-blob array, its canonical CBOR and the membership of its credential set.
--
-- The program. `crates/pqkey` is the daemon: it receives 64-byte CTAPHID reports of a virtual USB
-- device, and `CtaphidHost` (crates/pqkey/src/transport/ctaphid_host.rs) turns them into messages,
-- arbitrates between channels, hands requests to the application and queues the reports of the
-- responses. `crates/pqkey-ctap` is the application: the CTAP2 commands on a `CtapApp`, which keeps a
-- PIN retry counter, a pinUvAuthToken and a credential store.
--
-- The files.
--   Base           shared names, Boolean tests, lists over native numbers, big-endian numbers
--   Hid/Types      the state of `CtaphidHost` (ctaphid_host.rs) and its constants
--   Hid/Apdu       the APDU test of crates/pqkey-ctap/src/ctap/u2f.rs
--   Hid/Channels   `Channels`: the table of allocated channels
--   Hid/Output     `queue_frame`, `queue_message`, `enqueue_message`, `outgoing_frame_written`
--   Hid/Transaction  `complete_message` and what it reads: the lease, polls, denied polls
--   Hid/Input      `handle_frame` and the handlers of INIT, CANCEL, requests and continuations
--   Hid/Timers     `handle_timeout`, `send_keepalive`, `next_deadline`, identification
--   Hid/App        `take_app_request`, `take_interrupt`, `app_response`, presence
--   Hid/Invariant, Hid/Steps  well-formedness of a host and the histories of public calls
--   Hid/Drain, Hid/Reassembly, Hid/Arbitration, Hid/Resync, Hid/Forgotten  theorems, named for
--     what they are about
--   Hid/Tests, Pin/Tests, LargeBlobs/Tests, Cbor/Tests, Store/Tests  concrete runs
--   Pin/Types      the state: crates/pqkey-ctap/src/ctap/pin/state.rs, token.rs, and of `CtapApp`
--   Pin/Retry      `PinRetryState` of pin/state.rs
--   Pin/Token      pin/token.rs and `authorize_rp_operation` of pin/state.rs
--   Pin/Permissions  pin/permissions.rs
--   Pin/Storage    crates/pqkey-ctap/src/ctap/storage.rs, `PinState`'s changes, and reset.rs
--   Pin/Params, Pin/Client, Pin/Issue  pin/client_pin.rs, with the parsing it uses
--   Pin/Config     crates/pqkey-ctap/src/ctap/authenticator_config.rs
--   Pin/Attempts   checks of a PIN and starts of the engine in any order, with the store between
--   Pin/Guesses, Pin/Verified, Pin/Accepted, Pin/Paid, Pin/Uncounted, Pin/Lifetime, Pin/Looks,
--     Pin/Binding, Pin/Policy, Pin/Grants, Pin/Rotation   theorems
--   Cbor/Header, Canonical, Request  crates/pqkey-ctap/src/ctap/cbor.rs: `header`, `item_end`,
--     `canonical_item_end`, `raw_map_value`, `request_parameters`
--   Cbor/Grammar, Cbor/Replaced  the canonical form and the replaced simple values without positions
--   Cbor/Numbers, Heads, Found, Kinds, Loops, Accepts, Accepted, WellFormed, Flat, Copy  lemmas on these
--   Cbor/Keys, Exact, Decoding, Raw, Bounds  theorems
--   LargeBlobs/Types, Read, Write, Handle  crates/pqkey-ctap/src/ctap/large_blobs.rs, and the validation
--     of crates/pqkey-ctap/src/store/large_blobs.rs
--   LargeBlobs/Staging, Transfer, Reading, Authorization, Integrity, Expiry  theorems
--   Store/Hex, Store/Manifest  crates/pqkey-ctap/src/store/manifest.rs, with `hex` of fsio.rs and
--     `is_credential_file_name` of keys.rs
--   Store/Order, Membership, Decoded  theorems
--
-- How the model corresponds to the code. An operation that changes `&mut self` is a function from
-- state to state; a result goes with the state in a pair or an `Outcome`, whose `>>=` is `?`. The
-- names are the source's. Bytes are numbers and a report is a list of 64. The clock is an argument.
-- Frame tokens and identification tokens are unbounded, where the code panics at 2 ^ 64, and so are
-- times, where the code adds milliseconds in 64 bits without a check. A random generator is the
-- sequence of the values that it has yet to return. A store of the PIN is the sequence of its answers
-- with the state last published, and the cryptography of one PIN command (decryption, hashes,
-- decapsulation) is an argument, so what is shown holds for every answer. A read of the large-blob
-- array may fail. What a platform sends (`feed`, `write_fragments`, `read_fragments`), the events of
-- Pin/Guesses and Pin/Attempts, and the count of comparisons (`spent_comparisons`; Pin/Uncounted says
-- what it leaves out) are descriptions of runs, not code of the repository.
-- Fuel: `allocate_rounds` and `fresh_rounds` count the attempts of the source's own bounded loops;
-- `chunk_frames` has 128 rounds, the most continuation packets that a message has. `levels` of
-- `item_end` and `canonical_item_end` counts down what `depth` counts up to MAX_NESTING; the copy in
-- `request_parameters` has 17 levels of fuel, one more than the canonical form may have.
--
-- Not modelled: threads and system calls, the transport loop around the host, cryptography, the
-- credential commands, the files of the store, ciborium and the CBOR of responses, the command line.
mod Base
pub mod Cbor
pub mod Hid
pub mod Pin
pub mod LargeBlobs
pub mod Store
