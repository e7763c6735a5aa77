-- ===== src/LargeBlobs/Types.antt =====
-- The state of authenticatorLargeBlobs: `LargeBlobState` of large_blobs.rs beside the PIN's part of
-- `CtapApp`, and the array that the store holds.
use software_authenticator.Base.{
  ℕ, ◌+◌, ◌*◌, ◌-◌, ◌&&◌, ◌||◌, Bool, false, not, Option, none, some, List, [], ◌==◌, leb,
  if◌then◌else◌, is_some, length, take, drop, bytes_eq,
}
use software_authenticator.Pin.Types.{
  Result, ok, err, CtapApp, Saved, PinProtocol, ctap1_err_invalid_parameter,
  ctap2_err_cbor_unexpected_type,
}
use software_authenticator.Pin.Params.{Value, integer, negative}
use software_authenticator.Pin.Token.{observe, in_use_id}

abbrev pub ctap1_err_invalid_length : ℕ
ctap1_err_invalid_length = 0x03

abbrev pub ctap1_err_invalid_seq : ℕ
ctap1_err_invalid_seq = 0x04

abbrev pub ctap2_err_large_blob_storage_full : ℕ
ctap2_err_large_blob_storage_full = 0x18

abbrev pub ctap2_err_puat_required : ℕ
ctap2_err_puat_required = 0x36

abbrev pub ctap2_err_integrity_failure : ℕ
ctap2_err_integrity_failure = 0x3D

abbrev pub ctap_cmd_large_blobs : ℕ
ctap_cmd_large_blobs = 0x0C

abbrev pub max_serialized_large_blob_array : ℕ
max_serialized_large_blob_array = 16384

abbrev pub max_msg_size : ℕ
max_msg_size = 57 + 29 * 59

abbrev pub max_fragment_length : ℕ
max_fragment_length = max_msg_size - 64

abbrev pub write_timeout : ℕ
write_timeout = 30000

pub record LargeBlobState : Type 0 where
  pub expected_next_offset : ℕ
  pub expected_length : ℕ
  pub buffer : List ℕ
  pub last_fragment : Option ℕ
  pub token : Option ℕ

abbrev pub default_state : LargeBlobState
default_state = record {
  expected_next_offset = 0;
  expected_length = 0;
  buffer = [];
  last_fragment = none;
  token = none;
}

-- SHA-256, and the `verify` of pin/protocol.rs on a protocol, a key, a message and a signature.
pub record Crypto : Type 0 where
  pub sha256 : List ℕ → List ℕ
  pub authentic : PinProtocol → List ℕ → List ℕ → List ℕ → Result {0} Unit

-- The engine with its transfer under way. `array` is what the store holds, or `none` before the first
-- write, `array_reads` whether the reads to come succeed, and `array_saves` the answers to the writes to
-- come.
pub record BlobApp : Type 0 where
  pub app : CtapApp
  pub state : LargeBlobState
  pub array : Option (List ℕ)
  pub array_reads : ℕ → Bool
  pub array_saves : ℕ → Saved

-- `self.large_blob_state = LargeBlobState::default()`.
abbrev pub drop_state : BlobApp → BlobApp
drop_state b = record b { state = default_state }

abbrev pub unsigned : Value → Result ℕ
unsigned (integer n) = ok n
unsigned (negative n) = err ctap1_err_invalid_parameter
unsigned _ = err ctap2_err_cbor_unexpected_type

-- `self.pin_state` after a getter looked at its token.
abbrev pub look : CtapApp → CtapApp
look app = record app { token = observe app.token app.now }

abbrev pub same_id : Option ℕ → ℕ → Bool
same_id none id = false
same_id (some n) id = n == id

abbrev pub is_stale : Option ℕ → ℕ → Bool
is_stale none now = false
is_stale (some last) now = leb write_timeout (now - last)

abbrev pub has_changed : Option ℕ → CtapApp → Bool
has_changed none app = false
has_changed (some id) app = not (same_id (in_use_id app.token app.now) id)

abbrev pub look_if : Bool → CtapApp → CtapApp
look_if looks app = if looks then look app else app

-- `same` is whether the command is authenticatorLargeBlobs.
unfoldable pub observe_large_blob_state : BlobApp → Bool → BlobApp
observe_large_blob_state b same =
    let looked = record b { app = look_if (is_some b.state.token) b.app } in
    if not same || is_stale b.state.last_fragment b.app.now || has_changed b.state.token b.app
    then drop_state looked
    else looked

-- `validate_large_blob_array`.
unfoldable pub is_valid_array : (List ℕ → List ℕ) → List ℕ → Bool
is_valid_array sha256 array =
    leb 17 (length array)
    && leb (length array) max_serialized_large_blob_array
    && bytes_eq (take 16 (sha256 (take (length array - 16) array))) (drop (length array - 16) array)
