-- ===== src/LargeBlobs/Write.antt =====
-- The set branch of `handle_large_blobs` (large_blobs.rs).
use software_authenticator.Base.{
  ℕ, suc, ◌+◌, ◌/◌, ◌%◌, ◌^◌, ◌||◌, Bool, not, Option, none, some, List, [], ◌∷◌, ◌++◌, ◌==◌, ltb,
  leb, if◌then◌else◌, is_some, length, replicate, u64_max,
}
use software_authenticator.Pin.Types.{
  Result, ok, err, CtapApp, PinProtocol, Saved, published, refused, ctap1_err_invalid_parameter,
  ctap2_err_cbor_unexpected_type, ctap2_err_pin_auth_invalid,
}
use software_authenticator.Pin.Params.{Value, bytes, Params, parse_required_pin_uv_auth_protocol}
use software_authenticator.Pin.Permissions.{pin_permission_lbw}
use software_authenticator.Pin.Retry.{is_set}
use software_authenticator.Pin.Token.{verify, has_permission, in_use_id}
use software_authenticator.Pin.Storage.{store_status}
use software_authenticator.LargeBlobs.Types.{
  LargeBlobState, Crypto, BlobApp, drop_state, unsigned, look, is_valid_array, max_fragment_length,
  max_serialized_large_blob_array, ctap_cmd_large_blobs, ctap1_err_invalid_length,
  ctap1_err_invalid_seq, ctap2_err_large_blob_storage_full, ctap2_err_puat_required,
  ctap2_err_integrity_failure,
}

abbrev pub is_protected : CtapApp → Bool
is_protected app = is_set app.pin || app.pin.persistent.always_uv

abbrev pub announced_length : Option Value → Result ℕ
announced_length none = err ctap1_err_invalid_parameter
announced_length (some v) = elim (unsigned v) [
  | err e ↦ err e
  | ok n ↦
      if ltb max_serialized_large_blob_array n
      then err ctap2_err_large_blob_storage_full
      else if ltb n 17
      then err ctap1_err_invalid_parameter
      else ok n
]

-- The state once the request's length, which only the first fragment has, is taken in.
abbrev pub announce : LargeBlobState → ℕ → Option Value → Result LargeBlobState
announce s offset total =
    if offset == 0
    then elim (announced_length total) [
      | err e ↦ err e
      | ok n ↦ ok (record s { expected_length = n; expected_next_offset = 0 })
    ]
    else if is_some total
    then err ctap1_err_invalid_parameter
    else ok s

abbrev le32 : ℕ → List ℕ
le32 n = (n % 256) ∷ (n / 256 % 256) ∷ (n / 65536 % 256) ∷ (n / 16777216 % 256) ∷ []

-- What the platform authenticates with each fragment.
abbrev pub fragment_message : Crypto → ℕ → List ℕ → List ℕ
fragment_message c offset fragment =
    replicate 32 0xff ++ (ctap_cmd_large_blobs ∷ 0 ∷ []) ++ le32 offset ++ c.sha256 fragment

-- The token is looked at by the verification and again for its permission.
abbrev pub permit : CtapApp → Result {0} Unit → CtapApp × Result {0} Unit
permit app (err e) = (app, err e)
permit app (ok t) = (
  look app,
  if has_permission app.token app.now pin_permission_lbw
      then ok tt
      else err ctap2_err_pin_auth_invalid,
)

abbrev pub verify_fragment :
    Crypto → CtapApp → ℕ → List ℕ → List ℕ → PinProtocol → CtapApp × Result {0} Unit
verify_fragment c app offset fragment auth protocol =
    let verified =
      verify app.token app.now protocol
        (λ key. c.authentic protocol key (fragment_message c offset fragment) auth) in
    permit (record app { token = verified.0 }) verified.1

abbrev pub authorize_with :
    Crypto → CtapApp → ℕ → List ℕ → Value → Result PinProtocol → CtapApp × Result {0} Unit
authorize_with c app offset fragment auth (err e) = (app, err e)
authorize_with c app offset fragment (bytes auth) (ok protocol) =
    if leb (2 ^ 32) offset
    then (app, err ctap1_err_invalid_parameter)
    else verify_fragment c app offset fragment auth protocol
authorize_with c app offset fragment _ (ok protocol) = (app, err ctap2_err_cbor_unexpected_type)

abbrev pub authorize_parameter :
    Crypto → CtapApp → ℕ → List ℕ → Option Value → Option Value → CtapApp × Result {0} Unit
authorize_parameter c app offset fragment none protocol = (app, err ctap2_err_puat_required)
authorize_parameter c app offset fragment (some auth) protocol =
    authorize_with c app offset fragment auth (parse_required_pin_uv_auth_protocol protocol)

unfoldable pub authorize_fragment :
    Crypto → CtapApp → Params → ℕ → List ℕ → CtapApp × Result {0} Unit
authorize_fragment c app p offset fragment =
    if is_protected app then authorize_parameter c app offset fragment (p 5) (p 6) else (app, ok tt)

-- The first fragment empties the buffer and records the token.
abbrev pub restart_if_first : BlobApp → ℕ → BlobApp
restart_if_first b offset =
    if offset == 0
    then record b {
      app = if is_protected b.app then look b.app else b.app;
      state = record b.state {
        buffer = [];
        token = if is_protected b.app then in_use_id b.app.token b.app.now else none;
      };
    }
    else b

abbrev pub extend : BlobApp → List ℕ → BlobApp
extend b fragment = record b {
  state = record b.state {
    buffer = b.state.buffer ++ fragment;
    expected_next_offset = length (b.state.buffer ++ fragment);
    last_fragment = some b.app.now;
  };
}

abbrev pub save_array : BlobApp → Saved → BlobApp × Result {0} Unit
save_array b (refused e) = (b, err (store_status e))
save_array b (published durability) = (record b { array = some b.state.buffer }, ok tt)

abbrev pub saved_once : BlobApp → BlobApp
saved_once b = record b { array_saves = λ n. b.array_saves (suc n) }

-- Once the last byte is there the array is checked and written.
unfoldable pub finish : Crypto → BlobApp → BlobApp × Result {0} Unit
finish c b =
    if not (b.state.expected_next_offset == b.state.expected_length)
    then (b, ok tt)
    else if is_valid_array c.sha256 b.state.buffer
    then save_array (saved_once b) (b.array_saves 0)
    else (drop_state b, err ctap2_err_integrity_failure)

abbrev pub append_fragment : Crypto → BlobApp → ℕ → List ℕ → BlobApp × Result {0} Unit
append_fragment c b offset fragment =
    if ltb u64_max (offset + length fragment)
      || ltb b.state.expected_length (offset + length fragment)
    then (b, err ctap1_err_invalid_parameter)
    else finish c (extend (restart_if_first b offset) fragment)

abbrev pub append_authorized :
    Crypto → BlobApp → ℕ → List ℕ → CtapApp × Result {0} Unit → BlobApp × Result {0} Unit
append_authorized c b offset fragment (app, err e) = (record b { app = app }, err e)
append_authorized c b offset fragment (app, ok t) =
    append_fragment c (record b { app = app }) offset fragment

abbrev pub append_announced :
    Crypto → BlobApp → Params → ℕ → List ℕ → Result LargeBlobState → BlobApp × Result {0} Unit
append_announced c b p offset fragment (err e) = (b, err e)
append_announced c b p offset fragment (ok s) =
    if not (offset == s.expected_next_offset)
    then (drop_state b, err ctap1_err_invalid_seq)
    else append_authorized c (record b { state = s }) offset fragment
        (authorize_fragment c b.app p offset fragment)

unfoldable pub set_fragment : Crypto → BlobApp → Params → ℕ → List ℕ → BlobApp × Result {0} Unit
set_fragment c b p offset fragment =
    if ltb max_fragment_length (length fragment)
    then (b, err ctap1_err_invalid_length)
    else append_announced c b p offset fragment (announce b.state offset (p 4))

abbrev pub set_value : Crypto → BlobApp → Params → ℕ → Value → BlobApp × Result {0} Unit
set_value c b p offset (bytes fragment) = set_fragment c b p offset fragment
set_value c b p offset _ = (drop_state b, err ctap2_err_cbor_unexpected_type)
