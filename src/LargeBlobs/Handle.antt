-- ===== src/LargeBlobs/Handle.antt =====
-- `handle_large_blobs` (large_blobs.rs).
use software_authenticator.Base.{
  ℕ, ◌||◌, true, Option, none, some, List, if◌then◌else◌, is_some, is_none,
}
use software_authenticator.Pin.Types.{Result, ok, err, ctap1_err_invalid_parameter}
use software_authenticator.Pin.Params.{Value, Params}
use software_authenticator.LargeBlobs.Types.{
  Crypto, BlobApp, drop_state, unsigned, observe_large_blob_state,
}
use software_authenticator.LargeBlobs.Read.{get_fragment}
use software_authenticator.LargeBlobs.Write.{set_value}

-- A fragment for a get, or nothing for a set.
abbrev pub read_reply : BlobApp × Result (List ℕ) → BlobApp × Result (Option (List ℕ))
read_reply (b, ok fragment) = (b, ok (some fragment))
read_reply (b, err e) = (b, err e)

abbrev pub write_reply : BlobApp × Result {0} Unit → BlobApp × Result (Option (List ℕ))
write_reply (b, ok t) = (b, ok none)
write_reply (b, err e) = (b, err e)

abbrev pub get_or_set :
    Crypto → BlobApp → Params → ℕ → Option Value → Option Value → BlobApp × Result (Option (List ℕ))
get_or_set c b p offset none none = (b, err ctap1_err_invalid_parameter)
get_or_set c b p offset (some count) (some v) = (b, err ctap1_err_invalid_parameter)
get_or_set c b p offset (some count) none = read_reply (get_fragment b p offset count)
get_or_set c b p offset none (some v) = write_reply (set_value c b p offset v)

abbrev pub at_offset : Crypto → BlobApp → Params → Result ℕ → BlobApp × Result (Option (List ℕ))
at_offset c b p (err e) = (drop_state b, err e)
at_offset c b p (ok offset) = get_or_set c b p offset (p 1) (p 2)

abbrev pub with_offset :
    Crypto → BlobApp → Params → Option Value → BlobApp × Result (Option (List ℕ))
with_offset c b p none = (b, err ctap1_err_invalid_parameter)
with_offset c b p (some v) = at_offset c b p (unsigned v)

abbrev pub drop_unless_set : BlobApp → Params → BlobApp
drop_unless_set b p = if is_some (p 1) || is_none (p 2) || is_none (p 3) then drop_state b else b

abbrev pub handle_decoded : Crypto → BlobApp → Result Params → BlobApp × Result (Option (List ℕ))
handle_decoded c b (err status) = (drop_state b, err status)
handle_decoded c b (ok p) = with_offset c (drop_unless_set b p) p (p 3)

-- `request` is the decoded payload, or the status of a payload that is no request.
unfoldable pub handle_large_blobs :
    Crypto → BlobApp → Result Params → BlobApp × Result (Option (List ℕ))
handle_large_blobs c b request = handle_decoded c (observe_large_blob_state b true) request
