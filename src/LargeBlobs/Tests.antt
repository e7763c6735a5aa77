-- ===== src/LargeBlobs/Tests.antt =====
-- Concrete runs of authenticatorLargeBlobs (large_blobs.rs).
use software_authenticator.Base.{
  ℕ, ◌≡◌, ◌∷◌, refl, inl, true, false, none, some, List, [], ◌++◌, arith, ◌==◌, replicate,
  if◌then◌else◌, bytes_eq,
}
use software_authenticator.Pin.Types.{
  ok, err, default_pin_state, StoredPinState, flushed, supported, found, published, erased, CtapApp,
  v1, InUseToken,
}
use software_authenticator.Pin.Params.{Params, bytes, integer}
use software_authenticator.Pin.Permissions.{pin_permission_lbw}
use software_authenticator.Pin.Token.{observe}
use software_authenticator.LargeBlobs.Types.{
  ctap1_err_invalid_seq, default_state, Crypto, BlobApp, drop_state, observe_large_blob_state,
  is_valid_array,
}
use software_authenticator.LargeBlobs.Write.{authorize_fragment, finish, set_fragment}
use software_authenticator.LargeBlobs.Handle.{handle_large_blobs}
use software_authenticator.LargeBlobs.Integrity.{IsSound, handle_large_blobs-IsSound}
use software_authenticator.LargeBlobs.Staging.{request_for, writing}
use software_authenticator.LargeBlobs.Transfer.{
  write_fragments, IsWritten, write_fragments-IsWritten,
}
use software_authenticator.LargeBlobs.Reading.{read_fragments, read_fragments-write_fragments}
use software_authenticator.LargeBlobs.Expiry.{handle_large_blobs-IsLapsed}

-- A hash that is always the same, and a signature that is always right.
abbrev crypto : Crypto
crypto = record {
  sha256 = λ message. replicate 32 7;
  authentic = λ protocol key message auth. ok tt;
}

abbrev app : CtapApp
app = record {
  pin = record { persistent = default_pin_state; consecutive_mismatches = 0 };
  key_agreement = record { protocol_one = none; protocol_two = none };
  token = record { in_use = none; issued = 0 };
  persistent_generation = 0;
  stored_pin_state = StoredPinState.read;
  directory_flush = none;
  enumerating = false;
  store = record {
    loads = λ n. found none;
    saves = λ n. published flushed;
    clears = λ n. erased flushed;
    flushes = λ n. supported;
    stored = none;
  };
  rng = λ n. n ∷ [];
  now = 40000;
}

abbrev before : BlobApp
before = record {
  app = app;
  state = default_state;
  array = none;
  array_reads = λ n. true;
  array_saves = λ n. published flushed;
}

abbrev lbw_token : InUseToken
lbw_token = record {
  value = 9 ∷ [];
  protocol = v1;
  origin = none;
  permissions = pin_permission_lbw;
  permissions_rp_id = none;
  started_at = 39000;
  id = 1;
  used = false;
  user_present = false;
  user_verified = true;
}

abbrev with_token : BlobApp
with_token = record before {
  app = record app {
    pin = record {
      persistent = record default_pin_state { pin_hash = some (1 ∷ []) };
      consecutive_mismatches = 0;
    };
    token = record { in_use = some lbw_token; issued = 1 };
  };
}

abbrev first_part : List ℕ
first_part = 1 ∷ replicate 9 7

abbrev second_part : List ℕ
second_part = replicate 7 7

abbrev whole : List ℕ
whole = first_part ++ second_part

-- The second part comes almost half a minute after the first.
abbrev in_two : List (ℕ × List ℕ)
in_two = (5000, first_part) ∷ (29999, second_part) ∷ []

-- The whole array in one authenticated fragment.
abbrev signed : Params
signed key =
    if key == 5
    then some (bytes [])
    else if key == 6
    then some (integer 1)
    else request_for 0 17 whole key

signed_write_stores : (handle_large_blobs crypto with_token (ok signed)).0.array ≡ some whole
unfolding handle_large_blobs observe_large_blob_state observe set_fragment authorize_fragment finish
    is_valid_array bytes_eq software_authenticator.Pin.Token.verify
signed_write_stores = refl

handle_large_blobs-IsSound_example :
    IsSound crypto with_token (handle_large_blobs crypto with_token (ok signed)).0
handle_large_blobs-IsSound_example = handle_large_blobs-IsSound crypto with_token (ok signed)

write_fragments-IsWritten_example :
    IsWritten whole before (write_fragments crypto before 0 17 in_two)
unfolding is_valid_array bytes_eq
write_fragments-IsWritten_example =
    write_fragments-IsWritten crypto before 5000 first_part ((29999, second_part) ∷ []) flushed refl
      refl refl (omega arith, omega arith) (((omega arith, omega arith), omega arith), tt)

read_fragments-write_fragments_example :
    read_fragments crypto (write_fragments crypto before 0 17 in_two).0 5 0 18 ≡ whole
unfolding is_valid_array bytes_eq
read_fragments-write_fragments_example =
    read_fragments-write_fragments crypto before 5000 first_part ((29999, second_part) ∷ []) flushed
      5 refl refl refl (λ n. refl) (omega arith, omega arith)
      (((omega arith, omega arith), omega arith), tt) (omega arith) (omega arith)

-- Ten bytes of 17 are staged since 10 seconds after the start, and it is now 40 seconds after it.
abbrev waited : BlobApp
waited = record (writing before 17 first_part) {
  state = record (writing before 17 first_part).state { last_fragment = some 10000 };
}

handle_large_blobs-IsLapsed_example :
    handle_large_blobs crypto waited (ok (request_for 10 17 second_part))
    ≡ (drop_state waited, err ctap1_err_invalid_seq)
handle_large_blobs-IsLapsed_example =
    handle_large_blobs-IsLapsed crypto waited (request_for 10 17 second_part) 10 second_part
      (inl (10000, refl, omega arith)) (refl, refl, refl, refl, omega arith, omega arith)
