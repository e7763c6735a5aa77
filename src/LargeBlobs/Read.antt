-- ===== src/LargeBlobs/Read.antt =====
-- The get branch of `handle_large_blobs` (large_blobs.rs).
use software_authenticator.Base.{
  ℕ, suc, ◌-◌, ◌||◌, List, [], ◌∷◌, ltb, if◌then◌else◌, is_some, length, take, drop, min,
  saturating_add, unwrap_or,
}
use software_authenticator.Pin.Types.{Result, ok, err, ctap1_err_invalid_parameter}
use software_authenticator.Pin.Params.{Value, Params}
use software_authenticator.LargeBlobs.Types.{
  BlobApp, max_fragment_length, ctap1_err_invalid_length, unsigned,
}

abbrev pub initial_large_blob_array : List ℕ
initial_large_blob_array =
    0x80 ∷ 0x76 ∷ 0xbe ∷ 0x8b ∷ 0x52 ∷ 0x8d ∷ 0x00 ∷ 0x75 ∷ 0xf7 ∷ 0xaa ∷ 0xe9 ∷ 0x8d ∷ 0x6f ∷ 0xa5
    ∷ 0x7a ∷ 0x6d ∷ 0x3c ∷ []

-- `&array[start..end]`.
abbrev pub fragment_at : List ℕ → ℕ → ℕ → List ℕ
fragment_at array offset count =
    take (min (saturating_add offset count) (length array) - offset) (drop offset array)

-- `large_blob_array`, whose failure leaves the initial array.
abbrev pub large_blob_array : BlobApp → List ℕ
large_blob_array b =
    if b.array_reads 0 then unwrap_or b.array initial_large_blob_array else initial_large_blob_array

abbrev pub read_once : BlobApp → BlobApp
read_once b = record b { array_reads = λ n. b.array_reads (suc n) }

abbrev pub slice : List ℕ → ℕ → ℕ → Result (List ℕ)
slice array offset count =
    if ltb (length array) offset
    then err ctap1_err_invalid_parameter
    else ok (fragment_at array offset count)

abbrev pub read_array : BlobApp → ℕ → Result ℕ → BlobApp × Result (List ℕ)
read_array b offset (err e) = (b, err e)
read_array b offset (ok count) =
    if ltb max_fragment_length count
    then (b, err ctap1_err_invalid_length)
    else (read_once b, slice (large_blob_array b) offset count)

unfoldable pub get_fragment : BlobApp → Params → ℕ → Value → BlobApp × Result (List ℕ)
get_fragment b p offset count =
    if is_some (p 4) || is_some (p 5) || is_some (p 6)
    then (b, err ctap1_err_invalid_parameter)
    else read_array b offset (unsigned count)
