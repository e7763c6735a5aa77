-- ===== src/LargeBlobs/Reading.antt =====
-- Reading the large-blob array back, fragment by fragment, through `handle_large_blobs` of large_blobs.rs.
use software_authenticator.Base.{
  drop-drop, if-elim, ℕ, zero, suc, ◌-◌, ◌+◌, ◌≤◌, ◌<◌, ◌≡◌, refl, ◌∙◌, ap, true, false, Option,
  none, some, List, [], ◌∷◌, ◌++◌, arith, ◌==◌, ltb, length, take, drop, length-take, length-drop,
  min, saturating_add, take-all, take-append-drop, if◌then◌else◌, u64_max, All,
}
use software_authenticator.Pin.Types.{Result, ok, err, published, CommitDurability}
use software_authenticator.Pin.Params.{integer, Params}
use software_authenticator.LargeBlobs.Types.{
  max_serialized_large_blob_array, max_fragment_length, Crypto, BlobApp, drop_state, is_valid_array,
}
use software_authenticator.LargeBlobs.Read.{
  fragment_at, large_blob_array, read_once, slice, read_array, get_fragment,
}
use software_authenticator.LargeBlobs.Write.{is_protected}
use software_authenticator.LargeBlobs.Handle.{read_reply, handle_decoded, handle_large_blobs}
use software_authenticator.LargeBlobs.Staging.{observed-elim, seen}
use software_authenticator.LargeBlobs.Transfer.{
  write_fragments, contents, IsFragment, IsTimely, IsWritten, write_fragments-IsWritten,
}

-- The request of a platform that reads `count` bytes: 1 is `get`.
abbrev pub request_at : ℕ → ℕ → Params
request_at offset count key =
    if key == 1 then some (integer count) else if key == 3 then some (integer offset) else none

take-min : (n : ℕ) (xs : List ℕ) → take (min n (length xs)) xs ≡ take n xs
take-min zero xs = ap (λ k. take k xs) (zeros (length xs))
  where
    zeros : (m : ℕ) → min 0 m ≡ 0
    zeros m = omega arith
take-min (suc n) [] = take-all (min (suc n) 0) [] (omega arith)
take-min (suc n) (x ∷ xs) =
    ap (λ k. take k (x ∷ xs)) (step (length xs)) ∙ ap (◌∷◌ x) (take-min n xs)
  where
    step : (m : ℕ) → min (suc n) (suc m) ≡ suc (min n m)
    step m = omega arith

fragment_at-take :
    (stored : List ℕ) (offset count : ℕ)
    → offset ≤ length stored
    → length stored ≤ u64_max
    → fragment_at stored offset count ≡ take count (drop offset stored)
fragment_at-take stored offset count inside small =
    ap (λ n. take n (drop offset stored)) cut ∙ take-min count (drop offset stored)
  where
    cut :
        min (saturating_add offset count) (length stored) - offset
        ≡ min count (length (drop offset stored))
    cut = ground (arith, length-drop offset stored)

-- The stored array is left, and one answer of the store is taken.
abbrev Leaves : BlobApp → BlobApp → Type 0
Leaves b b' = (b'.array ≡ b.array) × (b'.array_reads ≡ (λ n. b.array_reads (suc n)))

-- A get answers with the bytes from the offset, as many as asked for or as there are.
handle-get :
    (c : Crypto) (b : BlobApp) (stored : List ℕ) (offset count : ℕ)
    → b.array ≡ some stored
    → b.array_reads 0 ≡ true
    → length stored ≤ max_serialized_large_blob_array
    → offset ≤ length stored
    → count ≤ max_fragment_length
    → (handle_large_blobs c b (ok (request_at offset count))).1
      ≡ ok (some (take count (drop offset stored)))
unfolding handle_large_blobs get_fragment
handle-get c b stored offset count kept readable small inside short =
    observed-elim
      (λ (b' : BlobApp).
        (handle_decoded c b' (ok (request_at offset count))).1
        ≡ ok (some (take count (drop offset stored))))
      b true (read (drop_state (seen b)) kept readable) (read (drop_state (seen b)) kept readable)
  where
    short' : ltb max_fragment_length count ≡ false
    short' = ground arith

    inside' : ltb (length stored) offset ≡ false
    inside' = ground arith

    read :
        (b' : BlobApp)
        → b'.array ≡ some stored
        → b'.array_reads 0 ≡ true
        → Path
            (Result (Option (List ℕ)))
            (read_reply (read_array b' offset (ok count))).1
            (ok (some (take count (drop offset stored))))
    read b' kept readable =
        rw (
          short',
          readable,
          kept,
          inside',
          fragment_at-take stored offset count inside (omega arith),
        )

-- A get leaves the stored array, and takes one answer of the store.
handle-get-Leaves :
    (c : Crypto) (b : BlobApp) (offset count : ℕ)
    → count ≤ max_fragment_length
    → Leaves b (handle_large_blobs c b (ok (request_at offset count))).0
unfolding handle_large_blobs get_fragment
handle-get-Leaves c b offset count short =
    observed-elim
      (λ (b' : BlobApp). Leaves b (handle_decoded c b' (ok (request_at offset count))).0) b true
      (read (drop_state (seen b))) (read (drop_state (seen b)))
  where
    short' : ltb max_fragment_length count ≡ false
    short' = ground arith

    taken : (b' : BlobApp) (r : Result (List ℕ)) → Leaves b' (read_reply (read_once b', r)).0
    taken b' (ok fragment) = (refl, refl)
    taken b' (err e) = (refl, refl)

    read : (b' : BlobApp) → Leaves b' (read_reply (read_array b' offset (ok count))).0
    read b' = rw short' (taken b' (slice (large_blob_array b') offset count))

-- A platform goes on reading until a fragment is shorter than it asked for.
abbrev pub read_on : ℕ → Result (Option (List ℕ)) → List ℕ → List ℕ
read_on count (ok (some fragment)) rest =
    if ltb (length fragment) count then fragment else fragment ++ rest
read_on count (ok none) rest = []
read_on count (err e) rest = []

-- `requests` is a bound on how many it sends.
unfoldable pub read_fragments : Crypto → BlobApp → ℕ → ℕ → ℕ → List ℕ
read_fragments c b count offset zero = []
read_fragments c b count offset (suc requests) =
    let sent = handle_large_blobs c b (ok (request_at offset count)) in
    read_on count sent.1 (read_fragments c sent.0 count (offset + count) requests)

-- Reading on from an offset with enough requests gives all that is stored from there.
read_fragments-drop :
    (c : Crypto) (b : BlobApp) (stored : List ℕ) (count offset requests : ℕ)
    → b.array ≡ some stored
    → ((n : ℕ) → b.array_reads n ≡ true)
    → length stored ≤ max_serialized_large_blob_array
    → 0 < count
    → count ≤ max_fragment_length
    → offset ≤ length stored
    → length stored - offset < requests
    → read_fragments c b count offset requests ≡ drop offset stored
unfolding read_fragments
read_fragments-drop c b stored count offset zero kept readable small some_bytes short inside
      enough =
    absurd (omega arith)
read_fragments-drop c b stored count offset (suc requests) kept readable small some_bytes short
      inside enough =
    ap
      (λ r. read_on count r (
        read_fragments c (handle_large_blobs c b (ok (request_at offset count))).0 count
          (offset + count) requests))
      (handle-get c b stored offset count kept (readable 0) small inside short)
    ∙ if-elim (λ r. r ≡ drop offset stored) (ltb (length (take count (drop offset stored))) count) _
        _ (λ last. take-all count (drop offset stored) (ground (arith, shown)))
        (λ full.
          ap (λ rest. take count (drop offset stored) ++ rest)
            (read_fragments-drop c sent stored count (offset + count) requests (left.0 ∙ kept)
                (λ n. ap (λ reads. reads n) left.1 ∙ readable (suc n)) small some_bytes short
                (ground (arith, shown, length-drop offset stored))
                (ground (arith, shown, length-drop offset stored))
              ∙ drop-drop offset count stored)
          ∙ take-append-drop count (drop offset stored))
  where
    sent : BlobApp
    sent = (handle_large_blobs c b (ok (request_at offset count))).0

    left : Leaves b sent
    left = handle-get-Leaves c b offset count short

    shown : length (take count (drop offset stored)) ≡ min count (length (drop offset stored))
    shown = length-take count (drop offset stored)

-- Where no PIN is set and user verification is not always required, and the store takes the write and
-- answers every read, what a platform writes as a valid array cut into fragments, none empty and each at
-- most 1704 bytes, each sent less than 30 seconds after the one before, it reads back whole with gets of
-- any fixed count from 1 to 1704, in one request more than the array has bytes at most.
pub read_fragments-write_fragments :
    (c : Crypto) (b : BlobApp) (wait : ℕ) (fragment : List ℕ) (more : List (ℕ × List ℕ))
    (d : CommitDurability) (count : ℕ)
    → is_valid_array c.sha256 (fragment ++ contents more) ≡ true
    → is_protected b.app ≡ false
    → b.array_saves 0 ≡ published d
    → ((n : ℕ) → b.array_reads n ≡ true)
    → IsFragment fragment
    → All IsTimely more
    → 0 < count
    → count ≤ max_fragment_length
    → read_fragments c
        (write_fragments c b 0 (length (fragment ++ contents more)) ((wait, fragment) ∷ more)).0
        count
        0
        (suc (length (fragment ++ contents more)))
      ≡ fragment ++ contents more
unfolding is_valid_array
read_fragments-write_fragments c b wait fragment more d count valid free saved readable fits timely
      some_bytes short =
    read_fragments-drop c
      (write_fragments c b 0 (length (fragment ++ contents more)) ((wait, fragment) ∷ more)).0
      (fragment ++ contents more) count 0 (suc (length (fragment ++ contents more))) written.0
      (λ n. ap (λ reads. reads n) written.1 ∙ readable n) (ground arith) some_bytes short
      (omega arith) (omega arith)
  where
    written :
        IsWritten
          (fragment ++ contents more)
          b
          (write_fragments c b 0 (length (fragment ++ contents more)) ((wait, fragment) ∷ more))
    written = write_fragments-IsWritten c b wait fragment more d valid free saved fits timely
