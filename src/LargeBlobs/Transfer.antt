-- ===== src/LargeBlobs/Transfer.antt =====
-- A whole write of the large-blob array, fragment by fragment, through `handle_large_blobs` of
-- large_blobs.rs.
use software_authenticator.Base.{
  ℕ, ◌+◌, ◌≤◌, ◌<◌, ◌≡◌, refl, sym, ◌∙◌, ap, true, false, Option, none, some, List, [], ◌∷◌, ◌++◌,
  arith, is_some, length, length-append, append_assoc, append-nil, subst, All,
}
use software_authenticator.Pin.Types.{Result, ok, published, CommitDurability}
use software_authenticator.LargeBlobs.Types.{
  max_serialized_large_blob_array, max_fragment_length, write_timeout, Crypto, BlobApp,
  is_valid_array,
}
use software_authenticator.LargeBlobs.Write.{is_protected, finish}
use software_authenticator.LargeBlobs.Handle.{write_reply, handle_large_blobs}
use software_authenticator.LargeBlobs.Staging.{
  request_for, writing, later, seen, is_protected-look_if, handle_first, handle_next, finish-waits,
  finish-stores,
}

-- The fragments of a platform, put together. Each comes with the milliseconds since the one before.
abbrev pub contents : List (ℕ × List ℕ) → List ℕ
contents [] = []
contents ((wait, fragment) ∷ more) = fragment ++ contents more

-- A platform that sends what is left of a write: the time passes, the offsets follow the fragments, and
-- the replies are kept.
unfoldable pub write_fragments :
    Crypto → BlobApp → ℕ → ℕ → List (ℕ × List ℕ) → BlobApp × List (Result (Option (List ℕ)))
write_fragments c b offset total [] = (b, [])
write_fragments c b offset total ((wait, fragment) ∷ more) =
    let sent = handle_large_blobs c (later wait b) (ok (request_for offset total fragment)) in
    let rest = write_fragments c sent.0 (offset + length fragment) total more in
    (rest.0, sent.1 ∷ rest.1)

-- A fragment that a request can hold, and that is not empty.
abbrev pub IsFragment : List ℕ → Type 0
IsFragment fragment = (0 < length fragment) × (length fragment ≤ max_fragment_length)

-- A fragment that comes less than half a minute after the one before.
abbrev pub IsTimely : ℕ × List ℕ → Type 0
IsTimely (wait, fragment) = IsFragment fragment × (wait < write_timeout)

-- The array is stored, the reads to come are answered as before, and every request was answered with
-- success.
abbrev pub IsWritten : List ℕ → BlobApp → BlobApp × List (Result (Option (List ℕ))) → Type 0
IsWritten stored b r =
    (r.0.array ≡ some stored)
    × (r.0.array_reads ≡ b.array_reads)
    × All (λ reply. reply ≡ ok none) r.1

-- After this reply the rest of the write ends with the array.
abbrev Ends :
    Crypto → List ℕ → BlobApp → ℕ → List (ℕ × List ℕ) → BlobApp × Result (Option (List ℕ)) → Type 0
Ends c stored b offset more r =
    let rest = write_fragments c r.0 offset (length stored) more in
    IsWritten stored b (rest.0, r.1 ∷ rest.1)

module _ (c : Crypto) (stored : List ℕ) (enough : 17 ≤ length stored)
    (not_more : length stored ≤ max_serialized_large_blob_array)
    (valid : is_valid_array c.sha256 stored ≡ true) (d : CommitDurability) where
  write_last :
      (b : BlobApp) (staged : List ℕ)
      → b.array_saves 0 ≡ published d
      → staged ≡ stored
      → Ends c stored b
          (length staged)
          []
          (write_reply (finish c (writing b (length stored) staged)))
  unfolding write_fragments
  write_last b staged saved whole =
      subst (λ r. Ends c stored b (length staged) [] (write_reply r))
        (sym (
          finish-stores c (length stored) enough not_more b staged d (ap length whole)
            (ap (is_valid_array c.sha256) whole ∙ valid) saved))
        (ap some whole, refl, (refl, tt))

  write_more :
      (b : BlobApp) (staged : List ℕ) (more : List (ℕ × List ℕ))
      → is_protected b.app ≡ false
      → b.array_saves 0 ≡ published d
      → 0 < length staged
      → All IsTimely more
      → staged ++ contents more ≡ stored
      → Ends c stored b
          (length staged)
          more
          (write_reply (finish c (writing b (length stored) staged)))
  unfolding write_fragments
  write_more b staged [] free saved begun timely same =
      write_last b staged saved (sym (append-nil staged) ∙ same)
  write_more b staged ((wait, fragment) ∷ more) free saved begun timely same =
      let joined = rest (
        write_more (later wait b) (staged ++ fragment) more free saved
          (omega (arith, length-append staged fragment)) timely.1
          (append_assoc staged fragment (contents more) ∙ same)) in
      subst (λ r. Ends c stored b (length staged) ((wait, fragment) ∷ more) (write_reply r))
        (sym (
          finish-waits c (length stored) enough not_more b staged
            (omega (arith, longer, timely.0.0.0))))
        (joined.0, joined.1, (refl, joined.2))
    where
      longer : length staged + (length fragment + length (contents more)) ≡ length stored
      longer =
          ap (λ n. length staged + n) (sym (length-append fragment (contents more)))
          ∙ sym (length-append staged (fragment ++ contents more))
          ∙ ap length same

      rest :
          Ends c stored
            (later wait b)
            (length (staged ++ fragment))
            more
            (write_reply (finish c (writing (later wait b) (length stored) (staged ++ fragment))))
          → Ends c stored b (length staged + length fragment) more (
              handle_large_blobs c
                (later wait (writing b (length stored) staged))
                (ok (request_for (length staged) (length stored) fragment)))
      rest joined =
          subst (Ends c stored b (length staged + length fragment) more)
            (sym (
              handle_next c (length stored) enough not_more b wait staged fragment timely.0.1 free
                begun timely.0.0.1 (omega (arith, longer))))
            (subst
              (λ n. Ends c stored b n more (
                write_reply
                  (finish c (writing (later wait b) (length stored) (staged ++ fragment)))))
              (length-append staged fragment) joined)

-- Where no PIN is set and user verification is not always required, and the store takes the write, a
-- platform that cuts a valid array into fragments, none empty and each at most 1704 bytes, and sends
-- them in order at their offsets, each less than 30 seconds after the one before, has every request
-- answered with success and the array stored, whatever transfer was under way before.
pub write_fragments-IsWritten :
    (c : Crypto) (b : BlobApp) (wait : ℕ) (fragment : List ℕ) (more : List (ℕ × List ℕ))
    (d : CommitDurability)
    → is_valid_array c.sha256 (fragment ++ contents more) ≡ true
    → is_protected b.app ≡ false
    → b.array_saves 0 ≡ published d
    → IsFragment fragment
    → All IsTimely more
    → IsWritten
        (fragment ++ contents more)
        b
        (write_fragments c b 0 (length (fragment ++ contents more)) ((wait, fragment) ∷ more))
unfolding write_fragments is_valid_array
write_fragments-IsWritten c b wait fragment more d valid free saved fits timely =
    subst (Ends c stored b (0 + length fragment) more)
      (sym (
        handle_first c (length stored) enough not_more (later wait b) fragment free fits.1
          (omega (arith, length-append fragment (contents more)))))
      (subst
        (λ n.
          Ends c stored b n more
            (write_reply (finish c (writing (seen (later wait b)) (length stored) fragment))))
        (omega arith)
        (write_more c stored enough not_more valid d (seen (later wait b)) fragment more free' saved
          fits.0 timely refl))
  where
    stored : List ℕ
    stored = fragment ++ contents more

    enough : 17 ≤ length stored
    enough = ground arith

    not_more : length stored ≤ max_serialized_large_blob_array
    not_more = ground arith

    free' : is_protected (seen (later wait b)).app ≡ false
    free' = is_protected-look_if (is_some b.state.token) (later wait b).app ∙ free
