-- ===== src/LargeBlobs/Staging.antt =====
-- One fragment of a write of the large-blob array: `handle_large_blobs` of large_blobs.rs.
use software_authenticator.Base.{
  if-elim, ℕ, ◌-◌, ◌+◌, ◌≤◌, ◌<◌, ◌≡◌, refl, ◌∙◌, ap, Bool, true, false, none, some, List, ◌++◌,
  arith, ◌==◌, ltb, leb, ◌||◌, ◌&&◌, is_some, length, u64_max, if◌then◌else◌,
}
use software_authenticator.Pin.Types.{ok, CtapApp, published, CommitDurability}
use software_authenticator.Pin.Params.{integer, bytes, Params}
use software_authenticator.LargeBlobs.Types.{
  max_serialized_large_blob_array, max_fragment_length, write_timeout, Crypto, BlobApp, drop_state,
  look_if, observe_large_blob_state, is_valid_array,
}
use software_authenticator.LargeBlobs.Write.{
  is_protected, authorize_fragment, saved_once, finish, set_fragment,
}
use software_authenticator.LargeBlobs.Handle.{write_reply, handle_decoded, handle_large_blobs}

abbrev pub seen : BlobApp → BlobApp
seen b = record b { app = look_if (is_some b.state.token) b.app }

-- What holds with the transfer dropped and with the transfer kept holds after the command is observed.
pub observed-elim {κ} :
    (P : BlobApp → Type κ) (b : BlobApp) (same : Bool)
    → P (drop_state (seen b))
    → P (seen b)
    → P (observe_large_blob_state b same)
unfolding observe_large_blob_state
observed-elim P b same dropped kept = if-elim P _ _ _ (λ stale. dropped) (λ fresh. kept)

-- The request of a platform that writes this fragment of an array of `total` bytes: 2 is `set`, 3 the
-- offset and 4 the length, which only the first fragment announces.
abbrev pub request_for : ℕ → ℕ → List ℕ → Params
request_for offset total fragment key =
    if key == 2
    then some (bytes fragment)
    else if key == 3
    then some (integer offset)
    else if key == 4 && offset == 0
    then some (integer total)
    else none

-- The engine in the middle of an unprotected write of `total` bytes, with these staged just now.
abbrev pub writing : BlobApp → ℕ → List ℕ → BlobApp
writing b total staged = record b {
  state = record {
    expected_next_offset = length staged;
    expected_length = total;
    buffer = staged;
    last_fragment = some b.app.now;
    token = none;
  };
}

-- The engine after this many milliseconds.
abbrev pub later : ℕ → BlobApp → BlobApp
later wait b = record b { app = record b.app { now = b.app.now + wait } }

pub is_protected-look_if :
    (looks : Bool) (app : CtapApp) → is_protected (look_if looks app) ≡ is_protected app
is_protected-look_if true app = refl
is_protected-look_if false app = refl

module _ (c : Crypto) (total : ℕ) (enough : 17 ≤ total)
    (not_more : total ≤ max_serialized_large_blob_array) where
  set_first :
      (b : BlobApp) (fragment : List ℕ)
      → is_protected b.app ≡ false
      → length fragment ≤ max_fragment_length
      → length fragment ≤ total
      → set_fragment c b (request_for 0 total fragment) 0 fragment
        ≡ finish c (writing b total fragment)
  unfolding set_fragment authorize_fragment
  set_first b fragment free short fits = rw (short', most, least, free, inside, free)
    where
      short' : ltb max_fragment_length (length fragment) ≡ false
      short' = ground arith

      most : ltb max_serialized_large_blob_array total ≡ false
      most = ground arith

      least : ltb total 17 ≡ false
      least = ground arith

      inside : (ltb u64_max (0 + length fragment) || ltb total (0 + length fragment)) ≡ false
      inside = ground arith

  set_next :
      (b : BlobApp) (wait : ℕ) (staged fragment : List ℕ)
      → is_protected b.app ≡ false
      → 0 < length staged
      → length fragment ≤ max_fragment_length
      → length staged + length fragment ≤ total
      → set_fragment c
          (later wait (writing b total staged))
          (request_for (length staged) total fragment)
          (length staged)
          fragment
        ≡ finish c (writing (later wait b) total (staged ++ fragment))
  unfolding set_fragment authorize_fragment
  set_next b wait staged fragment free begun short fits =
      rw (short', not_first, here, free, inside, not_first)
    where
      short' : ltb max_fragment_length (length fragment) ≡ false
      short' = ground arith

      not_first : (length staged == 0) ≡ false
      not_first = ground arith

      here : (length staged == length staged) ≡ true
      here = ground arith

      inside :
          (ltb u64_max (length staged + length fragment)
            || ltb total (length staged + length fragment))
          ≡ false
      inside = ground arith

  -- The first fragment starts the write afresh, whatever was under way.
  pub handle_first :
      (b : BlobApp) (fragment : List ℕ)
      → is_protected b.app ≡ false
      → length fragment ≤ max_fragment_length
      → length fragment ≤ total
      → handle_large_blobs c b (ok (request_for 0 total fragment))
        ≡ write_reply (finish c (writing (seen b) total fragment))
  unfolding handle_large_blobs observe_large_blob_state
  handle_first b fragment free short fits =
      observed-elim
        (λ (b' : BlobApp).
          handle_decoded c b' (ok (request_for 0 total fragment))
          ≡ write_reply (finish c (writing (seen b) total fragment)))
        b true (ap write_reply (set_first (drop_state (seen b)) fragment free' short fits))
        (ap write_reply (set_first (seen b) fragment free' short fits))
    where
      free' : is_protected (seen b).app ≡ false
      free' = is_protected-look_if (is_some b.state.token) b.app ∙ free

  -- The next fragment comes in time.
  pub handle_next :
      (b : BlobApp) (wait : ℕ) (staged fragment : List ℕ)
      → wait < write_timeout
      → is_protected b.app ≡ false
      → 0 < length staged
      → length fragment ≤ max_fragment_length
      → length staged + length fragment ≤ total
      → handle_large_blobs c
          (later wait (writing b total staged))
          (ok (request_for (length staged) total fragment))
        ≡ write_reply (finish c (writing (later wait b) total (staged ++ fragment)))
  unfolding handle_large_blobs observe_large_blob_state
  handle_next b wait staged fragment in_time free begun short fits =
      rw (fresh) (ap write_reply (set_next b wait staged fragment free begun short fits))
    where
      fresh : leb write_timeout (b.app.now + wait - b.app.now) ≡ false
      fresh = ground arith

  pub finish-waits :
      (b : BlobApp) (staged : List ℕ)
      → length staged < total
      → finish c (writing b total staged) ≡ (writing b total staged, ok tt)
  unfolding finish
  finish-waits b staged more = rw (not_all)
    where
      not_all : (length staged == total) ≡ false
      not_all = ground arith

  pub finish-stores :
      (b : BlobApp) (staged : List ℕ) (d : CommitDurability)
      → length staged ≡ total
      → is_valid_array c.sha256 staged ≡ true
      → b.array_saves 0 ≡ published d
      → finish c (writing b total staged)
        ≡ (record (saved_once (writing b total staged)) { array = some staged }, ok tt)
  unfolding finish
  finish-stores b staged d all valid saved = rw (all', valid, saved)
    where
      all' : (length staged == total) ≡ true
      all' = ground arith
