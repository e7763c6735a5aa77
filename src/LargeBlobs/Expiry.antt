-- ===== src/LargeBlobs/Expiry.antt =====
-- When a write under way is given up: `observe_large_blob_state` of large_blobs.rs.
use software_authenticator.Base.{
  ℕ, ◌+◌, ◌-◌, ◌≤◌, ◌<◌, ◌≡◌, ◌≢◌, ◌⊎◌, inl, inr, refl, ap, Bool, true, false, Option, none, some,
  List, arith, ◌==◌, ltb, leb, ◌||◌, length, ==_iff, Bool-cases,
}
use software_authenticator.Pin.Types.{ok, err}
use software_authenticator.Pin.Params.{integer, bytes, Params}
use software_authenticator.Pin.Token.{in_use_id}
use software_authenticator.LargeBlobs.Types.{
  ctap1_err_invalid_seq, max_fragment_length, write_timeout, Crypto, BlobApp, drop_state, same_id,
  is_stale, observe_large_blob_state,
}
use software_authenticator.LargeBlobs.Write.{set_fragment}
use software_authenticator.LargeBlobs.Handle.{handle_large_blobs}
use software_authenticator.LargeBlobs.Staging.{seen}

-- The last fragment came half a minute ago or more, or the token of the first is no longer in use.
abbrev pub IsLapsed : BlobApp → Type 0
IsLapsed b =
    ((last : ℕ) × (b.state.last_fragment ≡ some last) × (last + write_timeout ≤ b.app.now))
    ⊎ ((id : ℕ) × (b.state.token ≡ some id) × (in_use_id b.app.token b.app.now ≢ some id))

-- A set of a fragment that is not the first.
abbrev pub IsContinuation : Params → ℕ → List ℕ → Type 0
IsContinuation p offset fragment =
    (p 1 ≡ none)
    × (p 2 ≡ some (bytes fragment))
    × (p 3 ≡ some (integer offset))
    × (p 4 ≡ none)
    × (0 < offset)
    × (length fragment ≤ max_fragment_length)

same_id-false : (o : Option ℕ) (id : ℕ) → o ≢ some id → same_id o id ≡ false
same_id-false none id other = refl
same_id-false (some n) id other = elim (Bool-cases (n == id)) [
  | inl same ↦ absurd (other (ap some ((==_iff n id).0 same)))
  | inr different ↦ different
]

or_true : (b : Bool) → (b || true) ≡ true
or_true true = refl
or_true false = refl

gives_up : (b : BlobApp) → IsLapsed b → observe_large_blob_state b true ≡ drop_state (seen b)
unfolding observe_large_blob_state
gives_up b (inl (last, kept, old)) = rw (kept, stale)
  where
    stale : leb write_timeout (b.app.now - last) ≡ true
    stale = ground arith
gives_up b (inr (id, kept, changed)) = rw (
  kept,
  same_id-false (in_use_id b.app.token b.app.now) id changed,
  or_true (is_stale b.state.last_fragment b.app.now),
)

-- A fragment that continues a write which has lapsed is refused with CTAP1_ERR_INVALID_SEQ, its
-- authentication unread, and nothing of the write is kept.
pub handle_large_blobs-IsLapsed :
    (c : Crypto) (b : BlobApp) (p : Params) (offset : ℕ) (fragment : List ℕ)
    → IsLapsed b
    → IsContinuation p offset fragment
    → handle_large_blobs c b (ok p) ≡ (drop_state (seen b), err ctap1_err_invalid_seq)
unfolding handle_large_blobs set_fragment
handle_large_blobs-IsLapsed c b p offset fragment lapsed (get, set, at, total, later, short) =
    rw (gives_up b lapsed, get, set, at, get, set, short', total, later', later')
  where
    short' : ltb max_fragment_length (length fragment) ≡ false
    short' = ground arith

    later' : (offset == 0) ≡ false
    later' = ground arith
