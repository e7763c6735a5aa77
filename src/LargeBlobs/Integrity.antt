-- ===== src/LargeBlobs/Integrity.antt =====
-- What can come to be stored: `handle_large_blobs` of large_blobs.rs.
use software_authenticator.Base.{
  ◌⊎◌, inl, inr, if-elim, ℕ, ◌+◌, ◌≡◌, refl, sym, ◌∙◌, ap, is_some, Bool, true, not, Option, none,
  some, List, ◌==◌, ltb, ◌||◌, length, u64_max, subst,
}
use software_authenticator.Pin.Types.{Result, ok, err, CtapApp, Saved, published, refused}
use software_authenticator.Pin.Params.{
  Value, integer, negative, bytes, text, array, mapping, boolean, other, Params,
}
use software_authenticator.LargeBlobs.Types.{
  max_fragment_length, LargeBlobState, Crypto, BlobApp, unsigned, look, observe_large_blob_state,
  is_valid_array,
}
use software_authenticator.LargeBlobs.Read.{read_array, get_fragment}
use software_authenticator.LargeBlobs.Write.{
  is_protected, announce, authorize_fragment, restart_if_first, extend, save_array, saved_once,
  finish, append_fragment, append_authorized, append_announced, set_fragment, set_value,
}
use software_authenticator.LargeBlobs.Handle.{
  read_reply, write_reply, get_or_set, at_offset, with_offset, drop_unless_set, handle_decoded,
  handle_large_blobs,
}
use software_authenticator.LargeBlobs.Authorization.{
  MayWrite, look-MayWrite, MayIfProtected, authorize_fragment-May,
}

-- The stored array is as before; or it is now a valid one, and where a PIN is set or user verification
-- is always required, a token with the permission lbw is in use.
abbrev pub IsSound : Crypto → BlobApp → BlobApp → Type 0
IsSound c b b' =
    (b'.array ≡ b.array)
    ⊎ ((stored : List ℕ) × (b'.array ≡ some stored)
        × (is_valid_array c.sha256 stored ≡ true)
        × (is_protected b'.app ≡ true → MayWrite b'.app))

finish-IsSound : (c : Crypto) (b : BlobApp) → MayIfProtected b.app → IsSound c b (finish c b).0
unfolding finish
finish-IsSound c b may =
    if-elim (λ (r : BlobApp × Result {0} Unit). IsSound c b r.0)
      (not (b.state.expected_next_offset == b.state.expected_length)) _ _ (λ more. inl refl)
      (λ all.
        if-elim (λ (r : BlobApp × Result {0} Unit). IsSound c b r.0)
          (is_valid_array c.sha256 b.state.buffer) _ _ (λ valid. saving (b.array_saves 0) valid)
          (λ invalid. inl refl))
  where
    saving :
        (s : Saved)
        → is_valid_array c.sha256 b.state.buffer ≡ true
        → IsSound c b (save_array (saved_once b) s).0
    saving (published d) valid = inr (b.state.buffer, refl, valid, may)
    saving (refused e) valid = inl refl

restart_if_first-May :
    (b : BlobApp) (offset : ℕ)
    → MayIfProtected b.app
    → MayIfProtected (restart_if_first b offset).app
restart_if_first-May b offset may =
    if-elim (λ (b' : BlobApp). MayIfProtected b'.app) (offset == 0) _ _
      (λ first.
        if-elim MayIfProtected (is_protected b.app) (look b.app) b.app
          (λ guarded protected. look-MayWrite b.app (may protected))
          (λ free protected. may protected))
      (λ later protected. may protected)

restart_if_first-array : (b : BlobApp) (offset : ℕ) → (restart_if_first b offset).array ≡ b.array
restart_if_first-array b offset =
    if-elim (λ (b' : BlobApp). b'.array ≡ b.array) (offset == 0) _ _ (λ first. refl) (λ later. refl)

-- Two apps with the same stored array are as good as each other to start from.
IsSound-from :
    (c : Crypto) (b₁ b₂ b' : BlobApp) → b₂.array ≡ b₁.array → IsSound c b₂ b' → IsSound c b₁ b'
IsSound-from c b₁ b₂ b' same (inl kept) = inl (kept ∙ same)
IsSound-from c b₁ b₂ b' same (inr written) = inr written

append_fragment-IsSound :
    (c : Crypto) (b : BlobApp) (offset : ℕ) (fragment : List ℕ)
    → MayIfProtected b.app
    → IsSound c b (append_fragment c b offset fragment).0
append_fragment-IsSound c b offset fragment may =
    if-elim (λ (r : BlobApp × Result {0} Unit). IsSound c b r.0)
      (ltb u64_max (offset + length fragment)
        || ltb b.state.expected_length (offset + length fragment))
      _ _ (λ long. inl refl)
      (λ fits.
        IsSound-from c b (extend (restart_if_first b offset) fragment)
          ((finish c (extend (restart_if_first b offset) fragment)).0)
          (restart_if_first-array b offset)
          (finish-IsSound c (extend (restart_if_first b offset) fragment)
            (restart_if_first-May b offset may)))

append_authorized-IsSound :
    (c : Crypto) (b : BlobApp) (offset : ℕ) (fragment : List ℕ) (r : CtapApp × Result {0} Unit)
    → (r.1 ≡ ok tt → MayIfProtected r.0)
    → IsSound c b (append_authorized c b offset fragment r).0
append_authorized-IsSound c b offset fragment (app, err e) may = inl refl
append_authorized-IsSound c b offset fragment (app, ok t) may =
    append_fragment-IsSound c (record b { app = app }) offset fragment (may refl)

append_announced-IsSound :
    (c : Crypto) (b : BlobApp) (p : Params) (offset : ℕ) (fragment : List ℕ)
    (s : Result LargeBlobState)
    → IsSound c b (append_announced c b p offset fragment s).0
append_announced-IsSound c b p offset fragment (err e) = inl refl
append_announced-IsSound c b p offset fragment (ok s) =
    if-elim (λ (r : BlobApp × Result {0} Unit). IsSound c b r.0)
      (not (offset == s.expected_next_offset)) _ _ (λ elsewhere. inl refl)
      (λ next.
        append_authorized-IsSound c (record b { state = s }) offset fragment
          (authorize_fragment c b.app p offset fragment)
          (authorize_fragment-May c b.app p offset fragment))

set_value-IsSound :
    (c : Crypto) (b : BlobApp) (p : Params) (offset : ℕ) (v : Value)
    → IsSound c b (set_value c b p offset v).0
unfolding set_fragment
set_value-IsSound c b p offset (bytes fragment) =
    if-elim (λ (r : BlobApp × Result {0} Unit). IsSound c b r.0)
      (ltb max_fragment_length (length fragment)) _ _ (λ long. inl refl)
      (λ fits. append_announced-IsSound c b p offset fragment (announce b.state offset (p 4)))
set_value-IsSound c b p offset (integer n) = inl refl
set_value-IsSound c b p offset (negative n) = inl refl
set_value-IsSound c b p offset (text t) = inl refl
set_value-IsSound c b p offset (array a) = inl refl
set_value-IsSound c b p offset mapping = inl refl
set_value-IsSound c b p offset (boolean x) = inl refl
set_value-IsSound c b p offset other = inl refl

read_reply-state : (r : BlobApp × Result (List ℕ)) → (read_reply r).0 ≡ r.0
read_reply-state (b, ok fragment) = refl
read_reply-state (b, err e) = refl

read_array-array :
    (b : BlobApp) (offset : ℕ) (count : Result ℕ) → (read_array b offset count).0.array ≡ b.array
read_array-array b offset (err e) = refl
read_array-array b offset (ok count) =
    if-elim (λ (r : BlobApp × Result (List ℕ)). r.0.array ≡ b.array) (ltb max_fragment_length count)
      _ _ (λ long. refl) (λ short. refl)

get_fragment-array :
    (b : BlobApp) (p : Params) (offset : ℕ) (count : Value)
    → (get_fragment b p offset count).0.array ≡ b.array
unfolding get_fragment
get_fragment-array b p offset count =
    if-elim (λ (r : BlobApp × Result (List ℕ)). r.0.array ≡ b.array)
      (is_some (p 4) || is_some (p 5) || is_some (p 6)) _ _ (λ more. refl)
      (λ plain. read_array-array b offset (unsigned count))

write_reply-state : (r : BlobApp × Result {0} Unit) → (write_reply r).0 ≡ r.0
write_reply-state (b, ok t) = refl
write_reply-state (b, err e) = refl

get_or_set-IsSound :
    (c : Crypto) (b : BlobApp) (p : Params) (offset : ℕ) (get set : Option Value)
    → IsSound c b (get_or_set c b p offset get set).0
get_or_set-IsSound c b p offset none none = inl refl
get_or_set-IsSound c b p offset (some count) (some v) = inl refl
get_or_set-IsSound c b p offset (some count) none = inl (
    ap (λ (b' : BlobApp). b'.array) (read_reply-state (get_fragment b p offset count))
    ∙ get_fragment-array b p offset count)
get_or_set-IsSound c b p offset none (some v) =
    subst (IsSound c b) (sym (write_reply-state (set_value c b p offset v)))
      (set_value-IsSound c b p offset v)

with_offset-IsSound :
    (c : Crypto) (b : BlobApp) (p : Params) (offset : Option Value)
    → IsSound c b (with_offset c b p offset).0
with_offset-IsSound c b p none = inl refl
with_offset-IsSound c b p (some v) = at (unsigned v)
  where
    at : (offset : Result ℕ) → IsSound c b (at_offset c b p offset).0
    at (err e) = inl refl
    at (ok offset) = get_or_set-IsSound c b p offset (p 1) (p 2)

observe_large_blob_state-array :
    (b : BlobApp) (same : Bool) → (observe_large_blob_state b same).array ≡ b.array
unfolding observe_large_blob_state
observe_large_blob_state-array b same =
    if-elim (λ (b' : BlobApp). b'.array ≡ b.array) _ _ _ (λ dropped. refl) (λ kept. refl)

drop_unless_set-array : (b : BlobApp) (p : Params) → (drop_unless_set b p).array ≡ b.array
drop_unless_set-array b p =
    if-elim (λ (b' : BlobApp). b'.array ≡ b.array) _ _ _ (λ dropped. refl) (λ kept. refl)

handle_decoded-IsSound :
    (c : Crypto) (b : BlobApp) (request : Result Params)
    → IsSound c b (handle_decoded c b request).0
handle_decoded-IsSound c b (err status) = inl refl
handle_decoded-IsSound c b (ok p) =
    IsSound-from c b (drop_unless_set b p) ((with_offset c (drop_unless_set b p) p (p 3)).0)
      (drop_unless_set-array b p) (with_offset-IsSound c (drop_unless_set b p) p (p 3))

-- Whatever the request and the transfer so far, authenticatorLargeBlobs leaves the stored array as it
-- was, or stores an array of 17 to 16384 bytes that ends with the first 16 bytes of the SHA-256 of the
-- rest, and then, where a PIN is set or user verification is always required, a pinUvAuthToken with the
-- permission lbw is in use.
pub handle_large_blobs-IsSound :
    (c : Crypto) (b : BlobApp) (request : Result Params)
    → IsSound c b (handle_large_blobs c b request).0
unfolding handle_large_blobs
handle_large_blobs-IsSound c b request =
    IsSound-from c b (observe_large_blob_state b true)
      ((handle_decoded c (observe_large_blob_state b true) request).0)
      (observe_large_blob_state-array b true)
      (handle_decoded-IsSound c (observe_large_blob_state b true) request)
