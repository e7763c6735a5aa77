-- ===== src/Pin/Storage.antt =====
-- The PIN state and the store: crates/pqkey-ctap/src/ctap/storage.rs, with `PinState::reset`,
-- `adopt_persistent`, `set_pin` and `issue_pin_uv_auth_token` of pin/state.rs and `handle_reset` of
-- reset.rs.
use software_authenticator.Base.{
  ℕ, zero, suc, ◌+◌, ◌%◌, ◌^◌, ◌&&◌, ◌||◌, Bool, true, false, not, Option, none, some, List, [],
  ◌∷◌, ◌++◌, ◌==◌, ltb, if◌then◌else◌, is_none, bytes_eq,
}
use software_authenticator.Pin.Types.{
  Result, ok, err, PersistentTokenRecord, PersistentPinState, default_pin_state, StoredPinState,
  unread, unreadable, StoreError, io, full, CommitDurability, DirectoryFlush, unsupported,
  flush_failed, Loaded, found, lost, Saved, published, refused, Cleared, erased, not_erased,
  CtapApp, Outcome, done, failed, ◌>>=◌, after, succeeds, PinRetryState, PinProtocol, TokenGrant,
  ctap2_err_processing, ctap2_err_key_store_full, ctap2_err_not_allowed,
}
use software_authenticator.Pin.Retry.{power_up, set_pin}
use software_authenticator.Pin.Token.{stop_using, begin_using, secret_matches}

-- `store_status`.
abbrev pub store_status : StoreError → ℕ
store_status full = ctap2_err_key_store_full
store_status _ = ctap2_err_processing

abbrev pub closes_authority : StoreError → Bool
closes_authority io = false
closes_authority _ = true

abbrev pub token_eq : Option PersistentTokenRecord → Option PersistentTokenRecord → Bool
token_eq none none = true
token_eq none (some b) = false
token_eq (some a) none = false
token_eq (some a) (some b) = bytes_eq a.secret b.secret && bool_eq a.granted b.granted
  where
    bool_eq : Bool → Bool → Bool
    bool_eq true b = b
    bool_eq false b = not b

abbrev pub tokens_eq : PersistentPinState → PersistentPinState → Bool
tokens_eq a b = token_eq a.token_one b.token_one && token_eq a.token_two b.token_two

abbrev pub next_generation : CtapApp → ℕ
next_generation app = (app.persistent_generation + 1) % 2 ^ 64

-- `PinState::reset`.
abbrev pub reset_pin_state : CtapApp → CtapApp
reset_pin_state app = record app {
  persistent_generation = next_generation app;
  pin = power_up default_pin_state;
  key_agreement = record { protocol_one = none; protocol_two = none };
  token = stop_using app.token;
}

abbrev pub adopt_persistent : CtapApp → PersistentPinState → CtapApp
adopt_persistent app persistent = record app {
  persistent_generation =
      if tokens_eq app.pin.persistent persistent
      then app.persistent_generation
      else next_generation app;
  pin = record app.pin { persistent = persistent };
}

abbrev pub invalidate_pin_uv_auth_tokens : CtapApp → CtapApp
invalidate_pin_uv_auth_tokens app = record app { token = stop_using app.token }

abbrev pub adopt_retry_state : CtapApp → PinRetryState → CtapApp
adopt_retry_state app state = record app { pin = state }

abbrev pub clear_enumeration : CtapApp → CtapApp
clear_enumeration app = record app { enumerating = false }

-- `PinState::set_pin`.
abbrev pub replace_pin : CtapApp → List ℕ → CtapApp
replace_pin app hash = record app { pin = set_pin app.pin hash; token = stop_using app.token }

abbrev pub issue_pin_uv_auth_token : CtapApp → PinProtocol → List ℕ → TokenGrant → CtapApp
issue_pin_uv_auth_token app protocol value grant = record app {
  token = begin_using app.token app.now protocol value false grant;
}

-- The answer of the store to its next read, and the store without it.
abbrev load : CtapApp → Loaded
load app = app.store.loads 0

abbrev loaded : CtapApp → CtapApp
loaded app = record app { store = record app.store { loads = λ n. app.store.loads (suc n) } }

abbrev pub draw : CtapApp → List ℕ
draw app = app.rng 0

abbrev pub drawn : CtapApp → CtapApp
drawn app = record app { rng = λ n. app.rng (suc n) }

-- The persistent part of `unreadable_pin_state`.
abbrev pub unreadable_persistent : List ℕ → PersistentPinState
unreadable_persistent hash = record default_pin_state {
  pin_hash = some hash;
  pin_retries = 0;
  always_uv = true;
}

-- `load_pin_state` on the answer of the store: the persistent part, and what was read.
abbrev pub load_pin_state : Loaded → List ℕ → PersistentPinState × StoredPinState
load_pin_state (found (some state)) hash = ((power_up state).persistent, StoredPinState.read)
load_pin_state (found none) hash = (default_pin_state, StoredPinState.read)
load_pin_state (lost e) hash =
    (unreadable_persistent hash, if closes_authority e then unreadable else unread)

abbrev close_authority : CtapApp → CtapApp
close_authority app =
    let closed = record app.pin.persistent {
      token_one = none;
      token_two = none;
      pin_retries = 0;
      always_uv = true;
    } in
    record (clear_enumeration (invalidate_pin_uv_auth_tokens (adopt_persistent app closed))) {
      stored_pin_state = unreadable;
    }

abbrev hash_changed : Option (List ℕ) → Option (List ℕ) → Bool
hash_changed none none = false
hash_changed (some a) (some b) = not (bytes_eq a b)
hash_changed _ _ = true

abbrev differs : Bool → Bool → Bool
differs true b = not b
differs false b = b

abbrev rp_ids_eq : List (List ℕ) → List (List ℕ) → Bool
rp_ids_eq [] [] = true
rp_ids_eq (x ∷ xs) (y ∷ ys) = bytes_eq x y && rp_ids_eq xs ys
rp_ids_eq _ _ = false

abbrev pub changed_pin : PersistentPinState → PersistentPinState → Bool
changed_pin current state =
    hash_changed current.pin_hash state.pin_hash
    || not (current.min_pin_length == state.min_pin_length)
    || not (rp_ids_eq current.min_pin_length_rp_ids state.min_pin_length_rp_ids)
    || differs current.force_pin_change state.force_pin_change
    || not (current.pin_code_point_length == state.pin_code_point_length)
    || differs current.always_uv state.always_uv
    || differs current.pin_complexity_policy state.pin_complexity_policy

abbrev adopt_changes : CtapApp → PersistentPinState → CtapApp
adopt_changes app state =
    if changed_pin app.pin.persistent state
    then clear_enumeration (adopt_persistent (invalidate_pin_uv_auth_tokens app) state)
    else if tokens_eq app.pin.persistent state
    then app
    else clear_enumeration (adopt_persistent app state)

-- A missing authority is allowed only before a PIN or a token exists.
abbrev is_pristine : PersistentPinState → Bool
is_pristine p = is_none p.pin_hash && is_none p.token_one && is_none p.token_two

abbrev refresh_read : CtapApp → Loaded → Outcome {0} Unit
refresh_read app (found (some state)) = done (adopt_changes app state) tt
refresh_read app (found none) =
    if is_pristine app.pin.persistent
    then done app tt
    else failed (close_authority app) ctap2_err_processing
refresh_read app (lost e) =
    if closes_authority e
    then failed (close_authority app) (store_status e)
    else failed app (store_status e)

abbrev adopt_unread : CtapApp → PersistentPinState × StoredPinState → Outcome {0} Unit
adopt_unread app (state, StoredPinState.read) =
    done
      (clear_enumeration (
        invalidate_pin_uv_auth_tokens
          (adopt_persistent (record app { stored_pin_state = StoredPinState.read }) state)))
      tt
adopt_unread app (state, stored) =
    failed (record app { stored_pin_state = stored }) ctap2_err_processing

abbrev draw_if_lost : Loaded → CtapApp → CtapApp
draw_if_lost (found state) app = app
draw_if_lost (lost e) app = drawn app

abbrev pub read_unread_pin_state : CtapApp → Outcome {0} Unit
read_unread_pin_state app =
    adopt_unread (draw_if_lost (load app) (loaded app)) (load_pin_state (load app) (draw app))

abbrev pub refresh_from : StoredPinState → CtapApp → Outcome {0} Unit
refresh_from StoredPinState.read app = refresh_read (loaded app) (load app)
refresh_from unread app = read_unread_pin_state app
refresh_from unreadable app = done app tt

unfoldable pub refresh_persistent_authority : CtapApp → Outcome {0} Unit
refresh_persistent_authority app = refresh_from app.stored_pin_state app

abbrev pub is_read : StoredPinState → Bool
is_read StoredPinState.read = true
is_read _ = false

abbrev pub reconcile_persistent_authority : CtapApp → CtapApp
reconcile_persistent_authority app =
    let refreshed = refresh_persistent_authority app in
    let left = after refreshed in
    if not (succeeds refreshed) && is_read left.stored_pin_state
    then record (clear_enumeration (
        invalidate_pin_uv_auth_tokens
          (adopt_persistent (drawn left) (unreadable_persistent (draw left))))) {
            stored_pin_state = unread;
          }
    else left

abbrev pub read_pin_state_if_unread : CtapApp → Outcome {0} Unit
read_pin_state_if_unread app = elim app.stored_pin_state [
  | unread ↦ refresh_persistent_authority app
  | _ ↦ done app tt
]

abbrev pub save_answer : CtapApp → PersistentPinState → Saved → Outcome CommitDurability
save_answer app state (published durability) =
    done (record app { store = record app.store { stored = some state } }) durability
save_answer app state (refused e) = failed app (store_status e)

abbrev pub saved : CtapApp → CtapApp
saved app = record app { store = record app.store { saves = λ n. app.store.saves (suc n) } }

-- A published write replaces the stored state; a refused one leaves it.
unfoldable pub save_pin_state : CtapApp → PersistentPinState → Outcome CommitDurability
save_pin_state app state =
    if not (is_read app.stored_pin_state)
    then failed app ctap2_err_processing
    else save_answer (saved app) state (app.store.saves 0)

abbrev pub asked : CtapApp → CtapApp
asked app = record app { store = record app.store { flushes = λ n. app.store.flushes (suc n) } }

abbrev pub is_unsupported : Option DirectoryFlush → Bool
is_unsupported (some unsupported) = true
is_unsupported _ = false

abbrev pub ask_flush : CtapApp → DirectoryFlush → CtapApp × Bool
ask_flush app flush_failed = (app, false)
ask_flush app known = (record app { directory_flush = some known }, is_unsupported (some known))

-- The state after the question, and whether the store cannot flush directories.
unfoldable pub unsupported_directory_flush : CtapApp → CtapApp × Bool
unsupported_directory_flush app =
    if is_none app.directory_flush
    then ask_flush (asked app) (app.store.flushes 0)
    else (app, is_unsupported app.directory_flush)

abbrev pub any_nonzero : List ℕ → Bool
any_nonzero [] = false
any_nonzero (x ∷ xs) = not (x == 0) || any_nonzero xs

abbrev pub is_among : List ℕ → List (List ℕ) → Bool
is_among candidate [] = false
is_among candidate (old ∷ olds) = bytes_eq old candidate || is_among candidate olds

abbrev pub is_fresh_secret : CtapApp → List (List ℕ) → Bool → List ℕ → Bool
is_fresh_secret app forbidden persistent candidate =
    any_nonzero candidate
    && not (is_among candidate forbidden)
    && (not persistent || not (secret_matches app.token candidate))

unfoldable pub fresh_rounds : ℕ → CtapApp → List (List ℕ) → Bool → Outcome (List ℕ)
fresh_rounds zero app forbidden persistent = failed app ctap2_err_processing
fresh_rounds (suc n) app forbidden persistent =
    let rest = fresh_rounds n (drawn app) forbidden persistent in
    if is_fresh_secret app forbidden persistent (draw app)
    then done (drawn app) (draw app)
    else rest

unfoldable pub fresh_token_secret : CtapApp → List (List ℕ) → Bool → Outcome (List ℕ)
fresh_token_secret app forbidden persistent = fresh_rounds 8 app forbidden persistent

abbrev pub secret_of : Option PersistentTokenRecord → List (List ℕ)
secret_of none = []
secret_of (some token) = token.secret ∷ []

abbrev pub secrets : PersistentPinState → List (List ℕ)
secrets p = secret_of p.token_one ++ secret_of p.token_two

abbrev pub ungranted : List ℕ → PersistentTokenRecord
ungranted value = record { secret = value; granted = false }

-- The state with two new secrets in place of its persistent tokens.
unfoldable pub rotate_persistent_tokens : CtapApp → PersistentPinState → Outcome PersistentPinState
rotate_persistent_tokens app p = fresh_token_secret app (secrets p) true >>= λ app₁ one.
    fresh_token_secret app₁ (secrets p ++ one ∷ []) true >>= λ app₂ two.
    done app₂ (record p { token_one = some (ungranted one); token_two = some (ungranted two) })

-- `handle_reset`: `window` is the reset window, if there is one, and `presence` the answer of the user.
unfoldable pub handle_reset : CtapApp → Option ℕ → Result {0} Unit → Outcome {0} Unit
handle_reset app window presence =
    if past window
    then failed app ctap2_err_not_allowed
    else elim presence [ err e ↦ failed app e | ok t ↦ answered (app.store.clears 0) ]
  where
    past : Option ℕ → Bool
    past none = false
    past (some limit) = ltb limit app.now

    cleared : CtapApp
    cleared =
        clear_enumeration
          record app { store = record app.store { clears = λ n. app.store.clears (suc n) } }

    emptied : CtapApp → CtapApp
    emptied a = record a { store = record a.store { stored = some default_pin_state } }

    answered : Cleared → Outcome {0} Unit
    answered (not_erased partly e) =
        failed (reconcile_persistent_authority (if partly then emptied cleared else cleared))
          (store_status e)
    answered (erased durability) =
        done (record (reset_pin_state (emptied cleared)) { stored_pin_state = StoredPinState.read })
          tt
