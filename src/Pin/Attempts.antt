-- ===== src/Pin/Attempts.antt =====
-- Checks of a PIN and starts of the engine, in any order, with the store between: `verify_pin_hash_enc`
-- of pin/client_pin.rs and `load_pin_state` of storage.rs.
use software_authenticator.Base.{
  ℕ, ◌+◌, ◌≡◌, false, Option, none, some, List, [], ◌∷◌, ◌&&◌, if◌then◌else◌,
}
use software_authenticator.Pin.Types.{
  Result, ok, err, PersistentPinState, PinRetryState, StoredPinState, StoreError, Loaded, found,
  lost, CtapApp, Outcome, done, failed, after, PinProtocol,
}
use software_authenticator.Pin.Retry.{power_up, begin_attempt, candidate_matches}
use software_authenticator.Pin.Storage.{
  is_read, unsupported_directory_flush, load_pin_state, refresh_persistent_authority,
}
use software_authenticator.Pin.Client.{spend_and_compare, verify_pin_hash_enc}
use software_authenticator.Pin.Accepted.{is_confirmed}

-- A check of a candidate, or a start of the engine that draws a random hash if it needs one. In both
-- the store is read: it gives back what was last published, or fails.
pub data Attempt : Type 0 where
  check : Option StoreError → PinProtocol → Option (List ℕ) → Attempt
  start_up : Option StoreError → List ℕ → Attempt

abbrev pub read_back : Option PersistentPinState → Option StoreError → Loaded
read_back stored none = found stored
read_back stored (some e) = lost e

-- The engine before a read that is answered so.
abbrev pub loading : CtapApp → Loaded → CtapApp
loading app l = record app { store = record app.store { loads = λ n. l } }

abbrev pub reading : CtapApp → Option StoreError → CtapApp
reading app e = loading app (read_back app.store.stored e)

-- The engine after a start that read this.
abbrev pub started : CtapApp → PersistentPinState × StoredPinState → CtapApp
started app (persistent, stored) = record app {
  pin = power_up persistent;
  key_agreement = record { protocol_one = none; protocol_two = none };
  token = record { in_use = none; issued = 0 };
  persistent_generation = 0;
  stored_pin_state = stored;
  directory_flush = none;
  enumerating = false;
}

-- The comparisons of a check that may be attempted: one if the store can flush directories, the live
-- state was read from it and the write of the spent retry is confirmed, else none.
unfoldable pub spent_comparisons : CtapApp → ℕ
spent_comparisons app =
    let asked = unsupported_directory_flush app in
    if asked.1
    then 0
    else if is_read asked.0.stored_pin_state && is_confirmed (asked.0.store.saves 0)
    then 1
    else 0

abbrev pub attempt_comparisons : CtapApp → Result PinRetryState → ℕ
attempt_comparisons app (err e) = 0
attempt_comparisons app (ok debited) = spent_comparisons app

abbrev pub check_comparisons : Outcome {0} Unit → ℕ
check_comparisons (failed app e) = 0
check_comparisons (done app t) = attempt_comparisons app (begin_attempt app.pin)

unfoldable pub attempt : CtapApp → Attempt → CtapApp × ℕ
attempt app (check e protocol candidate) = (
  after (verify_pin_hash_enc (reading app e) protocol candidate),
  check_comparisons (refresh_persistent_authority (reading app e)),
)
attempt app (start_up e hash) =
    (started app (load_pin_state (read_back app.store.stored e) hash), 0)

-- The state after the attempts, and how often a candidate was compared with the PIN.
unfoldable pub attempts : CtapApp → List Attempt → CtapApp × ℕ
attempts app [] = (app, 0)
attempts app (e ∷ es) =
    let next = attempt app e in let rest = attempts next.0 es in (rest.0, next.1 + rest.1)

-- The retries that the store holds.
abbrev pub stored_retries : CtapApp → ℕ
stored_retries app = elim app.store.stored [ none ↦ 0 | some p ↦ p.pin_retries ]

-- The attempt does not send the hash of the PIN.
abbrev pub IsWrongAttempt : Option (List ℕ) → Attempt → Type 0
IsWrongAttempt pin (check e protocol candidate) = candidate_matches pin candidate ≡ false
IsWrongAttempt pin (start_up e hash) = Unit

-- The part of a check after the refresh.
abbrev pub tried : CtapApp → PinProtocol → Option (List ℕ) → Result PinRetryState → Outcome {0} Unit
tried app protocol candidate (err e) = failed app e
tried app protocol candidate (ok debited) = spend_and_compare app protocol candidate debited
