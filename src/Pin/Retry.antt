-- ===== src/Pin/Retry.antt =====
-- The retry counter of the PIN: `PinRetryState` of pin/state.rs.
use software_authenticator.Base.{
  ℕ, ◌+◌, ◌-◌, Bool, Option, none, some, List, ◌==◌, leb, if◌then◌else◌, is_some, not, min,
  bytes_eq,
}
use software_authenticator.Pin.Types.{
  Result, ok, err, PersistentPinState, PinRetryState, max_pin_retries,
  max_consecutive_pin_mismatches, ctap2_err_pin_not_set, ctap2_err_pin_blocked,
  ctap2_err_pin_auth_blocked, ctap2_err_pin_invalid,
}

-- `u8::saturating_add(1)`.
abbrev pub saturating_next : ℕ → ℕ
saturating_next n = if leb 255 n then 255 else n + 1

abbrev pub power_up : PersistentPinState → PinRetryState
power_up persistent = record {
  persistent = record persistent { pin_retries = min persistent.pin_retries max_pin_retries };
  consecutive_mismatches = 0;
}

abbrev pub is_set : PinRetryState → Bool
is_set s = is_some s.persistent.pin_hash

abbrev pub power_cycle_required : PinRetryState → Bool
power_cycle_required s = leb max_consecutive_pin_mismatches s.consecutive_mismatches

abbrev pub set_pin : PinRetryState → List ℕ → PinRetryState
set_pin s hash = record {
  persistent = record s.persistent { pin_hash = some hash; pin_retries = max_pin_retries };
  consecutive_mismatches = 0;
}

abbrev pub check_attempt_allowed : PinRetryState → Result {0} Unit
check_attempt_allowed s =
    if not (is_set s)
    then err ctap2_err_pin_not_set
    else if s.persistent.pin_retries == 0
    then err ctap2_err_pin_blocked
    else if power_cycle_required s
    then err ctap2_err_pin_auth_blocked
    else ok tt

-- The state with one retry spent.
abbrev pub debit : PinRetryState → PinRetryState
debit s = record s {
  persistent = record s.persistent { pin_retries = s.persistent.pin_retries - 1 };
}

unfoldable pub begin_attempt : PinRetryState → Result PinRetryState
begin_attempt s = elim (check_attempt_allowed s) [ ok t ↦ ok (debit s) | err e ↦ err e ]

abbrev pub candidate_matches : Option (List ℕ) → Option (List ℕ) → Bool
candidate_matches none candidate = Bool.false
candidate_matches (some stored) none = Bool.false
candidate_matches (some stored) (some candidate) = bytes_eq stored candidate

abbrev pub matched : PinRetryState → PinRetryState
matched s = record {
  persistent = record s.persistent { pin_retries = max_pin_retries };
  consecutive_mismatches = 0;
}

abbrev pub mismatched : PinRetryState → PinRetryState
mismatched s = record s { consecutive_mismatches = saturating_next s.consecutive_mismatches }

abbrev pub mismatch_error : PinRetryState → ℕ
mismatch_error s =
    if s.persistent.pin_retries == 0
    then ctap2_err_pin_blocked
    else if power_cycle_required s
    then ctap2_err_pin_auth_blocked
    else ctap2_err_pin_invalid

-- The state after the comparison, and the status.
unfoldable pub finish_attempt : PinRetryState → Option (List ℕ) → PinRetryState × Result {0} Unit
finish_attempt s candidate =
    if candidate_matches s.persistent.pin_hash candidate
    then (matched s, ok tt)
    else (mismatched s, err (mismatch_error (mismatched s)))
