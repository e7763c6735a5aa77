-- ===== src/Pin/Tests.antt =====
-- Concrete runs of the PIN component (pin/state.rs, pin/token.rs, pin/client_pin.rs).
use software_authenticator.Base.{
  ℕ, ◌+◌, ◌≤◌, ◌≡◌, refl, true, false, none, some, List, [], ◌∷◌, arith, bytes_eq, ◌⊎◌, ◌↔◌, inr,
  ◌==◌, if◌then◌else◌,
}
use software_authenticator.Pin.Types.{
  Result, ok, err, PersistentPinState, default_pin_state, PinRetryState, StoredPinState, flushed,
  unconfirmed, io, supported, found, published, erased, CredentialStore, CtapApp, after, succeeds,
  v1, v2, InUseToken, PinUvAuthTokenState, permission_bearing, TokenGrant,
  ctap2_err_pin_auth_invalid, max_consecutive_pin_mismatches,
}
use software_authenticator.Pin.Retry.{begin_attempt, finish_attempt, debit}
use software_authenticator.Pin.Permissions.{
  requested_pin_permissions, pin_permission_mc, pin_permission_ga,
}
use software_authenticator.Pin.Token.{
  begin_using, observe, current, verify, consume_after_user_presence, bind_permissions_rp_id,
  authorize_rp_operation,
}
use software_authenticator.Pin.Storage.{
  ungranted, rotate_persistent_tokens, fresh_token_secret, fresh_rounds,
  refresh_persistent_authority, save_pin_state, unsupported_directory_flush,
}
use software_authenticator.Pin.Params.{integer, Params}
use software_authenticator.Pin.Client.{compare_pin, spend_and_compare, verify_pin_hash_enc}
use software_authenticator.Pin.Config.{requested_policy}
use software_authenticator.Pin.Guesses.{Debit, Event, guess, events, events-three_per_power_up}
use software_authenticator.Pin.Attempts.{
  Attempt, check, start_up, spent_comparisons, attempt, attempts, stored_retries,
}
use software_authenticator.Pin.Paid.{attempts-pay_for_comparisons}
use software_authenticator.Pin.Uncounted.{uncounted-is_blind}
use software_authenticator.Pin.Verified.{IsUnspent, IsSpent, spend_and_compare-costs_a_retry}
use software_authenticator.Pin.Accepted.{
  IsAccepted, verify_pin_hash_enc-IsAccepted, spend_and_compare-is_blind,
}
use software_authenticator.Pin.Lifetime.{IsAlive, aged, IsVerified, verify-IsVerified}
use software_authenticator.Pin.Looks.{looked, current_iff}
use software_authenticator.Pin.Binding.{
  authorize_rp_operation-consumed, authorize_rp_operation-binds,
}
use software_authenticator.Pin.Grants.{permitted, requested_pin_permissions-permitted}
use software_authenticator.Pin.Rotation.{IsRotated, rotate_persistent_tokens-IsRotated}
use software_authenticator.Pin.Policy.{IsStricter, requested_policy-IsStricter}

abbrev hash : List ℕ
hash = 1 ∷ 2 ∷ []

abbrev with_pin : PersistentPinState
with_pin = record default_pin_state { pin_hash = some hash }

abbrev retry_state : PinRetryState
retry_state = record { persistent = with_pin; consecutive_mismatches = 0 }

abbrev two_guesses : List Event
two_guesses = guess Debit.unconfirmed none ∷ guess Debit.confirmed none ∷ []

events-three_per_power_up_example :
    (events retry_state two_guesses).1 + 0 ≤ max_consecutive_pin_mismatches
events-three_per_power_up_example =
    events-three_per_power_up retry_state two_guesses (refl, (refl, tt)) (tt, (tt, tt))
      (omega arith)

-- A store that answers every write as told.
abbrev app_with : CredentialStore → CtapApp
app_with store = record {
  pin = retry_state;
  key_agreement = record { protocol_one = none; protocol_two = none };
  token = record { in_use = none; issued = 0 };
  persistent_generation = 0;
  stored_pin_state = StoredPinState.read;
  directory_flush = none;
  enumerating = false;
  store = store;
  rng = λ n. n ∷ [];
  now = 0;
}

abbrev sound_store : CredentialStore
sound_store = record {
  loads = λ n. found (some with_pin);
  saves = λ n. published flushed;
  clears = λ n. erased flushed;
  flushes = λ n. supported;
  stored = some with_pin;
}

abbrev unsure_store : CredentialStore
unsure_store = record sound_store { saves = λ n. published unconfirmed }

-- A check, a restart, a check whose read fails, and a check.
abbrev checks_and_restart : List Attempt
checks_and_restart =
    check none v1 none ∷ start_up none [] ∷ check (some io) v2 none ∷ check none v2 none ∷ []

two_are_compared : (attempts (app_with sound_store) checks_and_restart).1 ≡ 2
unfolding attempts attempt verify_pin_hash_enc refresh_persistent_authority begin_attempt
    spend_and_compare spent_comparisons compare_pin unsupported_directory_flush save_pin_state
    finish_attempt bytes_eq
two_are_compared = refl

attempts-pay_for_comparisons_example :
    (attempts (app_with sound_store) checks_and_restart).1
      + stored_retries (attempts (app_with sound_store) checks_and_restart).0
    ≤ 8
attempts-pay_for_comparisons_example =
    attempts-pay_for_comparisons (app_with sound_store) checks_and_restart with_pin refl
      (inr (refl, omega arith)) (refl, (tt, (refl, (refl, tt))))

unconfirmed_debits_compare_nothing :
    (attempts (app_with unsure_store) checks_and_restart).1
      + stored_retries (attempts (app_with unsure_store) checks_and_restart).0
    ≡ 6
unfolding attempts attempt verify_pin_hash_enc refresh_persistent_authority begin_attempt
    spend_and_compare spent_comparisons compare_pin unsupported_directory_flush save_pin_state
    finish_attempt bytes_eq
unconfirmed_debits_compare_nothing = refl

uncounted-is_blind_example :
    verify_pin_hash_enc (app_with unsure_store) v1 (some hash)
    ≡ verify_pin_hash_enc (app_with unsure_store) v1 none
unfolding refresh_persistent_authority begin_attempt spent_comparisons unsupported_directory_flush
    bytes_eq
uncounted-is_blind_example = uncounted-is_blind (app_with unsure_store) v1 (some hash) none refl

spend_and_compare-costs_a_retry_example :
    (succeeds (spend_and_compare (app_with sound_store) v1 none (debit retry_state)) ≡ false)
    × (IsUnspent
          (app_with sound_store)
          (after (spend_and_compare (app_with sound_store) v1 none (debit retry_state)))
        ⊎ IsSpent
            (debit retry_state)
            (after (spend_and_compare (app_with sound_store) v1 none (debit retry_state))))
spend_and_compare-costs_a_retry_example =
    spend_and_compare-costs_a_retry (app_with sound_store) v1 none (debit retry_state) refl

verify_pin_hash_enc-IsAccepted_example :
    IsAccepted (some hash) (after (verify_pin_hash_enc (app_with sound_store) v1 (some hash)))
unfolding verify_pin_hash_enc refresh_persistent_authority begin_attempt spend_and_compare
    compare_pin unsupported_directory_flush save_pin_state finish_attempt bytes_eq
verify_pin_hash_enc-IsAccepted_example =
    verify_pin_hash_enc-IsAccepted (app_with sound_store) v1 (some hash) refl

spend_and_compare-is_blind_example :
    spend_and_compare (app_with unsure_store) v1 (some hash) (debit retry_state)
    ≡ spend_and_compare (app_with unsure_store) v1 none (debit retry_state)
spend_and_compare-is_blind_example =
    spend_and_compare-is_blind (app_with unsure_store) v1 (some hash) none (debit retry_state) refl

abbrev grant : TokenGrant
grant = record { origin = permission_bearing; permissions = 3; rp_id = none }

abbrev issued : PinUvAuthTokenState
issued = begin_using (record { in_use = none; issued = 0 }) 1000 v1 (5 ∷ []) false grant

abbrev accepts : List ℕ → Result {0} Unit
accepts value = ok tt

abbrev issued_token : InUseToken
issued_token = record {
  value = 5 ∷ [];
  protocol = v1;
  origin = some permission_bearing;
  permissions = 3;
  permissions_rp_id = none;
  started_at = 1000;
  id = 1;
  used = false;
  user_present = false;
  user_verified = true;
}

current_iff_example :
    (current (looked issued (20000 ∷ 3000 ∷ [])) 30999 ≡ some issued_token)
    ↔ (IsAlive issued_token 30999 × (issued_token ≡ aged issued_token 30999))
unfolding observe
current_iff_example =
    current_iff issued issued_token issued_token (20000 ∷ 3000 ∷ []) 30999 refl
      (omega arith, (omega arith, tt))

-- A millisecond later the token is gone.
unused_token_expires : current issued 31000 ≡ none
unfolding observe
unused_token_expires = refl

verify-IsVerified_example : IsVerified issued 20000 v1 accepts (verify issued 20000 v1 accepts).0
unfolding verify observe
verify-IsVerified_example = verify-IsVerified issued 20000 v1 accepts refl

authorize_rp_operation-consumed_example :
    (authorize_rp_operation
      (consume_after_user_presence issued 2000)
      3000
      pin_permission_ga
      (7 ∷ [])).1
    ≡ err ctap2_err_pin_auth_invalid
authorize_rp_operation-consumed_example =
    authorize_rp_operation-consumed issued 2000 3000 pin_permission_ga (7 ∷ [])

authorize_rp_operation-binds_example :
    (authorize_rp_operation
      (authorize_rp_operation issued 2000 pin_permission_mc (7 ∷ [])).0
      3000
      pin_permission_ga
      (8 ∷ [])).1
    ≡ err ctap2_err_pin_auth_invalid
unfolding authorize_rp_operation bind_permissions_rp_id observe bytes_eq
authorize_rp_operation-binds_example =
    authorize_rp_operation-binds issued 2000 3000 pin_permission_mc pin_permission_ga (7 ∷ [])
      (8 ∷ []) refl refl

abbrev asks_six : Params
asks_six n = if n == 1 then some (integer 6) else none

requested_policy-IsStricter_example :
    IsStricter with_pin (record with_pin { min_pin_length = 6; force_pin_change = true })
unfolding requested_policy
requested_policy-IsStricter_example =
    requested_policy-IsStricter asks_six true with_pin
      (record with_pin { min_pin_length = 6; force_pin_change = true }) refl

requested_pin_permissions-permitted_example : requested_pin_permissions 67 ≡ permitted 67
requested_pin_permissions-permitted_example = requested_pin_permissions-permitted 67

rotate_persistent_tokens-IsRotated_example :
    IsRotated (app_with sound_store) with_pin (record with_pin {
      token_one = some (ungranted (1 ∷ []));
      token_two = some (ungranted (2 ∷ []));
    })
unfolding rotate_persistent_tokens fresh_token_secret fresh_rounds bytes_eq
rotate_persistent_tokens-IsRotated_example =
    rotate_persistent_tokens-IsRotated (app_with sound_store)
      (after (rotate_persistent_tokens (app_with sound_store) with_pin)) with_pin
      (record with_pin {
        token_one = some (ungranted (1 ∷ []));
        token_two = some (ungranted (2 ∷ []));
      })
      refl
