-- ===== src/Pin/Client.antt =====
-- setPIN, changePIN and the check of a PIN: pin/client_pin.rs. The cryptography of a command is an
-- argument, `Session`.
use software_authenticator.Base.{
  ℕ, ◌%◌, ◌&&◌, ◌||◌, Bool, false, not, Option, none, some, List, [], ◌∷◌, ◌==◌, ltb, leb,
  if◌then◌else◌, length, bytes_eq,
}
use software_authenticator.Pin.Types.{
  Result, ok, err, PersistentPinState, CommitDurability, unconfirmed, KeyAgreementKeys, CtapApp,
  Outcome, done, failed, ◌>>=◌, lift, PinRetryState, PinProtocol, v1, v2, max_pin_retries,
  ctap1_err_invalid_parameter, ctap2_err_processing, ctap2_err_pin_auth_invalid,
  ctap2_err_pin_policy_violation,
}
use software_authenticator.Pin.Retry.{is_set, check_attempt_allowed, begin_attempt, finish_attempt}
use software_authenticator.Pin.Storage.{
  adopt_retry_state, adopt_persistent, clear_enumeration, replace_pin, refresh_persistent_authority,
  save_pin_state, unsupported_directory_flush, rotate_persistent_tokens,
}
use software_authenticator.Pin.Params.{
  Params, required_bytes, required_map, parse_required_pin_uv_auth_protocol,
}

-- The cryptography of one command: the key agreement keys and the status that decapsulation leaves,
-- what the two decryptions give, whether the pinUvAuthParam is right, the hash of a PIN, the length in
-- code points of a UTF-8 text, and the encryption of a secret.
pub record Session : Type 0 where
  pub keys : KeyAgreementKeys
  pub decapsulated : Result {0} Unit
  pub authenticated : Result {0} Unit
  pub pin_hash_enc : Option (List ℕ)
  pub new_pin_enc : Option (List ℕ)
  pub pin_hash : List ℕ → List ℕ
  pub code_points : List ℕ → Option ℕ
  pub encrypt : List ℕ → Result (List ℕ)

abbrev pub padded_pin_length : ℕ
padded_pin_length = 64

abbrev pub max_pin_bytes : ℕ
max_pin_bytes = 63

-- The bytes up to the last that is not zero.
abbrev pub trim_zeros : List ℕ → List ℕ
trim_zeros [] = []
trim_zeros (x ∷ xs) = elim (trim_zeros xs) [
  | [] ↦ if x == 0 then [] else x ∷ []
  | y ∷ ys ↦ x ∷ y ∷ ys
]

abbrev between : ℕ → ℕ → ℕ → Bool
between a b x = leb a x && leb x b

abbrev pub any_byte : (ℕ → Bool) → List ℕ → Bool
any_byte test [] = false
any_byte test (x ∷ xs) = test x || any_byte test xs

abbrev pub is_ascii_alphabetic : ℕ → Bool
is_ascii_alphabetic x = between 65 90 x || between 97 122 x

abbrev pub is_ascii_digit : ℕ → Bool
is_ascii_digit x = between 48 57 x

abbrev pub is_complex : List ℕ → Bool
is_complex pin = any_byte is_ascii_alphabetic pin && any_byte is_ascii_digit pin

abbrev sized_pin : List ℕ → ℕ → Bool → Option ℕ → Result (List ℕ × ℕ)
sized_pin pin minimum complexity none = err ctap2_err_pin_policy_violation
sized_pin pin minimum complexity (some points) =
    if ltb points minimum || (complexity && not (is_complex pin))
    then err ctap2_err_pin_policy_violation
    else ok (pin, points % 256)

unfoldable pub decode_new_pin : (List ℕ → Option ℕ) → List ℕ → ℕ → Bool → Result (List ℕ × ℕ)
decode_new_pin code_points padded minimum complexity =
    if not (length padded == padded_pin_length)
    then err ctap1_err_invalid_parameter
    else if ltb max_pin_bytes (length (trim_zeros padded))
    then err ctap2_err_pin_policy_violation
    else sized_pin (trim_zeros padded) minimum complexity (code_points (trim_zeros padded))

abbrev hashed : Session → Result (List ℕ × ℕ) → Result (List ℕ × ℕ)
hashed s (ok (pin, points)) = ok (s.pin_hash pin, points)
hashed s (err e) = err e

unfoldable pub new_pin_hash : CtapApp → Session → Result (List ℕ × ℕ)
new_pin_hash app s = elim s.new_pin_enc [
  | none ↦ err ctap2_err_pin_auth_invalid
  | some padded ↦ hashed s (
      decode_new_pin s.code_points padded app.pin.persistent.min_pin_length
        app.pin.persistent.pin_complexity_policy)
]

abbrev pub require_confirmed_retry : CtapApp → CommitDurability → Outcome {0} Unit
require_confirmed_retry app unconfirmed = failed app ctap2_err_processing
require_confirmed_retry app _ = done app tt

-- `KeyAgreementKeys::regenerate`.
abbrev pub regenerate : CtapApp → PinProtocol → CtapApp
regenerate app v1 = record app { key_agreement = record app.key_agreement { protocol_one = none } }
regenerate app v2 = record app { key_agreement = record app.key_agreement { protocol_two = none } }

-- The end of `verify_pin_hash_enc`, after the comparison.
abbrev pub settle_attempt :
    CtapApp → PinProtocol → PinRetryState × Result {0} Unit → Outcome {0} Unit
settle_attempt app protocol (completed, ok t) =
    save_pin_state app completed.persistent >>= λ app₁ durability.
    require_confirmed_retry (adopt_retry_state app₁ completed) durability
settle_attempt app protocol (completed, err e) =
    save_pin_state (regenerate (adopt_retry_state app completed) protocol) completed.persistent
    >>= λ app₁ durability. require_confirmed_retry app₁ durability >>= λ app₂ t. failed app₂ e

-- The comparison, once the spent retry is stored for certain.
unfoldable pub compare_pin : CtapApp → PinProtocol → Option (List ℕ) → Outcome {0} Unit
compare_pin app protocol candidate = settle_attempt app protocol (finish_attempt app.pin candidate)

-- From the spent retry to the comparison.
unfoldable pub spend_and_compare :
    CtapApp → PinProtocol → Option (List ℕ) → PinRetryState → Outcome {0} Unit
spend_and_compare app protocol candidate debited =
    let asked = unsupported_directory_flush app in
    if asked.1
    then failed asked.0 ctap2_err_processing
    else save_pin_state asked.0 debited.persistent >>= λ app₁ durability.
        require_confirmed_retry (adopt_retry_state app₁ debited) durability >>= λ app₂ t.
        compare_pin app₂ protocol candidate

-- `candidate` is the decrypted pinHashEnc.
unfoldable pub verify_pin_hash_enc : CtapApp → PinProtocol → Option (List ℕ) → Outcome {0} Unit
verify_pin_hash_enc app protocol candidate = refresh_persistent_authority app >>= λ app₁ t.
    elim (begin_attempt app₁.pin) [
      | err e ↦ failed app₁ e
      | ok debited ↦ spend_and_compare app₁ protocol candidate debited
    ]

-- The new PIN with its length, before its persistent tokens are rotated.
abbrev pub with_new_pin : PersistentPinState → List ℕ → ℕ → PersistentPinState
with_new_pin p hash points = record p {
  pin_hash = some hash;
  pin_retries = max_pin_retries;
  pin_code_point_length = points;
  force_pin_change = false;
}

abbrev rotate_if_set : CtapApp → PersistentPinState → Outcome PersistentPinState
rotate_if_set app p = if is_set app.pin then rotate_persistent_tokens app p else done app p

unfoldable pub store_new_pin : CtapApp → List ℕ → ℕ → Outcome {0} Unit
store_new_pin app hash points =
    rotate_if_set app (with_new_pin app.pin.persistent hash points) >>= λ app₁ p.
    save_pin_state app₁ p >>= λ app₂ durability.
    done (adopt_persistent (replace_pin (clear_enumeration app₂) hash) p) tt

abbrev pub decapsulate : CtapApp → Session → Outcome {0} Unit
decapsulate app s = lift (record app { key_agreement = s.keys }) s.decapsulated

abbrev store_checked_pin : CtapApp → List ℕ → ℕ → Outcome {0} Unit
store_checked_pin app hash points =
    let asked = unsupported_directory_flush app in
    if asked.1 then failed asked.0 ctap2_err_processing else store_new_pin asked.0 hash points

unfoldable pub client_pin_set_pin : CtapApp → Params → Session → Outcome {0} Unit
client_pin_set_pin app params s = lift app (required_map params 3) >>= λ app₁ k.
    lift app₁ (required_bytes params 4) >>= λ app₂ auth.
    lift app₂ (required_bytes params 5) >>= λ app₃ enc.
    lift app₃ (parse_required_pin_uv_auth_protocol (params 1)) >>= λ app₄ protocol.
    if is_set app₄.pin
    then failed app₄ ctap2_err_pin_auth_invalid
    else decapsulate app₄ s >>= λ app₅ t. lift app₅ s.authenticated >>= λ app₆ u.
        lift app₆ (new_pin_hash app₆ s) >>= λ app₇ new. store_checked_pin app₇ new.0 new.1

abbrev keeps_pin : CtapApp → List ℕ → Bool
keeps_pin app hash = elim app.pin.persistent.pin_hash [
  | none ↦ false
  | some stored ↦ bytes_eq stored hash
]

unfoldable pub client_pin_change_pin : CtapApp → Params → Session → Outcome {0} Unit
client_pin_change_pin app params s = lift app (required_map params 3) >>= λ app₁ k.
    lift app₁ (required_bytes params 4) >>= λ app₂ auth.
    lift app₂ (required_bytes params 5) >>= λ app₃ enc.
    lift app₃ (required_bytes params 6) >>= λ app₄ hash_enc.
    lift app₄ (parse_required_pin_uv_auth_protocol (params 1)) >>= λ app₅ protocol.
    lift app₅ (check_attempt_allowed app₅.pin) >>= λ app₆ t. decapsulate app₆ s >>= λ app₇ u.
    lift app₇ s.authenticated >>= λ app₈ w.
    verify_pin_hash_enc app₈ protocol s.pin_hash_enc >>= λ app₉ x.
    lift app₉ (new_pin_hash app₉ s) >>= λ app₁₀ new.
    if app₁₀.pin.persistent.force_pin_change && keeps_pin app₁₀ new.0
    then failed app₁₀ ctap2_err_pin_policy_violation
    else store_new_pin app₁₀ new.0 new.1
