-- ===== src/Pin/Config.antt =====
-- authenticatorConfig: crates/pqkey-ctap/src/ctap/authenticator_config.rs, after its token is checked.
use software_authenticator.Base.{
  ℕ, ◌&&◌, ◌||◌, Bool, true, false, not, Option, none, some, List, [], ◌∷◌, ltb, if◌then◌else◌,
  length,
}
use software_authenticator.Pin.Types.{
  Result, ok, err, PersistentPinState, CtapApp, Outcome, done, ◌>>=◌, lift, max_pin_length,
  max_min_pin_length_rp_ids, max_rp_id_length, ctap1_err_invalid_parameter,
  ctap2_err_cbor_unexpected_type, ctap2_err_key_store_full, ctap2_err_pin_not_set,
  ctap2_err_pin_policy_violation,
}
use software_authenticator.Pin.Retry.{is_set}
use software_authenticator.Pin.Storage.{
  adopt_persistent, invalidate_pin_uv_auth_tokens, clear_enumeration, save_pin_state,
  rotate_persistent_tokens,
}
use software_authenticator.Pin.Params.{Value, integer, negative, array, boolean, Params}

-- The TOGGLE_ALWAYS_UV branch of `handle_authenticator_config`.
unfoldable pub toggle_always_uv : CtapApp → Outcome {0} Unit
toggle_always_uv app =
    let p = record app.pin.persistent { always_uv = not app.pin.persistent.always_uv } in
    save_pin_state app p >>= λ app₁ durability. done (adopt_persistent app₁ p) tt

abbrev pub minimum_parameter : Option Value → ℕ → Result ℕ
minimum_parameter (some (integer n)) current = ok n
minimum_parameter (some (negative n)) current = err ctap1_err_invalid_parameter
minimum_parameter (some v) current = err ctap2_err_cbor_unexpected_type
minimum_parameter none current = ok current

abbrev pub bool_parameter : Option Value → Result Bool
bool_parameter (some (boolean b)) = ok b
bool_parameter (some v) = err ctap2_err_cbor_unexpected_type
bool_parameter none = ok false

-- `force_pin_change` asked for by the host.
abbrev pub ask_force : Bool → Bool → PersistentPinState → Result PersistentPinState
ask_force false set p = ok p
ask_force true false p = err ctap2_err_pin_not_set
ask_force true true p = ok (record p { force_pin_change = true })

abbrev pub ask_complexity : Bool → Bool → PersistentPinState → PersistentPinState
ask_complexity asked set p =
    if asked && not p.pin_complexity_policy
    then record p { pin_complexity_policy = true; force_pin_change = set || p.force_pin_change }
    else p

abbrev pub ask_length : Bool → ℕ → PersistentPinState → PersistentPinState
ask_length set minimum p =
    if set && ltb p.pin_code_point_length minimum then record p { force_pin_change = true } else p

abbrev pub texts : List (Option (List ℕ)) → Result (List (List ℕ))
texts [] = ok []
texts (none ∷ xs) = err ctap2_err_cbor_unexpected_type
texts (some t ∷ xs) = elim (texts xs) [ ok ts ↦ ok (t ∷ ts) | err e ↦ err e ]

abbrev pub any_too_long : List (List ℕ) → Bool
any_too_long [] = false
any_too_long (x ∷ xs) = ltb max_rp_id_length (length x) || any_too_long xs

abbrev pub replace_rp_ids : List (List ℕ) → PersistentPinState → PersistentPinState
replace_rp_ids [] p = p
replace_rp_ids (x ∷ xs) p = record p { min_pin_length_rp_ids = x ∷ xs }

abbrev pub check_rp_ids : Result (List (List ℕ)) → PersistentPinState → Result PersistentPinState
check_rp_ids (err e) p = err e
check_rp_ids (ok rp_ids) p =
    if ltb max_min_pin_length_rp_ids (length rp_ids) || any_too_long rp_ids
    then err ctap2_err_key_store_full
    else ok (replace_rp_ids rp_ids p)

abbrev pub ask_rp_ids : Option Value → PersistentPinState → Result PersistentPinState
ask_rp_ids none p = ok p
ask_rp_ids (some (array rp_ids)) p = check_rp_ids (texts rp_ids) p
ask_rp_ids (some v) p = err ctap2_err_cbor_unexpected_type

abbrev pub checked_minimum : ℕ → ℕ → Result ℕ
checked_minimum minimum current =
    if ltb minimum current
    then err ctap2_err_pin_policy_violation
    else if ltb max_pin_length minimum
    then err ctap1_err_invalid_parameter
    else ok minimum

abbrev pub and_then {ℓ κ} : {A : Type ℓ} {B : Type κ} → Result A → (A → Result B) → Result B
and_then (ok a) f = f a
and_then (err e) f = err e

-- The policy that the parameters ask for, before its tokens are rotated.
unfoldable pub requested_policy : Params → Bool → PersistentPinState → Result PersistentPinState
requested_policy params set p = and_then (minimum_parameter (params 1) p.min_pin_length) λ asked.
    and_then (checked_minimum asked p.min_pin_length) λ minimum.
      and_then (bool_parameter (params 3)) λ force. and_then (ask_force force set p) λ p₁.
        and_then (bool_parameter (params 4)) λ complexity.
          and_then
            (ask_rp_ids (params 2) (ask_length set minimum (ask_complexity complexity set p₁)))
            λ p₂. ok (record p₂ { min_pin_length = minimum })

abbrev rotate_if_forced : CtapApp → PersistentPinState → Outcome PersistentPinState
rotate_if_forced app p = if p.force_pin_change then rotate_persistent_tokens app p else done app p

abbrev drop_tokens_if_forced : CtapApp → PersistentPinState → CtapApp
drop_tokens_if_forced app p =
    if p.force_pin_change then clear_enumeration (invalidate_pin_uv_auth_tokens app) else app

unfoldable pub set_min_pin_length : CtapApp → Params → Outcome {0} Unit
set_min_pin_length app params =
    lift app (requested_policy params (is_set app.pin) app.pin.persistent) >>= λ app₁ p₁.
    rotate_if_forced app₁ p₁ >>= λ app₂ p. save_pin_state app₂ p >>= λ app₃ durability.
    done (adopt_persistent (drop_tokens_if_forced app₃ p) p) tt
