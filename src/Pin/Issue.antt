-- ===== src/Pin/Issue.antt =====
-- getPinToken and getPinUvAuthTokenUsingPinWithPermissions: pin/client_pin.rs.
use software_authenticator.Base.{
  ℕ, ◌%◌, ◌&&◌, ◌||◌, Bool, true, false, not, Option, none, some, List, ◌==◌, if◌then◌else◌,
  is_some, is_none,
}
use software_authenticator.Pin.Types.{
  Result, ok, err, PersistentTokenRecord, PersistentPinState, CtapApp, Outcome, done, failed, ◌>>=◌,
  lift, PinProtocol, v1, v2, TokenGrant, legacy_get_pin_token, permission_bearing,
  ctap1_err_invalid_parameter, ctap2_err_cbor_unexpected_type, ctap2_err_missing_parameter,
  ctap2_err_pin_policy_violation, ctap2_err_pin_invalid,
}
use software_authenticator.Pin.Retry.{check_attempt_allowed}
use software_authenticator.Pin.Permissions.{
  pin_permission_mc, pin_permission_ga, pin_permission_pcmr, bit_and, bit_or,
  requested_pin_permissions,
}
use software_authenticator.Pin.Storage.{
  adopt_persistent, clear_enumeration, issue_pin_uv_auth_token, refresh_persistent_authority,
  save_pin_state, fresh_token_secret, secrets, ungranted,
}
use software_authenticator.Pin.Params.{
  Value, integer, negative, text, Params, required_bytes, required_map,
  parse_required_pin_uv_auth_protocol,
}
use software_authenticator.Pin.Client.{
  Session, decapsulate, require_confirmed_retry, verify_pin_hash_enc,
}

abbrev pub persistent_token : PersistentPinState → PinProtocol → Option PersistentTokenRecord
persistent_token p v1 = p.token_one
persistent_token p v2 = p.token_two

abbrev pub with_token :
    PersistentPinState → PinProtocol → PersistentTokenRecord → PersistentPinState
with_token p v1 token = record p { token_one = some token }
with_token p v2 token = record p { token_two = some token }

-- The protocol's persistent token, made if there is none.
abbrev own_token : CtapApp → PersistentPinState → PinProtocol → Outcome PersistentTokenRecord
own_token app p protocol = elim (persistent_token p protocol) [
  | some token ↦ done app token
  | none ↦ fresh_token_secret app (secrets p) true >>= λ app₁ secret. done app₁ (ungranted secret)
]

-- The pcmr branch of `client_pin_get_token_common`.
abbrev grant_persistent : CtapApp → Session → PinProtocol → Outcome (List ℕ)
grant_persistent app s protocol = own_token app app.pin.persistent protocol >>= λ app₁ token.
    lift app₁ (s.encrypt token.secret) >>= λ app₂ encrypted.
    let p = with_token app.pin.persistent protocol (record token { granted = true }) in
    save_pin_state app₂ p >>= λ app₃ durability.
    require_confirmed_retry (clear_enumeration (adopt_persistent app₃ p)) durability >>= λ app₄ t.
    done app₄ encrypted

-- Its other branch.
abbrev grant_transient : CtapApp → Session → PinProtocol → TokenGrant → Outcome (List ℕ)
grant_transient app s protocol grant =
    fresh_token_secret app (secrets app.pin.persistent) false >>= λ app₁ token.
    lift app₁ (s.encrypt token) >>= λ app₂ encrypted.
    done (clear_enumeration (issue_pin_uv_auth_token app₂ protocol token grant)) encrypted

-- The encrypted token of the response.
unfoldable pub client_pin_get_token_common :
    CtapApp → Session → PinProtocol → TokenGrant → ℕ → Outcome (List ℕ)
client_pin_get_token_common app s protocol grant force_change_error =
    lift app (check_attempt_allowed app.pin) >>= λ app₁ t.
    refresh_persistent_authority app₁ >>= λ app₂ u. decapsulate app₂ s >>= λ app₃ w.
    verify_pin_hash_enc app₃ protocol s.pin_hash_enc >>= λ app₄ x.
    if app₄.pin.persistent.force_pin_change
    then failed app₄ force_change_error
    else if grant.permissions == pin_permission_pcmr
    then grant_persistent app₄ s protocol
    else grant_transient app₄ s protocol grant

unfoldable pub client_pin_get_token_legacy : CtapApp → Params → Session → Outcome (List ℕ)
client_pin_get_token_legacy app params s = lift app (required_map params 3) >>= λ app₁ k.
    lift app₁ (required_bytes params 6) >>= λ app₂ hash_enc.
    lift app₂ (parse_required_pin_uv_auth_protocol (params 1)) >>= λ app₃ protocol.
    if is_some (params 9) || is_some (params 10)
    then failed app₃ ctap1_err_invalid_parameter
    else client_pin_get_token_common app₃ s protocol
        (record {
          origin = legacy_get_pin_token;
          permissions = bit_or pin_permission_mc pin_permission_ga;
          rp_id = none;
        })
        ctap2_err_pin_invalid

-- The permissions parameter, 0 for every integer that is not positive.
abbrev pub permissions_parameter : Option Value → Result ℕ
permissions_parameter (some (integer n)) = ok n
permissions_parameter (some (negative n)) = ok 0
permissions_parameter (some v) = err ctap2_err_cbor_unexpected_type
permissions_parameter none = err ctap2_err_missing_parameter

abbrev pub rp_id_parameter : Option Value → Result (Option (List ℕ))
rp_id_parameter (some (text t)) = ok (some t)
rp_id_parameter (some v) = err ctap2_err_cbor_unexpected_type
rp_id_parameter none = ok none

abbrev get_permitted_token :
    CtapApp → Session → PinProtocol → ℕ → Option (List ℕ) → Outcome (List ℕ)
get_permitted_token app s protocol requested rp_id =
    lift app (requested_pin_permissions requested) >>= λ app₁ permissions.
    client_pin_get_token_common app₁ s protocol
      (record { origin = permission_bearing; permissions = permissions; rp_id = rp_id })
      ctap2_err_pin_policy_violation

abbrev names_bit : ℕ → ℕ → Bool
names_bit permissions mask = not (bit_and (permissions % 256) mask == 0)

-- getPinUvAuthTokenUsingPinWithPermissions with parameters other than pcmr.
abbrev get_scoped_token : CtapApp → Params → Session → ℕ → Outcome (List ℕ)
get_scoped_token app params s permissions = lift app (rp_id_parameter (params 10)) >>= λ app₁ rp_id.
    if names_bit permissions (bit_or pin_permission_mc pin_permission_ga) && is_none rp_id
    then failed app₁ ctap2_err_missing_parameter
    else lift app₁ (parse_required_pin_uv_auth_protocol (params 1)) >>= λ app₂ protocol.
        if permissions == 0
        then failed app₂ ctap1_err_invalid_parameter
        else get_permitted_token app₂ s protocol permissions rp_id

unfoldable pub client_pin_get_token_with_permissions : CtapApp → Params → Session → Outcome (List ℕ)
client_pin_get_token_with_permissions app params s = lift app (required_map params 3) >>= λ app₁ k.
    lift app₁ (required_bytes params 6) >>= λ app₂ hash_enc.
    lift app₂ (permissions_parameter (params 9)) >>= λ app₃ permissions.
    if names_bit permissions pin_permission_pcmr
    then (lift app₃ (parse_required_pin_uv_auth_protocol (params 1)) >>= λ app₄ protocol.
        get_permitted_token app₄ s protocol permissions none)
    else get_scoped_token app₃ params s permissions
