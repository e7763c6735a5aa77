-- ===== src/Pin/Token.antt =====
-- The pinUvAuthToken and its timers: pin/token.rs, and `authorize_rp_operation` of pin/state.rs.
use software_authenticator.Base.{
  ℕ, ◌+◌, ◌-◌, ◌%◌, ◌^◌, Bool, true, false, ◌&&◌, ◌||◌, not, Option, none, some, List, ◌==◌, leb,
  if◌then◌else◌, is_none, bytes_eq,
}
use software_authenticator.Pin.Types.{
  Result, ok, err, PinProtocol, v1, v2, TokenOrigin, TokenGrant, InUseToken, PinUvAuthTokenState,
  ctap2_err_pin_auth_invalid,
}
use software_authenticator.Pin.Permissions.{pin_permission_lbw, bit_and}

abbrev pub initial_usage_time_limit : ℕ
initial_usage_time_limit = 30000

abbrev pub user_present_time_limit : ℕ
user_present_time_limit = 30000

abbrev pub max_usage_time_period : ℕ
max_usage_time_period = 600000

abbrev pub protocol_eq : PinProtocol → PinProtocol → Bool
protocol_eq v1 v1 = true
protocol_eq v2 v2 = true
protocol_eq _ _ = false

abbrev pub begin_using :
    PinUvAuthTokenState → ℕ → PinProtocol → List ℕ → Bool → TokenGrant → PinUvAuthTokenState
begin_using s now protocol value user_is_present grant =
    let issued = (s.issued + 1) % 2 ^ 64 in
    record {
      issued = issued;
      in_use = some record {
        value = value;
        protocol = protocol;
        origin = some grant.origin;
        permissions = grant.permissions;
        permissions_rp_id = grant.rp_id;
        started_at = now;
        id = issued;
        used = false;
        user_present = user_is_present;
        user_verified = true;
      };
    }

abbrev pub secret_matches : PinUvAuthTokenState → List ℕ → Bool
secret_matches s candidate = elim s.in_use [
  | none ↦ false
  | some token ↦ bytes_eq token.value candidate
]

abbrev pub stop_using : PinUvAuthTokenState → PinUvAuthTokenState
stop_using s = record s { in_use = none }

-- Whether the usage timer has stopped the token.
abbrev pub has_expired : InUseToken → ℕ → Bool
has_expired token now =
    leb max_usage_time_period (now - token.started_at)
    || (not token.used && leb initial_usage_time_limit (now - token.started_at))

abbrev pub observe_token : InUseToken → ℕ → Option InUseToken
observe_token token now =
    if has_expired token now
    then none
    else if leb user_present_time_limit (now - token.started_at)
    then some record token { user_present = false }
    else some token

abbrev pub observe_in_use : Option InUseToken → ℕ → Option InUseToken
observe_in_use none now = none
observe_in_use (some token) now = observe_token token now

unfoldable pub observe : PinUvAuthTokenState → ℕ → PinUvAuthTokenState
observe s now = record s { in_use = observe_in_use s.in_use now }

-- The token that a getter at this time sees.
abbrev pub current : PinUvAuthTokenState → ℕ → Option InUseToken
unfolding observe
current s now = (observe s now).in_use

abbrev pub mark_used : InUseToken → Result {0} Unit → Option InUseToken × Result {0} Unit
mark_used token (ok t) = (some record token { used = true }, ok tt)
mark_used token (err e) = (some token, err e)

-- `valid` is what `verify` of pin/protocol.rs says of the signature for a token's value.
abbrev pub verify_token :
    Option InUseToken
    → PinProtocol
    → (List ℕ → Result {0} Unit)
    → Option InUseToken × Result {0} Unit
verify_token none protocol valid = (none, err ctap2_err_pin_auth_invalid)
verify_token (some token) protocol valid =
    if not (protocol_eq token.protocol protocol)
    then (some token, err ctap2_err_pin_auth_invalid)
    else mark_used token (valid token.value)

unfoldable pub verify :
    PinUvAuthTokenState
    → ℕ
    → PinProtocol
    → (List ℕ → Result {0} Unit)
    → PinUvAuthTokenState × Result {0} Unit
verify s now protocol valid =
    let result = verify_token (current s now) protocol valid in
    (record s { in_use = result.0 }, result.1)

abbrev pub has_permission_in : Option InUseToken → ℕ → Bool
has_permission_in none permission = false
has_permission_in (some token) permission = not (bit_and token.permissions permission == 0)

abbrev pub has_permission : PinUvAuthTokenState → ℕ → ℕ → Bool
has_permission s now permission = has_permission_in (current s now) permission

abbrev pub rp_id_in : Option InUseToken → Option (List ℕ)
rp_id_in none = none
rp_id_in (some token) = token.permissions_rp_id

abbrev pub permissions_rp_id : PinUvAuthTokenState → ℕ → Option (List ℕ)
permissions_rp_id s now = rp_id_in (current s now)

abbrev pub user_verified_in : Option InUseToken → Bool
user_verified_in none = false
user_verified_in (some token) = token.user_verified

abbrev pub user_verified_flag : PinUvAuthTokenState → ℕ → Bool
user_verified_flag s now = user_verified_in (current s now)

abbrev user_present_in : Option InUseToken → Bool
user_present_in none = false
user_present_in (some token) = token.user_present

abbrev pub user_present_flag : PinUvAuthTokenState → ℕ → Bool
user_present_flag s now = user_present_in (current s now)

abbrev id_in : Option InUseToken → Option ℕ
id_in none = none
id_in (some token) = some token.id

abbrev pub in_use_id : PinUvAuthTokenState → ℕ → Option ℕ
in_use_id s now = id_in (current s now)

abbrev origin_in : Option InUseToken → Option TokenOrigin
origin_in none = none
origin_in (some token) = token.origin

abbrev pub origin : PinUvAuthTokenState → ℕ → Option TokenOrigin
origin s now = origin_in (current s now)

abbrev pub consume : Option InUseToken → Option InUseToken
consume none = none
consume (some token) = some record token {
  origin = none;
  user_present = false;
  user_verified = false;
  permissions = bit_and token.permissions pin_permission_lbw;
}

unfoldable pub consume_after_user_presence : PinUvAuthTokenState → ℕ → PinUvAuthTokenState
consume_after_user_presence s now = record s { in_use = consume (current s now) }

abbrev pub bind_rp : Option InUseToken → List ℕ → Option InUseToken
bind_rp none rp_id = none
bind_rp (some token) rp_id =
    if is_none token.permissions_rp_id
    then some record token { permissions_rp_id = some rp_id }
    else some token

unfoldable pub bind_permissions_rp_id : PinUvAuthTokenState → ℕ → List ℕ → PinUvAuthTokenState
bind_permissions_rp_id s now rp_id = record s { in_use = bind_rp (current s now) rp_id }

abbrev pub bound_elsewhere : Option (List ℕ) → List ℕ → Bool
bound_elsewhere none rp_id = false
bound_elsewhere (some bound) rp_id = not (bytes_eq bound rp_id)

unfoldable pub authorize_rp_operation :
    PinUvAuthTokenState → ℕ → ℕ → List ℕ → PinUvAuthTokenState × Result {0} Unit
authorize_rp_operation s now permission rp_id =
    if not (has_permission s now permission)
      || bound_elsewhere (permissions_rp_id s now) rp_id
      || not (user_verified_flag s now)
    then (observe s now, err ctap2_err_pin_auth_invalid)
    else (bind_permissions_rp_id s now rp_id, ok tt)
