-- ===== src/Pin/Params.antt =====
-- The parameters of a command: the CBOR values that the source tells apart, and the parsing of cbor.rs
-- and pin/protocol.rs.
use software_authenticator.Base.{ℕ, Bool, Option, none, some, List, ◌==◌, if◌then◌else◌}
use software_authenticator.Pin.Types.{
  Result, ok, err, PinProtocol, v1, v2, ctap1_err_invalid_parameter, ctap2_err_cbor_unexpected_type,
  ctap2_err_missing_parameter,
}

-- The CBOR values that the source tells apart: integers from 0 and below it, and arrays by which of
-- their elements are texts.
pub data Value : Type 0 where
  integer : ℕ → Value
  negative : ℕ → Value
  bytes : List ℕ → Value
  text : List ℕ → Value
  array : List (Option (List ℕ)) → Value
  mapping : Value
  boolean : Bool → Value
  other : Value

-- `cbor::map_get` of a parameter map, by its integer key.
abbrev pub Params : Type 0
Params = ℕ → Option Value

abbrev pub required_bytes : Params → ℕ → Result (List ℕ)
required_bytes p key = elim (p key) [
  | some (bytes b) ↦ ok b
  | some v ↦ err ctap2_err_cbor_unexpected_type
  | none ↦ err ctap2_err_missing_parameter
]

abbrev pub required_map : Params → ℕ → Result {0} Unit
required_map p key = elim (p key) [
  | some mapping ↦ ok tt
  | some v ↦ err ctap2_err_cbor_unexpected_type
  | none ↦ err ctap2_err_missing_parameter
]

abbrev pub parse_pin_uv_auth_protocol : Value → Result PinProtocol
parse_pin_uv_auth_protocol (integer n) =
    if n == 1 then ok v1 else if n == 2 then ok v2 else err ctap1_err_invalid_parameter
parse_pin_uv_auth_protocol (negative n) = err ctap1_err_invalid_parameter
parse_pin_uv_auth_protocol _ = err ctap2_err_cbor_unexpected_type

abbrev pub parse_required_pin_uv_auth_protocol : Option Value → Result PinProtocol
parse_required_pin_uv_auth_protocol none = err ctap2_err_missing_parameter
parse_required_pin_uv_auth_protocol (some v) = parse_pin_uv_auth_protocol v
