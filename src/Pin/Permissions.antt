-- ===== src/Pin/Permissions.antt =====
-- The permissions of a token: pin/permissions.rs.
use software_authenticator.Base.{
  ℕ, zero, suc, ◌+◌, ◌-◌, ◌*◌, ◌/◌, ◌%◌, ◌&&◌, ◌||◌, not, ◌==◌, if◌then◌else◌,
}
use software_authenticator.Pin.Types.{Result, ok, err, ctap2_err_unauthorized_permission}

abbrev pub pin_permission_mc : ℕ
pin_permission_mc = 0x01

abbrev pub pin_permission_ga : ℕ
pin_permission_ga = 0x02

abbrev pub pin_permission_cm : ℕ
pin_permission_cm = 0x04

abbrev pub pin_permission_lbw : ℕ
pin_permission_lbw = 0x10

abbrev pub pin_permission_acfg : ℕ
pin_permission_acfg = 0x20

abbrev pub pin_permission_pcmr : ℕ
pin_permission_pcmr = 0x40

abbrev bit_and_fuel : ℕ → ℕ → ℕ → ℕ
bit_and_fuel zero a b = 0
bit_and_fuel (suc n) a b = (a % 2) * (b % 2) + 2 * bit_and_fuel n (a / 2) (b / 2)

-- `a & b` on `u8`.
abbrev pub bit_and : ℕ → ℕ → ℕ
bit_and a b = bit_and_fuel 8 a b

-- `a | b` on `u8`.
abbrev pub bit_or : ℕ → ℕ → ℕ
bit_or a b = a + b - bit_and a b

abbrev pub defined_pin_permissions : ℕ
defined_pin_permissions = 0x7F

abbrev pub supported_pin_permissions : ℕ
supported_pin_permissions = bit_or pin_permission_mc (
    bit_or pin_permission_ga (
      bit_or pin_permission_cm
        (bit_or pin_permission_lbw (bit_or pin_permission_acfg pin_permission_pcmr))))

abbrev pub requested_of : ℕ → Result ℕ
requested_of byte =
    let defined = bit_and byte defined_pin_permissions in
    if (not (bit_and defined pin_permission_pcmr == 0) && not (defined == pin_permission_pcmr))
      || not (bit_and defined (255 - supported_pin_permissions) == 0)
    then err ctap2_err_unauthorized_permission
    else ok defined

-- For positive `permissions`: its low byte holds every bit of the mask.
unfoldable pub requested_pin_permissions : ℕ → Result ℕ
requested_pin_permissions permissions = requested_of (permissions % 256)
