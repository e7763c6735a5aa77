-- ===== src/Pin/Grants.antt =====
-- Which permissions are granted: `requested_pin_permissions` of pin/permissions.rs against arithmetic.
use software_authenticator.Base.{
  all_below, at_below, ℕ, ◌/◌, ◌%◌, ◌≡◌, refl, ap, ◌∙◌, Bool, true, false, ◌&&◌, ◌||◌, ◌==◌,
  if◌then◌else◌, arith,
}
use software_authenticator.Pin.Types.{Result, ok, err, ctap2_err_unauthorized_permission}
use software_authenticator.Pin.Permissions.{requested_of, requested_pin_permissions}

-- CTAP 2.3 §6.5.5.7.2 in arithmetic: bit 7 and above are ignored, bit 3 (be) is refused, and bit 6
-- (pcmr) stands alone.
abbrev pub permitted : ℕ → Result ℕ
permitted n =
    if (n / 8 % 2 == 0) && ((n / 64 % 2 == 0) || (n % 128 == 64))
    then ok (n % 128)
    else err ctap2_err_unauthorized_permission

abbrev result_eq : Result ℕ → Result ℕ → Bool
result_eq (ok a) (ok b) = a == b
result_eq (err a) (err b) = a == b
result_eq _ _ = false

eq_of_result_eq : (r s : Result ℕ) → result_eq r s ≡ true → r ≡ s
eq_of_result_eq (ok a) (ok b) same = ap ok (ground arith)
eq_of_result_eq (err a) (err b) same = ap err (ground arith)
eq_of_result_eq (ok a) (err b) same = absurd (ground arith)
eq_of_result_eq (err a) (ok b) same = absurd (ground arith)

bytes_agree : all_below 256 (λ m. result_eq (requested_pin_permissions m) (permitted m)) ≡ true
unfolding requested_pin_permissions
bytes_agree = refl

low_byte : (n : ℕ) → requested_pin_permissions n ≡ requested_pin_permissions (n % 256)
unfolding requested_pin_permissions
low_byte n = ap requested_of (same n)
  where
    same : (n : ℕ) → n % 256 ≡ n % 256 % 256
    same n = omega arith

-- For every positive permissions parameter, what is granted is the parameter's low seven bits, unless
-- it asks for be or for pcmr together with another permission, which is refused.
pub requested_pin_permissions-permitted : (n : ℕ) → requested_pin_permissions n ≡ permitted n
requested_pin_permissions-permitted n =
    low_byte n
    ∙ eq_of_result_eq (requested_pin_permissions (n % 256)) (permitted (n % 256)) (
        at_below 256 (n % 256) (λ m. result_eq (requested_pin_permissions m) (permitted m))
          bytes_agree (omega arith))
    ∙ permitted_low n
  where
    permitted_low : (n : ℕ) → permitted (n % 256) ≡ permitted n
    permitted_low n = ground arith
