-- ===== src/Store/Hex.antt =====
-- File names of credentials as lower-case hexadecimal: `hex` of store/fsio.rs, `is_credential_file_name`
-- of store/keys.rs and the digits of `encode` in store/manifest.rs.
use software_authenticator.Base.{
  ℕ, zero, suc, ◌+◌, ◌-◌, ◌*◌, ◌/◌, ◌%◌, ◌<◌, ◌≡◌, refl, ap, ◌∙◌, arith, ◌||◌, ◌&&◌, Bool, true,
  List, [], ◌∷◌, ◌==◌, leb, if◌then◌else◌, length, get_or, All, at_below, ==_iff,
}

abbrev pub key_len : ℕ
key_len = 32

abbrev pub digits : List ℕ
digits =
    0x30 ∷ 0x31 ∷ 0x32 ∷ 0x33 ∷ 0x34 ∷ 0x35 ∷ 0x36 ∷ 0x37 ∷ 0x38 ∷ 0x39 ∷ 0x61 ∷ 0x62 ∷ 0x63 ∷ 0x64
    ∷ 0x65 ∷ 0x66 ∷ []

abbrev pub hex : List ℕ → List ℕ
hex [] = []
hex (byte ∷ bytes) = get_or digits (byte / 16) 0 ∷ get_or digits (byte % 16) 0 ∷ hex bytes

abbrev pub is_hex : ℕ → Bool
is_hex b = (leb 0x30 b && leb b 0x39) || (leb 0x61 b && leb b 0x66)

abbrev pub all_hex : List ℕ → Bool
all_hex [] = true
all_hex (b ∷ bs) = is_hex b && all_hex bs

abbrev pub is_credential_file_name : List ℕ → Bool
is_credential_file_name name = length name == 2 * key_len && all_hex name

abbrev pub digit : ℕ → ℕ
digit byte = if leb byte 0x39 then byte - 0x30 else byte - 0x61 + 10

-- Two digits to a byte; the two halves share no bits.
abbrev pub pack : List ℕ → List ℕ
pack [] = []
pack (a ∷ []) = []
pack (a ∷ b ∷ name) = ((digit a * 16) % 256 + digit b) ∷ pack name

digit-range : (b : ℕ) → is_hex b ≡ true → digit b < 16
digit-range b h = ground arith

-- A digit is read back from its character, and a character from its digit.
digit_inverse : (b : ℕ) → is_hex b ≡ true → get_or digits (digit b) 0 ≡ b
digit_inverse b h =
    (==_iff (get_or digits (digit b) 0) b).0
      (only (is_hex b) h (at_below 103 b test refl (ground arith)))
  where
    test : ℕ → Bool
    test b = if is_hex b then get_or digits (digit b) 0 == b else true

    only : (x : Bool) {y : Bool} → x ≡ true → (if x then y else true) ≡ true → y ≡ true
    only x e t = ground arith

digits_inverse : (n : ℕ) → n < 16 → digit (get_or digits n 0) ≡ n
digits_inverse n h =
    (==_iff (digit (get_or digits n 0)) n).0
      (at_below 16 n (λ n. digit (get_or digits n 0) == n) refl h)

digits-is_hex : (n : ℕ) → n < 16 → is_hex (get_or digits n 0) ≡ true
digits-is_hex n h = at_below 16 n (λ n. is_hex (get_or digits n 0)) refl h

pub and_left : (a b : Bool) → (a && b) ≡ true → a ≡ true
and_left a b h = ground arith

pub and_right : (a b : Bool) → (a && b) ≡ true → b ≡ true
and_right a b h = ground arith

pub hex-pack :
    (k : ℕ) (name : List ℕ) → length name ≡ 2 * k → all_hex name ≡ true → hex (pack name) ≡ name
hex-pack k [] even all = refl
hex-pack k (a ∷ []) even all = absurd (omega arith)
hex-pack zero (a ∷ b ∷ name) even all = absurd (omega arith)
hex-pack (suc k) (a ∷ b ∷ name) even all =
    rw (high, low) (ap (λ n. a ∷ b ∷ n) (hex-pack k name (omega arith) rest))
  where
    a_hex : is_hex a ≡ true
    a_hex = and_left (is_hex a) (is_hex b && all_hex name) all

    b_hex : is_hex b ≡ true
    b_hex = and_left (is_hex b) (all_hex name) (and_right (is_hex a) (is_hex b && all_hex name) all)

    rest : all_hex name ≡ true
    rest = and_right (is_hex b) (all_hex name) (and_right (is_hex a) (is_hex b && all_hex name) all)

    high : get_or digits (((digit a * 16) % 256 + digit b) / 16) 0 ≡ a
    high =
        ap (λ n. get_or digits n 0) (omega (arith, digit-range a a_hex, digit-range b b_hex))
        ∙ digit_inverse a a_hex

    low : get_or digits (((digit a * 16) % 256 + digit b) % 16) 0 ≡ b
    low =
        ap (λ n. get_or digits n 0) (omega (arith, digit-range a a_hex, digit-range b b_hex))
        ∙ digit_inverse b b_hex

pub pack-hex : (bytes : List ℕ) → All (λ b. b < 256) bytes → pack (hex bytes) ≡ bytes
pack-hex [] all = refl
pack-hex (b ∷ bytes) (byte, all) =
    rw (digits_inverse (b / 16) (omega arith), digits_inverse (b % 16) (omega arith))
      (ap (λ n. n ∷ pack (hex bytes)) joined ∙ ap (◌∷◌ b) (pack-hex bytes all))
  where
    joined : (b / 16 * 16) % 256 + b % 16 ≡ b
    joined = omega arith

pub hex-all_hex : (bytes : List ℕ) → All (λ b. b < 256) bytes → all_hex (hex bytes) ≡ true
hex-all_hex [] all = refl
hex-all_hex (b ∷ bytes) (byte, all) =
    rw (digits-is_hex (b / 16) (omega arith), digits-is_hex (b % 16) (omega arith))
      (hex-all_hex bytes all)

pub length-hex : (bytes : List ℕ) → length (hex bytes) ≡ 2 * length bytes
length-hex [] = refl
length-hex (b ∷ bytes) = omega (arith, length-hex bytes)

pub length-pack : (k : ℕ) (name : List ℕ) → length name ≡ 2 * k → length (pack name) ≡ k
length-pack k [] even = omega arith
length-pack k (a ∷ []) even = absurd (omega arith)
length-pack zero (a ∷ b ∷ name) even = absurd (omega arith)
length-pack (suc k) (a ∷ b ∷ name) even = omega (arith, length-pack k name (omega arith))
