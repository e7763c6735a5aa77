-- ===== src/Cbor/Numbers.antt =====
-- The 64-bit fold of `header` (cbor.rs) reads the number that the bytes are.
use software_authenticator.Base.{
  ℕ, zero, suc, ◌+◌, ◌*◌, ◌%◌, ◌^◌, ◌≤◌, ◌<◌, ◌≡◌, ap, sym, subst, ◌∙◌, arith, List, [], ◌∷◌,
  length, All,
}
use native.Mathlib.Nat.{one-le-pow, pow-le-pow_right, mul-le-mul_right}
use software_authenticator.Cbor.Header.{big_endian}
use software_authenticator.Cbor.Grammar.{IsByte, value}

shift : (acc b : ℕ) → acc < 2 ^ 56 → b < 256 → (acc * 2 ^ 8) % 2 ^ 64 + b ≡ acc * 256 + b
shift acc b small byte = omega arith

one_more : (l : ℕ) → 256 ^ suc l ≡ 256 * 256 ^ l
one_more l = omega arith

positive : (l : ℕ) → 1 ≤ 256 ^ l
positive l = one-le-pow l 256 (omega arith)

small_of_room : (acc p : ℕ) → 1 ≤ p → (acc + 1) * (256 * p) ≤ 2 ^ 64 → acc < 2 ^ 56
small_of_room acc zero one room = absurd (omega arith)
small_of_room acc (suc p) one room = omega arith

room_left :
    (acc b p : ℕ) → b < 256 → (acc + 1) * (256 * p) ≤ 2 ^ 64 → (acc * 256 + b + 1) * p ≤ 2 ^ 64
room_left acc b p byte room = omega (arith, mul-le-mul_right p (le b byte))
  where
    le : (b : ℕ) → b < 256 → acc * 256 + b + 1 ≤ (acc + 1) * 256
    le b byte = omega arith

regroup : (acc b p v : ℕ) → (acc * 256 + b) * p + v ≡ acc * (256 * p) + (b * p + v)
regroup acc b p v = omega arith

-- With room in 64 bits for the bytes to come, none of the number is lost.
big_endian-from :
    (acc : ℕ) (raw : List ℕ)
    → (acc + 1) * 256 ^ length raw ≤ 2 ^ 64
    → All IsByte raw
    → big_endian acc raw ≡ acc * 256 ^ length raw + value raw
big_endian-from acc [] room bytes = omega arith
big_endian-from acc (b ∷ raw) room (byte, bytes) =
    ap (λ n. big_endian n raw) (shift acc b small byte)
    ∙ big_endian-from (acc * 256 + b) raw room' bytes
    ∙ sum
  where
    widened : (acc + 1) * (256 * 256 ^ length raw) ≤ 2 ^ 64
    widened = subst (λ n. (acc + 1) * n ≤ 2 ^ 64) (one_more (length raw)) room

    small : acc < 2 ^ 56
    small = small_of_room acc (256 ^ length raw) (positive (length raw)) widened

    room' : (acc * 256 + b + 1) * 256 ^ length raw ≤ 2 ^ 64
    room' = room_left acc b (256 ^ length raw) byte widened

    sum :
        (acc * 256 + b) * 256 ^ length raw + value raw
        ≡ acc * 256 ^ suc (length raw) + (b * 256 ^ length raw + value raw)
    sum =
        regroup acc b (256 ^ length raw) (value raw)
        ∙ ap (λ n. acc * n + (b * 256 ^ length raw + value raw)) (sym (one_more (length raw)))

pub width_le : (k : ℕ) → k ≤ 3 → 2 ^ k ≤ 8
width_le k small = pow-le-pow_right (omega arith) small

pub big_endian-value :
    (k : ℕ) (raw : List ℕ)
    → k ≤ 3
    → length raw ≡ 2 ^ k
    → All IsByte raw
    → big_endian 0 raw ≡ value raw
big_endian-value k raw small sized bytes =
    big_endian-from 0 raw room bytes ∙ none_before (256 ^ length raw) (value raw)
  where
    short : length raw ≤ 8
    short = omega (arith, sized, width_le k small)

    room : (0 + 1) * 256 ^ length raw ≤ 2 ^ 64
    room = omega (arith, pow-le-pow_right {n = 256} (omega arith) short)

    none_before : (p v : ℕ) → 0 * p + v ≡ v
    none_before p v = omega arith
