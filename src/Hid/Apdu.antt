-- ===== src/Hid/Apdu.antt =====
-- `decode` and `requests_presence` of crates/pqkey-ctap/src/ctap/u2f.rs.
use software_authenticator.Base.{
  ℕ, ◌+◌, ◌-◌, Bool, true, false, not, ◌&&◌, ◌||◌, List, [], ◌==◌, leb, if◌then◌else◌, length,
  get_or, take, drop, from_be16,
}

abbrev pub sw_command_not_allowed : ℕ
sw_command_not_allowed = 0x6986

abbrev pub sw_wrong_length : ℕ
sw_wrong_length = 0x6700

abbrev pub sw_cla_not_supported : ℕ
sw_cla_not_supported = 0x6e00

abbrev pub sw_ins_not_supported : ℕ
sw_ins_not_supported = 0x6d00

abbrev pub sw_wrong_parameters : ℕ
sw_wrong_parameters = 0x6a86

pub data Request : Type 0 where
  version : Request
  register : (challenge application : List ℕ) → Request
  authenticate : (control : ℕ) (challenge application handle : List ℕ) → Request

-- `Result<_, u16>` with a status word as the error.
pub data Decoded {ℓ} (A : Type ℓ) : Type ℓ where
  ok : A → Decoded A
  err : ℕ → Decoded A

infixl 5 ◌>>=◌
abbrev pub ◌>>=◌ {ℓ κ} : {A : Type ℓ} {B : Type κ} → Decoded A → (A → Decoded B) → Decoded B
ok a >>= f = f a
err e >>= f = err e

abbrev one_of_three : ℕ → ℕ → ℕ → ℕ → Bool
one_of_three n a b c = n == a || n == b || n == c

-- `apdu.get(from..to).ok_or(SW_WRONG_LENGTH)`, for `from ≤ to`, with `size = to - from`.
abbrev slice : List ℕ → ℕ → ℕ → Decoded (List ℕ)
slice apdu from size =
    if leb (from + size) (length apdu) then ok (take size (drop from apdu)) else err sw_wrong_length

extended_data : List ℕ → Decoded (List ℕ)
extended_data apdu = do
  field ← slice apdu 5 2
  let size = from_be16 (get_or field 0 0) (get_or field 1 0)
  if length apdu == 7 || (size == 0 && length apdu == 9) then ok [] else do
    body ← slice apdu 7 size
    let excess = length apdu - (7 + size)
    if excess == 0 || excess == 2 then ok body else err sw_wrong_length

short_data : List ℕ → Decoded (List ℕ)
short_data apdu = do
  let size = get_or apdu 4 0
  body ← slice apdu 5 size
  let excess = length apdu - (5 + size)
  if excess == 0 || excess == 1 then ok body else err sw_wrong_length

command_data : List ℕ → Decoded (List ℕ)
unfolding extended_data short_data
command_data apdu =
    if length apdu == 4 || length apdu == 5
    then ok []
    else if get_or apdu 4 0 == 0
    then extended_data apdu
    else short_data apdu

request_of : ℕ → ℕ → List ℕ → Decoded Request
request_of ins p1 body =
    if ins == 3 && length body == 0
    then ok version
    else if ins == 1 && length body == 64
    then ok (register (take 32 body) (drop 32 body))
    else if ins == 2 && (leb 65 (length body) && length body == 65 + get_or body 64 0)
    then ok (authenticate p1 (take 32 body) (take 32 (drop 32 body)) (drop 65 body))
    else err sw_wrong_length

unfoldable pub decode : List ℕ → Bool → Decoded Request
unfolding command_data request_of
decode apdu disabled = do
  header ← slice apdu 0 4
  let cla = get_or header 0 0
  let ins = get_or header 1 0
  let p1 = get_or header 2 0
  let p2 = get_or header 3 0
  if not (cla == 0)
      then err sw_cla_not_supported
      else if not (one_of_three ins 1 2 3)
      then err sw_ins_not_supported
      else if disabled && (ins == 1 || ins == 2)
      then err sw_command_not_allowed
      else if not (p2 == 0)
          || (not (ins == 2) && not (p1 == 0))
          || (ins == 2 && not (one_of_three p1 3 7 8))
      then err sw_wrong_parameters
      else do body ← command_data apdu; request_of ins p1 body

presence_of : Decoded Request → Bool
presence_of (ok (register _ _)) = true
presence_of (ok (authenticate control _ _ _)) = control == 3
presence_of _ = false

unfoldable pub requests_presence : List ℕ → Bool
unfolding decode presence_of
requests_presence apdu = presence_of (decode apdu false)
