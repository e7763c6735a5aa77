-- ===== src/Cbor/Header.antt =====
-- The header of a data item and the walk over a well-formed item (cbor.rs).
use software_authenticator.Base.{
  ℕ, zero, suc, ◌+◌, ◌-◌, ◌*◌, ◌/◌, ◌%◌, ◌^◌, ◌||◌, Option, none, some, List, [], ◌∷◌, ◌==◌, ltb,
  leb, if◌then◌else◌, length, take, drop, u64_max,
}

abbrev pub max_nesting : ℕ
max_nesting = 16

-- `bytes.get(pos)` and `bytes.get(from..from + size)`.
abbrev pub first : List ℕ → Option ℕ
first [] = none
first (b ∷ bs) = some b

abbrev pub get : List ℕ → ℕ → Option ℕ
get bytes pos = first (drop pos bytes)

abbrev pub get_range : List ℕ → ℕ → ℕ → Option (List ℕ)
get_range bytes from size =
    if leb (from + size) (length bytes) then some (take size (drop from bytes)) else none

-- The bytes of a number, the most significant first; 64 bits wide.
abbrev pub big_endian : ℕ → List ℕ → ℕ
big_endian acc [] = acc
big_endian acc (byte ∷ raw) = big_endian ((acc * 2 ^ 8) % 2 ^ 64 + byte) raw

pub record Header : Type 0 where
  pub major : ℕ
  pub argument : ℕ
  pub header_end : ℕ

abbrev pub long_header : ℕ → ℕ → ℕ → Option (List ℕ) → Option Header
long_header initial pos size none = none
long_header initial pos size (some raw) =
    some record { major = initial / 32; argument = big_endian 0 raw; header_end = pos + 1 + size }

abbrev pub header_of : List ℕ → ℕ → Option ℕ → Option Header
header_of bytes pos none = none
header_of bytes pos (some initial) =
    if ltb (initial % 32) 24
    then some record { major = initial / 32; argument = initial % 32; header_end = pos + 1 }
    else if leb (initial % 32) 27
    then long_header initial pos (2 ^ (initial % 32 - 24))
        (get_range bytes (pos + 1) (2 ^ (initial % 32 - 24)))
    else none

unfoldable pub header : List ℕ → ℕ → Option Header
header bytes pos = header_of bytes pos (get bytes pos)

-- `for _ in 0..count { end = step(end)?; }`.
abbrev pub times : ℕ → (ℕ → Option ℕ) → ℕ → Option ℕ
times zero step end = some end
times (suc count) step end = elim (step end) [ none ↦ none | some next ↦ times count step next ]

-- The end of a byte or text string.
abbrev pub string_end : List ℕ → Header → Option ℕ
string_end bytes h =
    if ltb u64_max (h.header_end + h.argument) || ltb (length bytes) (h.header_end + h.argument)
    then none
    else some (h.header_end + h.argument)

abbrev pub item_body : List ℕ → (ℕ → Option ℕ) → Option Header → Option ℕ
item_body bytes step none = none
item_body bytes step (some h) =
    if h.major == 0 || h.major == 1 || h.major == 7
    then some h.header_end
    else if h.major == 2 || h.major == 3
    then string_end bytes h
    else if h.major == 4
    then times h.argument step h.header_end
    else if h.major == 5
    then if ltb u64_max (h.argument * 2) then none else times (h.argument * 2) step h.header_end
    else step h.header_end

-- `levels` is MAX_NESTING + 1 - depth.
unfoldable pub item_end : List ℕ → ℕ → ℕ → Option ℕ
item_end bytes zero pos = none
item_end bytes (suc levels) pos = item_body bytes (item_end bytes levels) (header bytes pos)
