-- ===== src/Cbor/Request.antt =====
-- `raw_map_value`, `copy_with_unassigned_simple_values_undefined` and `request_parameters` (cbor.rs).
use software_authenticator.Base.{
  ℕ, zero, suc, ◌*◌, ◌%◌, ◌||◌, ◌&&◌, not, Bool, false, Option, none, some, List, [], ◌∷◌, ◌++◌,
  ◌==◌, ltb, if◌then◌else◌, length, drop, u64_max, is_none,
}
use software_authenticator.Pin.Types.{Result, ok, err}
use software_authenticator.Cbor.Header.{max_nesting, Header, header, item_end}
use software_authenticator.Cbor.Canonical.{slice, canonical_item_end}

abbrev pub ctap2_err_invalid_cbor : ℕ
ctap2_err_invalid_cbor = 0x12

-- The key that starts at `pos` is this unsigned integer.
abbrev pub is_key : Option Header → ℕ → ℕ → Bool
is_key none key key_end = false
is_key (some h) key key_end = h.major == 0 && h.argument == key && h.header_end == key_end

abbrev pub keep_first : Option (List ℕ) → Bool → List ℕ → Option (List ℕ)
keep_first found here v = if here && is_none found then some v else found

abbrev pub raw_entries : List ℕ → ℕ → ℕ → ℕ → Option (List ℕ) → Option (ℕ × Option (List ℕ))
raw_entries bytes key zero pos found = some (pos, found)
raw_entries bytes key (suc count) pos found = elim (item_end bytes max_nesting pos) [
  | none ↦ none
  | some key_end ↦ elim (item_end bytes max_nesting key_end) [
    | none ↦ none
    | some value_end ↦
        raw_entries bytes key count value_end
          (keep_first found (is_key (header bytes pos) key key_end) (slice bytes key_end value_end))
  ]
]

abbrev pub whole_map : List ℕ → Option (ℕ × Option (List ℕ)) → Option (Option (List ℕ))
whole_map bytes none = none
whole_map bytes (some (pos, found)) = if not (pos == length bytes) then none else some found

abbrev pub raw_map : List ℕ → ℕ → Option Header → Option (Option (List ℕ))
raw_map bytes key none = none
raw_map bytes key (some h) =
    if not (h.major == 5)
    then none
    else whole_map bytes (raw_entries bytes key h.argument h.header_end none)

-- `none` is `Err(())`.
unfoldable pub raw_map_value : List ℕ → ℕ → Option (Option (List ℕ))
raw_map_value bytes key = raw_map bytes key (header bytes 0)

-- The position after an item and what is appended for it.
abbrev pub Copied : Type 0
Copied = Option (ℕ × List ℕ)

abbrev pub before_copied : List ℕ → Copied → Copied
before_copied out none = none
before_copied out (some (end, more)) = some (end, out ++ more)

abbrev pub copy_times : ℕ → (ℕ → Copied) → ℕ → Copied
copy_times zero step end = some (end, [])
copy_times (suc count) step end = elim (step end) [
  | none ↦ none
  | some copied ↦ before_copied copied.1 (copy_times count step copied.0)
]

abbrev pub copy_flat : List ℕ → ℕ → Option ℕ → Copied
copy_flat bytes pos none = none
copy_flat bytes pos (some end) = some (end, slice bytes pos end)

abbrev pub copy_item : List ℕ → (ℕ → Copied) → ℕ → ℕ → Option Header → Copied
copy_item bytes step pos info none = none
copy_item bytes step pos info (some h) =
    if h.major == 7 && (ltb info 20 || info == 24)
    then some (h.header_end, 0xf7 ∷ [])
    else if h.major == 4
    then before_copied (slice bytes pos h.header_end) (copy_times h.argument step h.header_end)
    else if h.major == 5
    then (if ltb u64_max (h.argument * 2)
        then none
        else before_copied (slice bytes pos h.header_end)
            (copy_times (h.argument * 2) step h.header_end))
    else copy_flat bytes pos (item_end bytes (suc max_nesting) pos)

-- `bytes[pos] & 0x1f`.
abbrev pub info_at : List ℕ → ℕ
info_at [] = 0
info_at (initial ∷ bytes) = initial % 32

-- The source's recursion has no limit of its own; `fuel` is how deep it may go here.
unfoldable pub copy_with_unassigned_simple_values_undefined : List ℕ → ℕ → ℕ → Copied
copy_with_unassigned_simple_values_undefined bytes zero pos = none
copy_with_unassigned_simple_values_undefined bytes (suc fuel) pos =
    copy_item bytes (copy_with_unassigned_simple_values_undefined bytes fuel) pos
      (info_at (drop pos bytes)) (header bytes pos)

-- `decode` is ciborium's reader: the entries, if the bytes are a map that it can read.
abbrev pub decoded {ℓ} :
    {Entries : Type ℓ} → (List ℕ → Option Entries) → ℕ → Copied → Result Entries
decoded decode size none = err ctap2_err_invalid_cbor
decoded decode size (some (end, decodable)) =
    if not (end == size)
    then err ctap2_err_invalid_cbor
    else elim (decode decodable) [ none ↦ err ctap2_err_invalid_cbor | some entries ↦ ok entries ]

abbrev pub ends_at : Option ℕ → ℕ → Bool
ends_at none size = false
ends_at (some end) size = end == size

unfoldable pub request_parameters {ℓ} :
    {Entries : Type ℓ} → (List ℕ → Option Entries) → List ℕ → Result Entries
request_parameters decode payload =
    if not (ends_at (canonical_item_end payload max_nesting 0) (length payload))
    then err ctap2_err_invalid_cbor
    else decoded decode (length payload)
        (copy_with_unassigned_simple_values_undefined payload (suc max_nesting) 0)
