-- ===== src/Store/Manifest.antt =====
-- The membership of a credential set: store/manifest.rs, with `hex` of fsio.rs and
-- `is_credential_file_name` of keys.rs.
use Prim.Native.Nat.{Ordering}
use software_authenticator.Base.{
  ℕ, zero, suc, ◌+◌, ◌-◌, ◌*◌, ◌^◌, not, Bool, true, Option, none, some, List, [], ◌∷◌, ◌++◌, ◌==◌,
  ltb, leb, if◌then◌else◌, length, take, drop, get_or, be32, from_be32, bytes_eq,
}
use software_authenticator.Cbor.Canonical.{lexical, is_lt}
use software_authenticator.Store.Hex.{hex, pack, is_credential_file_name}

pub data Location : Type 0 where
  legacy : Location
  managed : Location

-- A `BTreeMap` from names to locations, as its entries in order.
abbrev pub Manifest : Type 0
Manifest = List (List ℕ × Location)

abbrev pub magic : List ℕ
magic = 0x50 ∷ 0x51 ∷ 0x43 ∷ 0x31 ∷ []

-- MAX_ENVELOPE_LEN - OVERHEAD.
abbrev pub max_plaintext : ℕ
max_plaintext = 2 ^ 20 - (4 + 2 + 24 + 16)

abbrev pub location_byte : Location → ℕ
location_byte legacy = 0
location_byte managed = 1

abbrev pub then_entries : List ℕ → Option (List ℕ) → Option (List ℕ)
then_entries entry none = none
then_entries entry (some more) = some (entry ++ more)

abbrev pub encode_entries : Manifest → Option (List ℕ)
encode_entries [] = some []
encode_entries (entry ∷ more) =
    let rest = encode_entries more in
    if is_credential_file_name entry.0
    then then_entries (location_byte entry.1 ∷ pack entry.0) rest
    else none

-- `none` is `StoreError::InvalidRecord`.
unfoldable pub encode : Manifest → Option (List ℕ)
encode manifest =
    if ltb max_plaintext (length manifest * 33 + 8)
    then none
    else if leb (2 ^ 32) (length manifest)
    then none
    else then_entries (magic ++ be32 (length manifest)) (encode_entries manifest)

-- `BTreeMap::insert`.
abbrev pub insert : List ℕ → Location → Manifest → Manifest
insert name location [] = (name, location) ∷ []
insert name location (entry ∷ more) = elim (lexical name entry.0) [
  | Ordering.lt ↦ (name, location) ∷ entry ∷ more
  | Ordering.eq ↦ (name, location) ∷ more
  | Ordering.gt ↦ entry ∷ insert name location more
]

abbrev pub location_of : ℕ → Option Location
location_of byte = if byte == 0 then some legacy else if byte == 1 then some managed else none

-- `previous >= name` does not hold.
abbrev pub rises : Option (List ℕ) → List ℕ → Bool
rises none name = true
rises (some previous) name = is_lt (lexical previous name)

-- One entry of 33 bytes after another; the length was checked, so there are `count`.
abbrev pub decode_entries : ℕ → List ℕ → Option (List ℕ) → Manifest → Option Manifest
decode_entries zero bytes previous manifest = some manifest
decode_entries (suc count) bytes previous manifest = elim (location_of (get_or bytes 0 0)) [
  | none ↦ none
  | some location ↦
      let name = hex (drop 1 (take 33 bytes)) in
      let rest = decode_entries count (drop 33 bytes) (some name) (insert name location manifest) in
      if rises previous name then rest else none
]

abbrev pub count_of : List ℕ → ℕ
count_of bytes =
    from_be32 (get_or bytes 4 0) (get_or bytes 5 0) (get_or bytes 6 0) (get_or bytes 7 0)

-- `none` is `Corruption::Encoding`.
unfoldable pub decode : List ℕ → Option Manifest
decode bytes =
    if ltb (length bytes) 8
    then none
    else if not (bytes_eq (take 4 bytes) magic)
    then none
    else if not (count_of bytes * 33 + 8 == length bytes)
    then none
    else decode_entries (count_of bytes) (drop 8 bytes) none []
