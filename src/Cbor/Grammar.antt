-- ===== src/Cbor/Grammar.antt =====
-- What the canonical encoding is, without positions: the grammar that cbor.rs quotes from CTAP 2.3 §8.
use software_authenticator.Base.{
  get_or, ◌/◌, ℕ, zero, suc, ◌+◌, ◌*◌, ◌^◌, ◌≤◌, ◌<◌, ◌≡◌, ◌⊎◌, Option, none, some, List, [], ◌∷◌,
  ◌++◌, length, All, concat,
}

abbrev pub IsByte : ℕ → Type 0
IsByte b = b < 256

-- The number that these bytes are in base 256.
abbrev pub value : List ℕ → ℕ
value [] = 0
value (b ∷ raw) = b * 256 ^ length raw + value raw

-- The least argument that needs 1, 2, 4 or 8 bytes of its own.
abbrev pub least : ℕ → ℕ
least zero = 24
least (suc zero) = 2 ^ 8
least (suc (suc zero)) = 2 ^ 16
least (suc (suc (suc k))) = 2 ^ 32

-- An argument that follows the initial byte, in 2 ^ k bytes, and needs as many.
abbrev pub IsLong : ℕ → ℕ → ℕ → List ℕ → Type 0
IsLong k major n head =
    (raw : List ℕ) × (length raw ≡ 2 ^ k)
    × All IsByte raw
    × (value raw ≡ n)
    × (least k ≤ n)
    × (head ≡ (major * 32 + (24 + k)) ∷ raw)

-- The shortest header of a major type and an argument.
abbrev pub IsHead : ℕ → ℕ → List ℕ → Type 0
IsHead major n head =
    ((n < 24) × (head ≡ (major * 32 + n) ∷ [])) ⊎ ((k : ℕ) × (k ≤ 3) × IsLong k major n head)

-- An integer; a byte or text string; a simple value; a float.
abbrev pub IsNumber : List ℕ → Type 0
IsNumber item = (major : ℕ) × (n : ℕ) × (major ≤ 1) × IsHead major n item

abbrev pub IsString : List ℕ → Type 0
IsString item =
    (major : ℕ) × (head : List ℕ) × (s : List ℕ) × (2 ≤ major)
    × (major ≤ 3)
    × IsHead major (length s) head
    × (item ≡ head ++ s)

abbrev pub IsSimple : List ℕ → Type 0
IsSimple item =
    (n : ℕ) × (((n < 24) × (item ≡ (224 + n) ∷ []))
      ⊎ ((32 ≤ n) × (n < 256) × (item ≡ 248 ∷ n ∷ [])))

abbrev pub IsFloat : List ℕ → Type 0
IsFloat item =
    (k : ℕ) × (raw : List ℕ) × (1 ≤ k) × (k ≤ 3) × (length raw ≡ 2 ^ k) × (item ≡ (248 + k) ∷ raw)

abbrev pub IsFlat : List ℕ → Type 0
IsFlat item = (IsNumber item ⊎ IsString item) ⊎ (IsSimple item ⊎ IsFloat item)

abbrev pub IsArray : (List ℕ → Type 0) → List ℕ → Type 0
IsArray P item =
    (head : List ℕ) × (items : List (List ℕ)) × IsHead 4 (length items) head
    × All P items
    × (item ≡ head ++ concat items)

abbrev pub IsLexicallyBefore : List ℕ → List ℕ → Type 0
IsLexicallyBefore left [] = ⊥
IsLexicallyBefore [] (r ∷ right) = Unit
IsLexicallyBefore (l ∷ left) (r ∷ right) = (l < r) ⊎ ((l ≡ r) × IsLexicallyBefore left right)

abbrev pub major_of : List ℕ → ℕ
major_of item = get_or item 0 0 / 32

-- The order of keys: by major type, then by length, then byte by byte.
abbrev pub IsBefore : List ℕ → List ℕ → Type 0
IsBefore left right =
    (major_of left < major_of right)
    ⊎ ((major_of left ≡ major_of right)
        × ((length left < length right)
            ⊎ ((length left ≡ length right) × IsLexicallyBefore left right)))

-- The entries of a map, their keys in strictly rising order.
abbrev pub IsAfter : Option (List ℕ) → List ℕ → Type 0
IsAfter none key = Unit
IsAfter (some previous) key = IsBefore previous key

abbrev pub IsRising : (List ℕ → Type 0) → Option (List ℕ) → List (List ℕ × List ℕ) → Type 0
IsRising P previous [] = Unit
IsRising P previous (entry ∷ more) =
    (P entry.0 × P entry.1 × IsAfter previous entry.0) × IsRising P (some entry.0) more

abbrev pub entries : List (List ℕ × List ℕ) → List ℕ
entries [] = []
entries (entry ∷ more) = entry.0 ++ (entry.1 ++ entries more)

abbrev pub IsMap : (List ℕ → Type 0) → List ℕ → Type 0
IsMap P item =
    (head : List ℕ) × (pairs : List (List ℕ × List ℕ)) × IsHead 5 (length pairs) head
    × IsRising P none pairs
    × (item ≡ head ++ entries pairs)

-- A data item with at most this many levels of arrays and maps, and no tags.
abbrev pub IsItem : ℕ → List ℕ → Type 0
IsItem zero item = IsFlat item
IsItem (suc levels) item = IsFlat item ⊎ (IsArray (IsItem levels) item ⊎ IsMap (IsItem levels) item)
