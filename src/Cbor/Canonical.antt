-- ===== src/Cbor/Canonical.antt =====
-- `canonical_item_end` and `canonical_key_order` (cbor.rs).
use Prim.Native.Nat.{compare, Ordering}
use software_authenticator.Base.{
  ℕ, zero, suc, ◌+◌, ◌-◌, ◌/◌, ◌%◌, ◌^◌, ◌||◌, ◌&&◌, not, Bool, true, false, Option, none, some,
  List, [], ◌∷◌, ◌==◌, ltb, leb, if◌then◌else◌, length, take, drop, get_or,
}
use software_authenticator.Cbor.Header.{get, Header, header, times, string_end}

-- `Ordering::then`.
abbrev pub and_then : Ordering → Ordering → Ordering
and_then Ordering.lt next = Ordering.lt
and_then Ordering.eq next = next
and_then Ordering.gt next = Ordering.gt

abbrev pub lexical : List ℕ → List ℕ → Ordering
lexical [] [] = Ordering.eq
lexical [] (r ∷ right) = Ordering.lt
lexical (l ∷ left) [] = Ordering.gt
lexical (l ∷ left) (r ∷ right) = and_then (compare l r) (lexical left right)

-- Keys are never empty.
unfoldable pub canonical_key_order : List ℕ → List ℕ → Ordering
canonical_key_order left right =
    and_then (compare (get_or left 0 0 / 32) (get_or right 0 0 / 32))
      (and_then (compare (length left) (length right)) (lexical left right))

abbrev pub is_lt : Ordering → Bool
is_lt Ordering.lt = true
is_lt Ordering.eq = false
is_lt Ordering.gt = false

abbrev pub is_after : Option (List ℕ) → List ℕ → Bool
is_after none key = true
is_after (some previous) key = is_lt (canonical_key_order previous key)

-- `&bytes[from..to]`.
abbrev pub slice : List ℕ → ℕ → ℕ → List ℕ
slice bytes from to = take (to - from) (drop from bytes)

abbrev pub entries_end : List ℕ → (ℕ → Option ℕ) → ℕ → Option (List ℕ) → ℕ → Option ℕ
entries_end bytes step zero previous end = some end
entries_end bytes step (suc count) previous end = elim (step end) [
  | none ↦ none
  | some key_end ↦
      let key = slice bytes end key_end in
      if not (is_after previous key) then none else elim (step key_end) [
        | none ↦ none
        | some next ↦ entries_end bytes step count (some key) next
      ]
]

-- The argument could not be written in fewer bytes.
abbrev pub is_shortest : ℕ → Header → Bool
is_shortest info h =
    if info == 24
    then (if h.major == 7 then leb 32 h.argument else leb 24 h.argument)
    else if info == 25
    then ltb 0xff h.argument
    else if info == 26
    then ltb 0xffff h.argument
    else if info == 27
    then ltb 0xffffffff h.argument
    else true

-- `children` ends an item one level deeper, where there may be one.
abbrev pub canonical_children : List ℕ → Option (ℕ → Option ℕ) → Header → Option ℕ
canonical_children bytes none h = none
canonical_children bytes (some step) h =
    if h.major == 4
    then times h.argument step h.header_end
    else entries_end bytes step h.argument none h.header_end

abbrev pub canonical_of : List ℕ → Option (ℕ → Option ℕ) → Header → Option ℕ
canonical_of bytes children h =
    if h.major == 0 || h.major == 1 || h.major == 7
    then some h.header_end
    else if h.major == 2 || h.major == 3
    then string_end bytes h
    else if h.major == 4 || h.major == 5
    then canonical_children bytes children h
    else none

abbrev pub canonical_body : List ℕ → Option (ℕ → Option ℕ) → ℕ → Option Header → Option ℕ
canonical_body bytes children info none = none
canonical_body bytes children info (some h) =
    if is_shortest info h then canonical_of bytes children h else none

-- `(end <= bytes.len()).then_some(end)`.
abbrev pub float_end : List ℕ → ℕ → Option ℕ
float_end bytes end = if leb end (length bytes) then some end else none

abbrev pub canonical_at : List ℕ → Option (ℕ → Option ℕ) → ℕ → Option ℕ → Option ℕ
canonical_at bytes children pos none = none
canonical_at bytes children pos (some initial) =
    if initial / 32 == 7 && leb 25 (initial % 32) && leb (initial % 32) 27
    then float_end bytes (pos + 1 + 2 ^ (initial % 32 - 24))
    else canonical_body bytes children (initial % 32) (header bytes pos)

-- `levels` is MAX_NESTING - depth.
unfoldable pub canonical_item_end : List ℕ → ℕ → ℕ → Option ℕ
canonical_item_end bytes zero pos = canonical_at bytes none pos (get bytes pos)
canonical_item_end bytes (suc levels) pos =
    canonical_at bytes (some (canonical_item_end bytes levels)) pos (get bytes pos)
