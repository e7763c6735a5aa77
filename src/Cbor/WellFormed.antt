-- ===== src/Cbor/WellFormed.antt =====
-- `item_end` (cbor.rs) ends every canonical item where `canonical_item_end` does.
use software_authenticator.Base.{
  ◌⊎◌, ℕ, zero, suc, ◌+◌, ◌*◌, ◌≤◌, ◌≡◌, refl, ap, sym, ◌∙◌, inl, inr, arith, false, Option, none,
  some, List, [], ◌∷◌, ◌++◌, ltb, length, length-append, length-drop, drop, All, concat,
  append_assoc, u64_max,
}
use software_authenticator.Cbor.Header.{Header, header, item_body, item_end}
use software_authenticator.Cbor.Grammar.{IsHead, IsFlat, IsArray, IsRising, entries, IsMap, IsItem}
use software_authenticator.Cbor.Heads.{long_header_raw, short_header, head-Reads}
use software_authenticator.Cbor.Accepts.{Finds, after_item, times-Finds}

-- The keys and values of a map, one after the other.
abbrev pub flattened : List (List ℕ × List ℕ) → List (List ℕ)
flattened [] = []
flattened (entry ∷ more) = entry.0 ∷ entry.1 ∷ flattened more

pub length-flattened :
    (pairs : List (List ℕ × List ℕ)) → length (flattened pairs) ≡ length pairs * 2
length-flattened [] = refl
length-flattened (entry ∷ more) = omega (arith, length-flattened more)

pub concat-flattened : (pairs : List (List ℕ × List ℕ)) → concat (flattened pairs) ≡ entries pairs
concat-flattened [] = refl
concat-flattened (entry ∷ more) = ap (λ r. entry.0 ++ (entry.1 ++ r)) (concat-flattened more)

pub All-flattened :
    (P : List ℕ → Type 0) (previous : Option (List ℕ)) (pairs : List (List ℕ × List ℕ))
    → IsRising P previous pairs
    → All P (flattened pairs)
All-flattened P previous [] rising = tt
All-flattened P previous (entry ∷ more) ((key_in, v_in, after), rising) =
    (key_in, (v_in, All-flattened P (some entry.0) more rising))

head-nonempty : (major n : ℕ) (head : List ℕ) → IsHead major n head → 1 ≤ length head
head-nonempty major n head (inl (small, same)) = omega (arith, ap length same)
head-nonempty major n head (inr (k, small, (raw, sized, bytes_in, valued, needed, same))) =
    omega (arith, ap length same)

flat-nonempty : (item : List ℕ) → IsFlat item → 1 ≤ length item
flat-nonempty item (inl (inl (major, n, low, is_head))) = head-nonempty major n item is_head
flat-nonempty item (inl (inr (major, head, s, low, high, is_head, same))) =
    omega (arith, ap length same, length-append head s, head-nonempty major (length s) head is_head)
flat-nonempty item (inr (inl (n, inl (low, same)))) = omega (arith, ap length same)
flat-nonempty item (inr (inl (n, inr (low, high, same)))) = omega (arith, ap length same)
flat-nonempty item (inr (inr (k, raw, low, high, sized, same))) = omega (arith, ap length same)

pub item-nonempty : (levels : ℕ) (item : List ℕ) → IsItem levels item → 1 ≤ length item
item-nonempty zero item flat = flat-nonempty item flat
item-nonempty (suc levels) item (inl flat) = flat-nonempty item flat
item-nonempty (suc levels) item (inr (inl (head, items, is_head, all, same))) = omega (
  arith,
  ap length same,
  length-append head (concat items),
  head-nonempty 4 (length items) head is_head,
)
item-nonempty (suc levels) item (inr (inr (head, pairs, is_head, rising, same))) = omega (
  arith,
  ap length same,
  length-append head (entries pairs),
  head-nonempty 5 (length pairs) head is_head,
)

-- Items that are not empty are at most as many as their bytes.
pub count_le :
    (P : List ℕ → Type 0)
    → ((item : List ℕ) → P item → 1 ≤ length item)
    → (items : List (List ℕ)) → All P items
    → length items ≤ length (concat items)
count_le P nonempty [] all = omega arith
count_le P nonempty (item ∷ more) (here, all) =
    omega
      (arith, nonempty item here, count_le P nonempty more all, length-append item (concat more))

-- The header of an item that is no array and no map is the item, or is followed by a string.
abbrev pub IsFlatHeader : List ℕ → ℕ → List ℕ → Header → Type 0
IsFlatHeader bytes pos item h =
    (((h.major ≤ 1) ⊎ (h.major ≡ 7)) × (h.header_end ≡ pos + length item))
    ⊎ ((2 ≤ h.major)
        × (h.major ≤ 3)
        × (h.header_end + h.argument ≡ pos + length item)
        × (pos + length item ≤ length bytes))

pub flat-header :
    (bytes : List ℕ) (pos : ℕ) (item post : List ℕ)
    → IsFlat item
    → drop pos bytes ≡ item ++ post
    → (h : Header) × (header bytes pos ≡ some h) × IsFlatHeader bytes pos item h
flat-header bytes pos item post (inl (inl (major, n, low, is_head))) at =
    (_, (head-Reads bytes pos major n item post (omega arith) is_head at).3, inl (inl low, refl))
flat-header bytes pos item post (inl (inr (major, head, s, low, high, is_head, same))) at = (
  _,
  (head-Reads bytes pos major (length s) head (s ++ post) (omega arith) is_head at').3,
  inr (low, high, omega (arith, ap length same, length-append head s), fits),
)
  where
    at' : drop pos bytes ≡ head ++ (s ++ post)
    at' = at ∙ ap (λ i. i ++ post) same ∙ append_assoc head s post

    fits : pos + length item ≤ length bytes
    fits = omega (
      arith,
      ap length at,
      length-append item post,
      length-drop pos bytes,
      ap length same,
      length-append head s,
      head-nonempty major (length s) head is_head,
    )
flat-header bytes pos item post (inr (inl (n, inl (low, same)))) at = (
  _,
  short_header bytes pos 7 n post low (at ∙ ap (λ i. i ++ post) same),
  inl (inr refl, omega (arith, ap length same)),
)
flat-header bytes pos item post (inr (inl (n, inr (low, high, same)))) at = (
  _,
  long_header_raw bytes pos 7 0 (n ∷ []) post (omega arith) (omega arith)
      (at ∙ ap (λ i. i ++ post) same),
  inl (inr refl, omega (arith, ap length same)),
)
flat-header bytes pos item post (inr (inr (k, raw, low, high, sized, same))) at = (
  _,
  long_header_raw bytes pos 7 k raw post high sized
      (at ∙ ap (λ i. i ++ post) same ∙ ap (λ b. b ∷ (raw ++ post)) (omega arith)),
  inl (inr refl, omega (arith, ap length same)),
)

IsFlat-WellFormed :
    (bytes : List ℕ) (step : ℕ → Option ℕ)
    → length bytes ≤ u64_max
    → Finds IsFlat bytes (λ pos. item_body bytes step (header bytes pos))
IsFlat-WellFormed bytes step small pos item post flat at =
    from (flat-header bytes pos item post flat at)
  where
    from :
        (h : Header) × (header bytes pos ≡ some h) × IsFlatHeader bytes pos item h
        → item_body bytes step (header bytes pos) ≡ some (pos + length item)
    from (h, read, inl (inl low, end)) = rw (read) (ground (arith, end))
    from (h, read, inl (inr seven, end)) = rw (read) (ground (arith, end))
    from (h, read, inr (low, high, end, fits)) = rw (read) (ground (arith, end))

IsArray-WellFormed :
    (P : List ℕ → Type 0) (bytes : List ℕ) (step : ℕ → Option ℕ)
    → Finds P bytes step
    → Finds (IsArray P) bytes (λ pos. item_body bytes step (header bytes pos))
IsArray-WellFormed P bytes step finds pos item post (head, items, is_head, all, same) at =
    rw
      ((head-Reads bytes pos 4 (length items) head (concat items ++ post) (omega arith) is_head
        at').3)
      (times-Finds P bytes step finds items (pos + length head) post all
          (after_item bytes pos head (concat items ++ post) at')
        ∙ ap some (omega (arith, ap length same, length-append head (concat items))))
  where
    at' : drop pos bytes ≡ head ++ (concat items ++ post)
    at' = at ∙ ap (λ i. i ++ post) same ∙ append_assoc head (concat items) post

IsMap-WellFormed :
    (P : List ℕ → Type 0) (bytes : List ℕ) (step : ℕ → Option ℕ)
    → length bytes ≤ u64_max
    → ((item : List ℕ) → P item → 1 ≤ length item)
    → Finds P bytes step
    → Finds (IsMap P) bytes (λ pos. item_body bytes step (header bytes pos))
IsMap-WellFormed P bytes step small nonempty finds pos item post
      (head, pairs, is_head, rising, same) at =
    rw
      (
        (head-Reads bytes pos 5 (length pairs) head (entries pairs ++ post) (omega arith) is_head
            at').3,
        fits,
        sym (length-flattened pairs),
      )
      (times-Finds P bytes step finds (flattened pairs) (pos + length head) post
          (All-flattened P none pairs rising)
          (after_item bytes pos head (entries pairs ++ post) at'
            ∙ ap (λ r. r ++ post) (sym (concat-flattened pairs)))
        ∙ ap some (
            omega (
              arith,
              ap length same,
              length-append head (entries pairs),
              ap length (concat-flattened pairs),
            )))
  where
    at' : drop pos bytes ≡ head ++ (entries pairs ++ post)
    at' = at ∙ ap (λ i. i ++ post) same ∙ append_assoc head (entries pairs) post

    fits : ltb u64_max (length pairs * 2) ≡ false
    fits = ground (
      arith,
      length-flattened pairs,
      ap length (concat-flattened pairs),
      count_le P nonempty (flattened pairs) (All-flattened P none pairs rising),
      ap length at',
      length-append head (entries pairs ++ post),
      length-append (entries pairs) post,
      length-drop pos bytes,
    )

-- Where a canonical item stands, `item_end` with a level to spare ends right behind it too.
pub item_end-IsItem :
    (bytes : List ℕ) (levels : ℕ)
    → length bytes ≤ u64_max
    → Finds (IsItem levels) bytes (item_end bytes (suc levels))
unfolding item_end
item_end-IsItem bytes zero small pos item post flat at =
    IsFlat-WellFormed bytes (item_end bytes zero) small pos item post flat at
item_end-IsItem bytes (suc levels) small pos item post (inl flat) at =
    IsFlat-WellFormed bytes (item_end bytes (suc levels)) small pos item post flat at
item_end-IsItem bytes (suc levels) small pos item post (inr (inl is_array)) at =
    IsArray-WellFormed (IsItem levels) bytes (item_end bytes (suc levels))
      (item_end-IsItem bytes levels small) pos item post is_array at
item_end-IsItem bytes (suc levels) small pos item post (inr (inr is_map)) at =
    IsMap-WellFormed (IsItem levels) bytes (item_end bytes (suc levels)) small
      (item-nonempty levels) (item_end-IsItem bytes levels small) pos item post is_map at
