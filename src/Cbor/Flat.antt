-- ===== src/Cbor/Flat.antt =====
-- The copy of an item that is no array and no map (cbor.rs).
use software_authenticator.Base.{
  ◌⊎◌, ℕ, zero, suc, ◌+◌, ◌-◌, ◌*◌, ◌%◌, ◌≤◌, ◌≡◌, refl, ap, ◌∙◌, inl, inr, arith, true, false,
  some, List, [], ◌∷◌, ◌++◌, ◌==◌, ltb, leb, ◌||◌, ◌&&◌, length, drop, Bool-cases, leb→le,
  not_leb→lt, take-length-append, append_assoc, u64_max,
}
use software_authenticator.Cbor.Header.{max_nesting, big_endian, Header, header}
use software_authenticator.Cbor.Canonical.{slice}
use software_authenticator.Cbor.Grammar.{IsNumber, IsString, IsFloat, IsFlat, IsItem}
use software_authenticator.Cbor.Heads.{short_header, long_header_raw, head-Reads}
use software_authenticator.Cbor.Request.{Copied, copy_item, info_at}
use software_authenticator.Cbor.WellFormed.{item_end-IsItem}
use software_authenticator.Cbor.Replaced.{IsUnassigned, IsAssigned, IsFlatCopy}

-- The step copies every item of this kind where it stands.
abbrev pub Copies : (List ℕ → Type 0) → (List ℕ → List ℕ → Type 0) → List ℕ → (ℕ → Copied) → Type 0
Copies P R bytes step =
    (pos : ℕ) (item post : List ℕ)
    → P item
    → drop pos bytes ≡ item ++ post
    → (out : List ℕ) × R item out × (step pos ≡ some (pos + length item, out))

flat-IsItem : (levels : ℕ) (item : List ℕ) → IsFlat item → IsItem levels item
flat-IsItem zero item flat = flat
flat-IsItem (suc levels) item flat = inl flat

pub slice-head :
    (bytes : List ℕ) (pos : ℕ) (head post : List ℕ)
    → drop pos bytes ≡ head ++ post
    → slice bytes pos (pos + length head) ≡ head
slice-head bytes pos head post at =
    rw (at) (take-length-append (pos + length head - pos) head post (omega arith))

-- An item whose header is neither an array's, a map's nor an unassigned simple value's is kept.
kept :
    (bytes : List ℕ) (step : ℕ → Copied) (pos info : ℕ) (item post : List ℕ) (h : Header)
    → length bytes ≤ u64_max
    → IsFlat item
    → drop pos bytes ≡ item ++ post
    → (h.major == 7 && (ltb info 20 || info == 24)) ≡ false
    → (h.major == 4) ≡ false
    → (h.major == 5) ≡ false
    → copy_item bytes step pos info (some h) ≡ some (pos + length item, item)
kept bytes step pos info item post h small flat at no_undefined no_array no_map = rw (
  no_undefined,
  no_array,
  no_map,
  item_end-IsItem bytes max_nesting small pos item post (flat-IsItem max_nesting item flat) at,
  slice-head bytes pos item post at,
)

module _ (bytes : List ℕ) (small : length bytes ≤ u64_max) (step : ℕ → Copied) where
  abbrev pub copies_at : ℕ → Copied
  copies_at pos = copy_item bytes step pos (info_at (drop pos bytes)) (header bytes pos)

  plain-Copies :
      (pos : ℕ) (item post : List ℕ)
      → (IsNumber item ⊎ IsString item)
      → drop pos bytes ≡ item ++ post
      → copies_at pos ≡ some (pos + length item, item)
  plain-Copies pos item post (inl (major, n, low, is_head)) at =
      ap (copy_item bytes step pos (info_at (drop pos bytes)))
        ((head-Reads bytes pos major n item post (omega arith) is_head at).3)
      ∙ kept bytes step pos (info_at (drop pos bytes)) item post
          record { major = major; argument = n; header_end = pos + length item } small
          (inl (inl (major, n, low, is_head))) at (ground arith) (ground arith) (ground arith)
  plain-Copies pos item post (inr (major, head, s, low, high, is_head, same)) at =
      ap (copy_item bytes step pos (info_at (drop pos bytes)))
        ((head-Reads bytes pos major (length s) head (s ++ post) (omega arith) is_head at').3)
      ∙ kept bytes step pos (info_at (drop pos bytes)) item post
          record { major = major; argument = length s; header_end = pos + length head } small
          (inl (inr (major, head, s, low, high, is_head, same))) at (ground arith) (ground arith)
          (ground arith)
    where
      at' : drop pos bytes ≡ head ++ (s ++ post)
      at' = at ∙ ap (λ i. i ++ post) same ∙ append_assoc head s post

  unassigned-Copies :
      (pos : ℕ) (item post : List ℕ)
      → IsUnassigned item
      → drop pos bytes ≡ item ++ post
      → copies_at pos ≡ some (pos + length item, 0xf7 ∷ [])
  unassigned-Copies pos item post (n, inl (low, same)) at =
      rw (at', short_header bytes pos 7 n post (omega arith) at', undefined)
        (ap (λ m. some (m, 0xf7 ∷ [])) (omega (arith, ap length same)))
    where
      at' : drop pos bytes ≡ (224 + n) ∷ post
      at' = at ∙ ap (λ i. i ++ post) same

      undefined : (ltb ((224 + n) % 32) 20 || (224 + n) % 32 == 24) ≡ true
      undefined = ground arith
  unassigned-Copies pos item post (n, inr (low, high, same)) at =
      rw (at', long_header_raw bytes pos 7 0 (n ∷ []) post (omega arith) (omega arith) at')
        (ap (λ m. some (m, 0xf7 ∷ [])) (omega (arith, ap length same)))
    where
      at' : drop pos bytes ≡ 248 ∷ n ∷ post
      at' = at ∙ ap (λ i. i ++ post) same

  assigned-Copies :
      (pos : ℕ) (item post : List ℕ)
      → IsAssigned item
      → drop pos bytes ≡ item ++ post
      → copies_at pos ≡ some (pos + length item, item)
  assigned-Copies pos item post (n, low, high, same) at =
      ap (copy_item bytes step pos (info_at (drop pos bytes)))
        (short_header bytes pos 7 n post high at')
      ∙ kept bytes step pos (info_at (drop pos bytes)) item post
          record { major = 7; argument = n; header_end = pos + 1 } small
          (inr (inl (n, inl (high, same)))) at not_undefined refl refl
    where
      at' : drop pos bytes ≡ (224 + n) ∷ post
      at' = at ∙ ap (λ i. i ++ post) same

      info : info_at (drop pos bytes) ≡ n
      info = ap info_at at' ∙ omega arith

      not_undefined : (ltb (info_at (drop pos bytes)) 20 || info_at (drop pos bytes) == 24) ≡ false
      not_undefined = ground (arith, info)

  float-Copies :
      (pos : ℕ) (item post : List ℕ)
      → IsFloat item
      → drop pos bytes ≡ item ++ post
      → copies_at pos ≡ some (pos + length item, item)
  float-Copies pos item post (k, raw, low, high, sized, same) at =
      ap (copy_item bytes step pos (info_at (drop pos bytes)))
        (long_header_raw bytes pos 7 k raw post high sized at'')
      ∙ kept bytes step pos (info_at (drop pos bytes)) item post
          record { major = 7; argument = big_endian 0 raw; header_end = pos + (1 + length raw) }
          small (inr (inr (k, raw, low, high, sized, same))) at not_undefined refl refl
    where
      at' : drop pos bytes ≡ (248 + k) ∷ (raw ++ post)
      at' = at ∙ ap (λ i. i ++ post) same

      at'' : drop pos bytes ≡ (7 * 32 + (24 + k)) ∷ (raw ++ post)
      at'' = at' ∙ ap (λ b. b ∷ (raw ++ post)) (omega arith)

      info : info_at (drop pos bytes) ≡ 24 + k
      info = ap info_at at' ∙ omega arith

      not_undefined : (ltb (info_at (drop pos bytes)) 20 || info_at (drop pos bytes) == 24) ≡ false
      not_undefined = ground (arith, info)

  pub IsFlat-Copies : Copies IsFlat IsFlatCopy bytes copies_at
  IsFlat-Copies pos item post (inl plain) at =
      (item, inr (inl plain, refl), plain-Copies pos item post plain at)
  IsFlat-Copies pos item post (inr (inr float)) at =
      (item, inr (inr (inr float), refl), float-Copies pos item post float at)
  IsFlat-Copies pos item post (inr (inl (n, inr simple))) at =
      (0xf7 ∷ [], inl ((n, inr simple), refl), unassigned-Copies pos item post (n, inr simple) at)
  IsFlat-Copies pos item post (inr (inl (n, inl (low, same)))) at = elim (Bool-cases (leb 20 n)) [
    | inl assigned ↦ (
      item,
      inr (inr (inl (n, leb→le 20 n assigned, low, same)), refl),
      assigned-Copies pos item post (n, leb→le 20 n assigned, low, same) at,
    )
    | inr unassigned ↦ (
      0xf7 ∷ [],
      inl ((n, inl (not_leb→lt 20 n unassigned, same)), refl),
      unassigned-Copies pos item post (n, inl (not_leb→lt 20 n unassigned, same)) at,
    )
  ]
