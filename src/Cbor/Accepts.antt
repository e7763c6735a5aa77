-- ===== src/Cbor/Accepts.antt =====
-- `canonical_item_end` (cbor.rs) accepts every canonical item where it stands, and finds its end.
use software_authenticator.Base.{
  ℕ, zero, suc, ◌+◌, ◌-◌, ◌*◌, ◌/◌, ◌%◌, ◌^◌, ◌≤◌, ◌≡◌, refl, ap, ◌∙◌, inl, inr, arith, true, false,
  Option, none, some, List, [], ◌∷◌, ◌++◌, ◌==◌, leb, ◌&&◌, length, length-append, length-drop,
  drop, drop-drop, drop-length-append, take-length-append, All, concat, append_assoc, u64_max,
}
use software_authenticator.Cbor.Header.{get, times}
use software_authenticator.Cbor.Canonical.{
  slice, entries_end, is_shortest, canonical_of, canonical_at, canonical_item_end,
}
use software_authenticator.Cbor.Keys.{is_after_iff}
use software_authenticator.Cbor.Grammar.{
  IsNumber, IsString, IsSimple, IsFloat, IsFlat, IsArray, IsRising, entries, IsMap, IsItem,
}
use software_authenticator.Cbor.Heads.{short_header, long_header_at, Reads, head-Reads}

-- The step ends an item of this kind wherever one stands.
abbrev pub Finds : (List ℕ → Type 0) → List ℕ → (ℕ → Option ℕ) → Type 0
Finds P bytes step =
    (pos : ℕ) (item post : List ℕ)
    → P item
    → drop pos bytes ≡ item ++ post
    → step pos ≡ some (pos + length item)

pub after_item :
    (bytes : List ℕ) (pos : ℕ) (item post : List ℕ)
    → drop pos bytes ≡ item ++ post
    → drop (pos + length item) bytes ≡ post
after_item bytes pos item post at =
    drop-drop pos (length item) bytes
    ∙ ap (drop (length item)) at
    ∙ drop-length-append (length item) item post refl

pub times-Finds :
    (P : List ℕ → Type 0) (bytes : List ℕ) (step : ℕ → Option ℕ)
    → Finds P bytes step
    → (items : List (List ℕ)) (pos : ℕ) (post : List ℕ) → All P items
    → drop pos bytes ≡ concat items ++ post
    → times (length items) step pos ≡ some (pos + length (concat items))
times-Finds P bytes step finds [] pos post all at = ap some (omega arith)
times-Finds P bytes step finds (item ∷ more) pos post (here, all) at =
    rw (finds pos item (concat more ++ post) here at') (
      times-Finds P bytes step finds more (pos + length item) post all
        (after_item bytes pos item (concat more ++ post) at')
      ∙ ap some (omega (arith, length-append item (concat more))))
  where
    at' : drop pos bytes ≡ item ++ (concat more ++ post)
    at' = at ∙ append_assoc item (concat more) post

entries_end-Finds :
    (P : List ℕ → Type 0) (bytes : List ℕ) (step : ℕ → Option ℕ)
    → Finds P bytes step
    → (pairs : List (List ℕ × List ℕ)) (previous : Option (List ℕ)) (pos : ℕ) (post : List ℕ)
    → IsRising P previous pairs
    → drop pos bytes ≡ entries pairs ++ post
    → entries_end bytes step (length pairs) previous pos ≡ some (pos + length (entries pairs))
entries_end-Finds P bytes step finds [] previous pos post rising at = ap some (omega arith)
entries_end-Finds P bytes step finds ((key, v) ∷ more) previous pos post
      ((key_in, v_in, rises), rising) at =
    rw
      (
        finds pos key (v ++ (entries more ++ post)) key_in at',
        cut,
        (is_after_iff previous key).1 rises,
        finds (pos + length key) v (entries more ++ post) v_in at_v,
        cut,
      )
      (entries_end-Finds P bytes step finds more (some key) (pos + length key + length v) post
          rising (after_item bytes (pos + length key) v (entries more ++ post) at_v)
        ∙ ap some
            (omega (arith, length-append key (v ++ entries more), length-append v (entries more))))
  where
    at' : drop pos bytes ≡ key ++ (v ++ (entries more ++ post))
    at' =
        at
        ∙ append_assoc key (v ++ entries more) post
        ∙ ap (λ r. key ++ r) (append_assoc v (entries more) post)

    at_v : drop (pos + length key) bytes ≡ v ++ (entries more ++ post)
    at_v = after_item bytes pos key (v ++ (entries more ++ post)) at'

    cut : slice bytes pos (pos + length key) ≡ key
    cut = rw (at') (
        take-length-append (pos + length key - pos) key (v ++ (entries more ++ post)) (omega arith))

-- Behind a canonical header of an item that is no simple value, the rest of the walk goes on.
canonical_at-Reads :
    (bytes : List ℕ) (children : Option (ℕ → Option ℕ)) (pos major n size : ℕ)
    → major ≤ 5
    → Reads bytes pos major n size
    → canonical_at bytes children pos (get bytes pos)
      ≡ canonical_of bytes children record { major = major; argument = n; header_end = pos + size }
canonical_at-Reads bytes children pos major n size flat (initial, at, major', read, shortest) =
    rw (at, not_float, read, shortest)
  where
    not_float : (initial / 32 == 7 && leb 25 (initial % 32) && leb (initial % 32) 27) ≡ false
    not_float = ground (arith, major')

IsNumber-Finds :
    (bytes : List ℕ) (children : Option (ℕ → Option ℕ))
    → Finds IsNumber bytes (λ pos. canonical_at bytes children pos (get bytes pos))
IsNumber-Finds bytes children pos item post (major, n, flat, head) at =
    canonical_at-Reads bytes children pos major n (length item) (omega arith)
      (head-Reads bytes pos major n item post (omega arith) head at)
    ∙ (ground arith)

IsString-Finds :
    (bytes : List ℕ) (children : Option (ℕ → Option ℕ))
    → length bytes ≤ u64_max
    → Finds IsString bytes (λ pos. canonical_at bytes children pos (get bytes pos))
IsString-Finds bytes children small pos item post (major, head, s, low, high, is_head, same) at =
    canonical_at-Reads bytes children pos major (length s) (length head) (omega arith)
      (head-Reads bytes pos major (length s) head (s ++ post) (omega arith) is_head at')
    ∙ (ground (arith, fits, ap length same, length-append head s))
  where
    at' : drop pos bytes ≡ head ++ (s ++ post)
    at' = at ∙ ap (λ i. i ++ post) same ∙ append_assoc head s post

    fits : length s + (length head + length post) ≤ length bytes - pos
    fits = omega (
      arith,
      ap length at',
      length-append head (s ++ post),
      length-append s post,
      length-drop pos bytes,
    )

IsSimple-Finds :
    (bytes : List ℕ) (children : Option (ℕ → Option ℕ))
    → Finds IsSimple bytes (λ pos. canonical_at bytes children pos (get bytes pos))
IsSimple-Finds bytes children pos item post (n, inl (small, same)) at =
    rw (same, at', not_float, info, short_header bytes pos 7 n post small at', shortest)
  where
    at' : drop pos bytes ≡ (224 + n) ∷ post
    at' = at ∙ ap (λ i. i ++ post) same

    info : (224 + n) % 32 ≡ n
    info = omega arith

    not_float : ((224 + n) / 32 == 7 && leb 25 ((224 + n) % 32) && leb ((224 + n) % 32) 27) ≡ false
    not_float = ground (arith, info)

    shortest : is_shortest n record { major = 7; argument = n; header_end = pos + 1 } ≡ true
    shortest = ground arith
IsSimple-Finds bytes children pos item post (n, inr (low, high, same)) at = rw (
  same,
  at',
  long_header_at bytes pos 7 0 (n ∷ []) post (omega arith) (omega arith) (high, tt) at',
  shortest,
)
  where
    at' : drop pos bytes ≡ 248 ∷ n ∷ post
    at' = at ∙ ap (λ i. i ++ post) same

    shortest : leb 32 (n * 256 ^ 0 + 0) ≡ true
    shortest = ground arith

IsFloat-Finds :
    (bytes : List ℕ) (children : Option (ℕ → Option ℕ))
    → Finds IsFloat bytes (λ pos. canonical_at bytes children pos (get bytes pos))
IsFloat-Finds bytes children pos item post (k, raw, low, high, sized, same) at =
    rw (same, at', is_float, width, fits) (ap some (omega (arith, sized)))
  where
    at' : drop pos bytes ≡ (248 + k) ∷ (raw ++ post)
    at' = at ∙ ap (λ i. i ++ post) same

    is_float : ((248 + k) / 32 == 7 && leb 25 ((248 + k) % 32) && leb ((248 + k) % 32) 27) ≡ true
    is_float = ground arith

    width : (248 + k) % 32 - 24 ≡ k
    width = omega arith

    fits : leb (pos + 1 + 2 ^ k) (length bytes) ≡ true
    fits = ground (arith, sized, ap length at', length-append raw post, length-drop pos bytes)

IsFlat-Finds :
    (bytes : List ℕ) (children : Option (ℕ → Option ℕ))
    → length bytes ≤ u64_max
    → Finds IsFlat bytes (λ pos. canonical_at bytes children pos (get bytes pos))
IsFlat-Finds bytes children small pos item post (inl (inl number)) at =
    IsNumber-Finds bytes children pos item post number at
IsFlat-Finds bytes children small pos item post (inl (inr string)) at =
    IsString-Finds bytes children small pos item post string at
IsFlat-Finds bytes children small pos item post (inr (inl simple)) at =
    IsSimple-Finds bytes children pos item post simple at
IsFlat-Finds bytes children small pos item post (inr (inr float)) at =
    IsFloat-Finds bytes children pos item post float at

IsArray-Finds :
    (P : List ℕ → Type 0) (bytes : List ℕ) (step : ℕ → Option ℕ)
    → Finds P bytes step
    → Finds (IsArray P) bytes (λ pos. canonical_at bytes (some step) pos (get bytes pos))
IsArray-Finds P bytes step finds pos item post (head, items, is_head, all, same) at =
    canonical_at-Reads bytes (some step) pos 4 (length items) (length head) (omega arith)
      (head-Reads bytes pos 4 (length items) head (concat items ++ post) (omega arith) is_head at')
    ∙ times-Finds P bytes step finds items (pos + length head) post all
        (after_item bytes pos head (concat items ++ post) at')
    ∙ ap some (omega (arith, ap length same, length-append head (concat items)))
  where
    at' : drop pos bytes ≡ head ++ (concat items ++ post)
    at' = at ∙ ap (λ i. i ++ post) same ∙ append_assoc head (concat items) post

IsMap-Finds :
    (P : List ℕ → Type 0) (bytes : List ℕ) (step : ℕ → Option ℕ)
    → Finds P bytes step
    → Finds (IsMap P) bytes (λ pos. canonical_at bytes (some step) pos (get bytes pos))
IsMap-Finds P bytes step finds pos item post (head, pairs, is_head, rising, same) at =
    canonical_at-Reads bytes (some step) pos 5 (length pairs) (length head) (omega arith)
      (head-Reads bytes pos 5 (length pairs) head (entries pairs ++ post) (omega arith) is_head at')
    ∙ entries_end-Finds P bytes step finds pairs none (pos + length head) post rising
        (after_item bytes pos head (entries pairs ++ post) at')
    ∙ ap some (omega (arith, ap length same, length-append head (entries pairs)))
  where
    at' : drop pos bytes ≡ head ++ (entries pairs ++ post)
    at' = at ∙ ap (λ i. i ++ post) same ∙ append_assoc head (entries pairs) post

-- Where a canonical item stands, in a payload of less than 2 ^ 64 bytes, the walk accepts it and ends
-- right behind it.
pub canonical_item_end-IsItem :
    (bytes : List ℕ) (levels pos : ℕ) (item post : List ℕ)
    → length bytes ≤ u64_max
    → IsItem levels item
    → drop pos bytes ≡ item ++ post
    → canonical_item_end bytes levels pos ≡ some (pos + length item)
unfolding canonical_item_end
canonical_item_end-IsItem bytes zero pos item post small flat at =
    IsFlat-Finds bytes none small pos item post flat at
canonical_item_end-IsItem bytes (suc levels) pos item post small (inl flat) at =
    IsFlat-Finds bytes (some (canonical_item_end bytes levels)) small pos item post flat at
canonical_item_end-IsItem bytes (suc levels) pos item post small (inr (inl is_array)) at =
    IsArray-Finds (IsItem levels) bytes (canonical_item_end bytes levels)
      (λ pos item post is_item at.
        canonical_item_end-IsItem bytes levels pos item post small is_item at)
      pos item post is_array at
canonical_item_end-IsItem bytes (suc levels) pos item post small (inr (inr is_map)) at =
    IsMap-Finds (IsItem levels) bytes (canonical_item_end bytes levels)
      (λ pos item post is_item at.
        canonical_item_end-IsItem bytes levels pos item post small is_item at)
      pos item post is_map at
