-- ===== src/Cbor/Raw.antt =====
-- What `raw_map_value` (cbor.rs) finds in a canonical map.
use software_authenticator.Base.{
  bind-some, ◌⊎◌, ℕ, zero, suc, ◌+◌, ◌-◌, ◌≤◌, ◌≡◌, refl, ap, sym, ◌∙◌, subst, inl, inr, arith,
  Bool, true, false, Option, none, some, List, [], ◌∷◌, ◌++◌, ◌==◌, ◌&&◌, length, length-append,
  drop, take-length-append, concat, append_assoc, append-nil, u64_max,
}
use software_authenticator.Cbor.Header.{max_nesting, Header, header, item_end}
use software_authenticator.Cbor.Canonical.{slice}
use software_authenticator.Cbor.Grammar.{IsHead, IsFlat, IsRising, entries, IsItem}
use software_authenticator.Cbor.Heads.{short_header, long_header_raw, head-Reads}
use software_authenticator.Cbor.Accepts.{Finds, after_item}
use software_authenticator.Cbor.Request.{is_key, keep_first, raw_entries, raw_map_value}
use software_authenticator.Cbor.WellFormed.{item_end-IsItem}

-- The value of the first entry whose key is this unsigned integer, if there is one.
abbrev pub Looks : ℕ → List (List ℕ × List ℕ) → Option (List ℕ) → Type 0
Looks key [] r = r ≡ none
Looks key (entry ∷ more) r =
    (IsHead 0 key entry.0 × (r ≡ some entry.1)) ⊎ ((IsHead 0 key entry.0 → ⊥) × Looks key more r)

-- The test for the key sees a key that is this integer, and no other.
key-Reads :
    (bytes : List ℕ) (pos key : ℕ) (item post : List ℕ)
    → drop pos bytes ≡ item ++ post
    → is_key (header bytes pos) key (pos + length item) ≡ false
    → IsHead 0 key item
    → ⊥
key-Reads bytes pos key item post at other is_head = clash (
    ap (λ h. is_key h key (pos + length item))
      (head-Reads bytes pos 0 key item post (omega arith) is_head at).3)
  where
    same : (key == key && pos + length item == pos + length item) ≡ true
    same = ground arith

    clash :
        is_key (header bytes pos) key (pos + length item)
          ≡ (key == key && pos + length item == pos + length item)
        → ⊥
    clash e = ground (arith, other, same, e)

no_major :
    (bytes : List ℕ) (pos key end : ℕ) (h : Header)
    → header bytes pos ≡ some h
    → 1 ≤ h.major
    → is_key (header bytes pos) key end ≡ true
    → ⊥
no_major bytes pos key end h read high found = clash (ap (λ o. is_key o key end) (sym read) ∙ found)
  where
    clash : (h.major == 0 && h.argument == key && h.header_end == end) ≡ true → ⊥
    clash e = ground arith

key-IsHead :
    (bytes : List ℕ) (pos key levels : ℕ) (item post : List ℕ)
    → drop pos bytes ≡ item ++ post
    → IsItem levels item
    → is_key (header bytes pos) key (pos + length item) ≡ true
    → IsHead 0 key item
key-IsHead bytes pos key levels item post at is_item found = by_kind levels is_item
  where
    flat : IsFlat item → IsHead 0 key item
    flat (inl (inl (major, n, low, is_head))) = same (
        ap (λ o. is_key o key (pos + length item))
          (sym ((head-Reads bytes pos major n item post (omega arith) is_head at).3))
        ∙ found)
      where
        same :
            (major == 0 && n == key && pos + length item == pos + length item) ≡ true
            → IsHead 0 key item
        same e =
            let to_zero : major ≡ 0 = ground arith in
            let to_key : n ≡ key = ground arith in
            subst (λ m. IsHead m key item) to_zero (subst (λ k. IsHead major k item) to_key is_head)
    flat (inl (inr (major, head, s, low, high, is_head, same))) = absurd (
        no_major bytes pos key (pos + length item) _
          ((head-Reads bytes pos major (length s) head (s ++ post) (omega arith) is_head
            (at ∙ ap (λ i. i ++ post) same ∙ append_assoc head s post)).3)
          (omega arith) found)
    flat (inr (inl (n, inl (low, same)))) = absurd (
        no_major bytes pos key (pos + length item) _
          (short_header bytes pos 7 n post low (at ∙ ap (λ i. i ++ post) same)) (omega arith) found)
    flat (inr (inl (n, inr (low, high, same)))) = absurd (
        no_major bytes pos key (pos + length item) _
          (long_header_raw bytes pos 7 0 (n ∷ []) post (omega arith) (omega arith)
            (at ∙ ap (λ i. i ++ post) same))
          (omega arith) found)
    flat (inr (inr (k, raw, low, high, sized, same))) = absurd (
        no_major bytes pos key (pos + length item) _
          (long_header_raw bytes pos 7 k raw post high sized
            (at ∙ ap (λ i. i ++ post) same ∙ ap (λ b. b ∷ (raw ++ post)) (omega arith)))
          (omega arith) found)

    by_kind : (levels : ℕ) → IsItem levels item → IsHead 0 key item
    by_kind zero is_flat = flat is_flat
    by_kind (suc levels) (inl is_flat) = flat is_flat
    by_kind (suc levels) (inr (inl (head, items, is_head, all, same))) = absurd (
        no_major bytes pos key (pos + length item) _
          ((head-Reads bytes pos 4 (length items) head (concat items ++ post) (omega arith) is_head
            (at ∙ ap (λ i. i ++ post) same ∙ append_assoc head (concat items) post)).3)
          (omega arith) found)
    by_kind (suc levels) (inr (inr (head, pairs, is_head, rising, same))) = absurd (
        no_major bytes pos key (pos + length item) _
          ((head-Reads bytes pos 5 (length pairs) head (entries pairs ++ post) (omega arith) is_head
            (at ∙ ap (λ i. i ++ post) same ∙ append_assoc head (entries pairs) post)).3)
          (omega arith) found)

-- What is found from here on, with what was found before.
abbrev LooksOn : ℕ → Option (List ℕ) → List (List ℕ × List ℕ) → Option (List ℕ) → Type 0
LooksOn key none pairs r = Looks key pairs r
LooksOn key (some v) pairs r = r ≡ some v

looks_on :
    (key : ℕ) (found : Option (List ℕ)) (k v : List ℕ) (more : List (List ℕ × List ℕ)) (here : Bool)
    (r : Option (List ℕ))
    → (here ≡ true → IsHead 0 key k)
    → (here ≡ false → IsHead 0 key k → ⊥)
    → LooksOn key (keep_first found here v) more r
    → LooksOn key found ((k, v) ∷ more) r
looks_on key none k v more true r is_here not_here looks = inl (is_here refl, looks)
looks_on key none k v more false r is_here not_here looks = inr (not_here refl, looks)
looks_on key (some w) k v more true r is_here not_here looks = looks
looks_on key (some w) k v more false r is_here not_here looks = looks

raw_entry :
    (bytes : List ℕ) (key count pos key_end value_end : ℕ) (found : Option (List ℕ))
    → item_end bytes max_nesting pos ≡ some key_end
    → item_end bytes max_nesting key_end ≡ some value_end
    → raw_entries bytes key (suc count) pos found
      ≡ raw_entries bytes key count value_end
          (keep_first found (is_key (header bytes pos) key key_end) (slice bytes key_end value_end))
raw_entry bytes key count pos key_end value_end found key_at value_at =
    bind-some (item_end bytes max_nesting pos) key_end _ key_at
    ∙ bind-some (item_end bytes max_nesting key_end) value_end _ value_at

raw_entries-LooksOn :
    (bytes : List ℕ) (key levels : ℕ)
    → length bytes ≤ u64_max
    → suc levels ≡ max_nesting
    → (pairs : List (List ℕ × List ℕ)) (previous found : Option (List ℕ)) (pos : ℕ) (post : List ℕ)
    → IsRising (IsItem levels) previous pairs
    → drop pos bytes ≡ entries pairs ++ post
    → (r : Option (List ℕ)) × LooksOn key found pairs r
      × (raw_entries bytes key (length pairs) pos found ≡ some (pos + length (entries pairs), r))
raw_entries-LooksOn bytes key levels small deep [] previous none pos post rising at =
    (none, refl, ap (λ n. some (n, none)) (omega arith))
raw_entries-LooksOn bytes key levels small deep [] previous (some v) pos post rising at =
    (some v, refl, ap (λ n. some (n, some v)) (omega arith))
raw_entries-LooksOn bytes key levels small deep ((k, v) ∷ more) previous found pos post
      ((k_in, v_in, after), rising) at =
    let here = is_key (header bytes pos) key (pos + length k) in
    let (r, looks, rest) =
      raw_entries-LooksOn bytes key levels small deep more (some k) (keep_first found here v)
        (pos + length k + length v) post rising
        (after_item bytes (pos + length k) v (entries more ++ post) at_v) in
    (
      r,
      looks_on key found k v more here r
          (key-IsHead bytes pos key levels k (v ++ (entries more ++ post)) at' k_in)
          (key-Reads bytes pos key k (v ++ (entries more ++ post)) at') looks,
      raw_entry bytes key (length more) pos (pos + length k) (pos + length k + length v) found
            (ends pos k (v ++ (entries more ++ post)) k_in at')
            (ends (pos + length k) v (entries more ++ post) v_in at_v)
          ∙ ap
              (λ w.
                raw_entries bytes key (length more) (pos + length k + length v)
                  (keep_first found here w))
              cut
          ∙ rest
          ∙ ap (λ n. some (n, r))
              (omega (arith, length-append k (v ++ entries more), length-append v (entries more))),
    )
  where
    at' : drop pos bytes ≡ k ++ (v ++ (entries more ++ post))
    at' =
        at
        ∙ append_assoc k (v ++ entries more) post
        ∙ ap (λ r. k ++ r) (append_assoc v (entries more) post)

    at_v : drop (pos + length k) bytes ≡ v ++ (entries more ++ post)
    at_v = after_item bytes pos k (v ++ (entries more ++ post)) at'

    ends : Finds (IsItem levels) bytes (item_end bytes max_nesting)
    ends =
        subst (λ n. Finds (IsItem levels) bytes (item_end bytes n)) deep
          (item_end-IsItem bytes levels small)

    cut : slice bytes (pos + length k) (pos + length k + length v) ≡ v
    cut = rw (at_v) (
        take-length-append (pos + length k + length v - (pos + length k)) v (entries more ++ post)
          (omega arith))

-- For every canonical map of at most 16 levels and less than 2 ^ 64 bytes, and every unsigned integer:
-- `raw_map_value` does not fail, and it returns the bytes of the value of the first entry with that key,
-- exactly as they stand in the map, or nothing if no entry has it.
pub raw_map_value-Looks :
    (head : List ℕ) (pairs : List (List ℕ × List ℕ)) (key : ℕ)
    → IsHead 5 (length pairs) head
    → IsRising (IsItem 15) none pairs
    → length (head ++ entries pairs) ≤ u64_max
    → (r : Option (List ℕ)) × Looks key pairs r
      × (raw_map_value (head ++ entries pairs) key ≡ some r)
unfolding raw_map_value
raw_map_value-Looks head pairs key is_head rising small =
    let bytes = head ++ entries pairs in
    let at : drop 0 bytes ≡ head ++ (entries pairs ++ []) =
      ap (λ r. head ++ r) (sym (append-nil (entries pairs))) in
    let (r, looks, walked) =
      raw_entries-LooksOn bytes key 15 small refl pairs none none (0 + length head) [] rising
        (after_item bytes 0 head (entries pairs ++ []) at) in
    let whole : (0 + length head + length (entries pairs) == length bytes) ≡ true =
      ground (arith, length-append head (entries pairs)) in
    (
      r,
      looks,
      rw
          (
            (head-Reads bytes 0 5 (length pairs) head (entries pairs ++ []) (omega arith) is_head
                at).3,
            walked,
            whole,
          )
          refl,
    )
