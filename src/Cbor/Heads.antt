-- ===== src/Cbor/Heads.antt =====
-- What `header` and the check for the shortest form (cbor.rs) read where a canonical header stands.
use software_authenticator.Base.{
  ℕ, zero, suc, ◌+◌, ◌-◌, ◌*◌, ◌/◌, ◌%◌, ◌^◌, ◌≤◌, ◌<◌, ◌≡◌, ap, sym, ◌∙◌, subst, inl, inr, arith,
  true, false, some, List, ◌∷◌, ◌++◌, ◌==◌, ltb, leb, length, length-append, length-drop, drop,
  drop-drop, take-length-append, All,
}
use software_authenticator.Cbor.Header.{get, get_range, first, big_endian, header}
use software_authenticator.Cbor.Canonical.{is_shortest}
use software_authenticator.Cbor.Grammar.{IsByte, value, least, IsHead}
use software_authenticator.Cbor.Numbers.{big_endian-value}

-- At this position stands the shortest header with this major type and argument, in so many bytes.
abbrev pub Reads : List ℕ → ℕ → ℕ → ℕ → ℕ → Type 0
Reads bytes pos major n size =
    (initial : ℕ) × (get bytes pos ≡ some initial)
    × (initial / 32 ≡ major)
    × (header bytes pos ≡ some record { major = major; argument = n; header_end = pos + size })
    × (is_shortest (initial % 32) record { major = major; argument = n; header_end = pos + size }
        ≡ true)

pub short_header :
    (bytes : List ℕ) (pos major n : ℕ) (post : List ℕ)
    → n < 24
    → drop pos bytes ≡ (major * 32 + n) ∷ post
    → header bytes pos ≡ some record { major = major; argument = n; header_end = pos + 1 }
unfolding header
short_header bytes pos major n post small at = rw (at, info, small', major')
  where
    info : (major * 32 + n) % 32 ≡ n
    info = omega arith

    major' : (major * 32 + n) / 32 ≡ major
    major' = omega arith

    small' : ltb n 24 ≡ true
    small' = ground arith

short-Reads :
    (bytes : List ℕ) (pos major n : ℕ) (post : List ℕ)
    → n < 24
    → drop pos bytes ≡ (major * 32 + n) ∷ post
    → Reads bytes pos major n 1
short-Reads bytes pos major n post small at = (
  major * 32 + n,
  ap first at,
  omega arith,
  short_header bytes pos major n post small at,
  shortest,
)
  where
    info : (major * 32 + n) % 32 ≡ n
    info = omega arith

    not_long : (m : ℕ) → 24 ≤ m → (n == m) ≡ false
    not_long m large = ground arith

    shortest :
        is_shortest
          ((major * 32 + n) % 32)
          record { major = major; argument = n; header_end = pos + 1 }
        ≡ true
    shortest = rw (
      info,
      not_long 24 (omega arith),
      not_long 25 (omega arith),
      not_long 26 (omega arith),
      not_long 27 (omega arith),
    )

pub long_range :
    (bytes : List ℕ) (pos initial size : ℕ) (raw post : List ℕ)
    → drop pos bytes ≡ initial ∷ (raw ++ post)
    → length raw ≡ size
    → get_range bytes (pos + 1) size ≡ some raw
long_range bytes pos initial size raw post at sized =
    rw (fits, rest) (ap some (take-length-append size raw post (sym sized)))
  where
    rest : drop (pos + 1) bytes ≡ raw ++ post
    rest = drop-drop pos 1 bytes ∙ ap (drop 1) at

    fits : leb (pos + 1 + size) (length bytes) ≡ true
    fits = ground (
      arith,
      sized,
      length-append raw post,
      length-drop (pos + 1) bytes,
      ap length rest,
      ap length at,
      length-drop pos bytes,
    )

shortest_long :
    (k major n end : ℕ)
    → k ≤ 3
    → major ≤ 5
    → least k ≤ n
    → is_shortest (24 + k) record { major = major; argument = n; header_end = end } ≡ true
shortest_long zero major n end small flat needed = ground arith
shortest_long (suc zero) major n end small flat needed = ground arith
shortest_long (suc (suc zero)) major n end small flat needed = ground arith
shortest_long (suc (suc (suc zero))) major n end small flat needed = ground arith
shortest_long (suc (suc (suc (suc k)))) major n end small flat needed = absurd (omega arith)

pub long_header_raw :
    (bytes : List ℕ) (pos major k : ℕ) (raw post : List ℕ)
    → k ≤ 3
    → length raw ≡ 2 ^ k
    → drop pos bytes ≡ (major * 32 + (24 + k)) ∷ (raw ++ post)
    → header bytes pos
      ≡ some
          record { major = major; argument = big_endian 0 raw; header_end = pos + (1 + length raw) }
unfolding header
long_header_raw bytes pos major k raw post small sized at = rw (
  at,
  info,
  not_short,
  is_long,
  width,
  long_range bytes pos _ (2 ^ k) raw post at sized,
  major',
  end,
)
  where
    info : (major * 32 + (24 + k)) % 32 ≡ 24 + k
    info = omega arith

    major' : (major * 32 + (24 + k)) / 32 ≡ major
    major' = omega arith

    not_short : ltb (24 + k) 24 ≡ false
    not_short = ground arith

    is_long : leb (24 + k) 27 ≡ true
    is_long = ground arith

    width : 24 + k - 24 ≡ k
    width = omega arith

    end : pos + 1 + 2 ^ k ≡ pos + (1 + length raw)
    end = omega (arith, sized)

pub long_header_at :
    (bytes : List ℕ) (pos major k : ℕ) (raw post : List ℕ)
    → k ≤ 3
    → length raw ≡ 2 ^ k
    → All IsByte raw
    → drop pos bytes ≡ (major * 32 + (24 + k)) ∷ (raw ++ post)
    → header bytes pos
      ≡ some record { major = major; argument = value raw; header_end = pos + (1 + length raw) }
long_header_at bytes pos major k raw post small sized bytes_in at =
    rw (sym (big_endian-value k raw small sized bytes_in))
      (long_header_raw bytes pos major k raw post small sized at)

long-Reads :
    (bytes : List ℕ) (pos major n k : ℕ) (raw post : List ℕ)
    → major ≤ 5
    → k ≤ 3
    → length raw ≡ 2 ^ k
    → All IsByte raw
    → value raw ≡ n
    → least k ≤ n
    → drop pos bytes ≡ (major * 32 + (24 + k)) ∷ (raw ++ post)
    → Reads bytes pos major n (1 + length raw)
long-Reads bytes pos major n k raw post flat small sized bytes_in valued needed at =
    (major * 32 + (24 + k), ap first at, major', read, shortest)
  where
    info : (major * 32 + (24 + k)) % 32 ≡ 24 + k
    info = omega arith

    major' : (major * 32 + (24 + k)) / 32 ≡ major
    major' = omega arith

    read :
        header bytes pos
        ≡ some record { major = major; argument = n; header_end = pos + (1 + length raw) }
    read = rw (sym valued) (long_header_at bytes pos major k raw post small sized bytes_in at)

    shortest :
        is_shortest
          ((major * 32 + (24 + k)) % 32)
          record { major = major; argument = n; header_end = pos + (1 + length raw) }
        ≡ true
    shortest = rw (info) (shortest_long k major n (pos + (1 + length raw)) small flat needed)

pub head-Reads :
    (bytes : List ℕ) (pos major n : ℕ) (head post : List ℕ)
    → major ≤ 5
    → IsHead major n head
    → drop pos bytes ≡ head ++ post
    → Reads bytes pos major n (length head)
head-Reads bytes pos major n head post flat (inl (small, same)) at =
    subst (λ h. Reads bytes pos major n (length h)) (sym same)
      (short-Reads bytes pos major n post small (at ∙ ap (λ h. h ++ post) same))
head-Reads bytes pos major n head post flat
      (inr (k, small, (raw, sized, bytes_in, valued, needed, same))) at =
    subst (λ h. Reads bytes pos major n (length h)) (sym same)
      (subst (Reads bytes pos major n) (omega arith) (
        long-Reads bytes pos major n k raw post flat small sized bytes_in valued needed
          (at ∙ ap (λ h. h ++ post) same)))
