-- ===== src/Cbor/Found.antt =====
-- What stands where `header` (cbor.rs) reads a header.
use software_authenticator.Base.{
  if-elim, WhenSome, ℕ, ◌+◌, ◌-◌, ◌/◌, ◌%◌, ◌^◌, ◌≤◌, ◌<◌, ◌≡◌, ◌⊎◌, refl, ap, sym, ◌∙◌, subst, inl,
  inr, arith, Option, none, some, List, [], ◌∷◌, ◌++◌, ltb, leb, length, length-drop, length-take,
  take, drop, drop-drop, take-append-drop, leb→le, All, All-take, All-drop,
}
use software_authenticator.Cbor.Header.{
  first, get, get_range, Header, long_header, header_of, header,
}
use software_authenticator.Cbor.Grammar.{IsByte, value}
use software_authenticator.Cbor.Numbers.{big_endian-value}

-- From the first position to the second stands something of this kind.
abbrev pub Found : (List ℕ → Type 0) → List ℕ → ℕ → ℕ → Type 0
Found P bytes pos end =
    (item : List ℕ) × P item × (drop pos bytes ≡ item ++ drop end bytes) × (end ≡ pos + length item)

-- The initial byte and what follows it.
abbrev pub Stands : List ℕ → ℕ → ℕ → Header → Type 0
Stands bytes pos initial h =
    (h.major ≡ initial / 32)
    × (((initial % 32 < 24) × (h.argument ≡ initial % 32) × (h.header_end ≡ pos + 1))
        ⊎ ((k : ℕ) × (raw : List ℕ) × (k ≤ 3)
            × (initial % 32 ≡ 24 + k)
            × (length raw ≡ 2 ^ k)
            × All IsByte raw
            × (drop (pos + 1) bytes ≡ raw ++ drop h.header_end bytes)
            × (h.argument ≡ value raw)
            × (h.header_end ≡ pos + 1 + 2 ^ k)))

pub get-drop :
    (bytes : List ℕ) (pos initial : ℕ)
    → get bytes pos ≡ some initial
    → drop pos bytes ≡ initial ∷ drop (pos + 1) bytes
get-drop bytes pos initial e = from (drop pos bytes) e refl
  where
    from :
        (xs : List ℕ)
        → first xs ≡ some initial
        → drop pos bytes ≡ xs
        → xs ≡ initial ∷ drop (pos + 1) bytes
    from [] e same = absurd (ground arith)
    from (x ∷ xs) e same =
        ap (λ y. y ∷ xs) (ground (arith, e))
        ∙ ap (◌∷◌ initial) (sym (drop-drop pos 1 bytes ∙ ap (drop 1) same))

-- A range that is there is what stands there.
get_range-Found :
    (bytes : List ℕ) (from size : ℕ)
    → WhenSome
        (λ raw.
          (length raw ≡ size)
          × (drop from bytes ≡ raw ++ drop (from + size) bytes)
          × (All IsByte bytes → All IsByte raw))
        (get_range bytes from size)
get_range-Found bytes from size =
    if-elim (WhenSome _) (leb (from + size) (length bytes)) _ _
      (λ fits. (
        omega (
          arith,
          length-take size (drop from bytes),
          length-drop from bytes,
          leb→le (from + size) (length bytes) fits,
        ),
        sym (take-append-drop size (drop from bytes))
            ∙ ap (λ r. take size (drop from bytes) ++ r) (sym (drop-drop from size bytes)),
        λ all. All-take IsByte size (drop from bytes) (All-drop IsByte from bytes all),
      ))
      (λ long. tt)

long_header-Stands :
    (bytes : List ℕ) (pos initial k : ℕ) (o : Option (List ℕ))
    → All IsByte bytes
    → k ≤ 3
    → initial % 32 ≡ 24 + k
    → WhenSome
        (λ raw.
          (length raw ≡ 2 ^ k)
          × (drop (pos + 1) bytes ≡ raw ++ drop (pos + 1 + 2 ^ k) bytes)
          × (All IsByte bytes → All IsByte raw))
        o
    → WhenSome (Stands bytes pos initial) (long_header initial pos (2 ^ k) o)
long_header-Stands bytes pos initial k none all small info ranged = tt
long_header-Stands bytes pos initial k (some raw) all small info (sized, at, bytes_in) = (
  refl,
  inr (
    k,
    raw,
    small,
    info,
    sized,
    bytes_in all,
    at,
    big_endian-value k raw small sized (bytes_in all),
    refl,
  ),
)

header_of-Stands :
    (bytes : List ℕ) (pos initial : ℕ)
    → All IsByte bytes
    → WhenSome (Stands bytes pos initial) (header_of bytes pos (some initial))
header_of-Stands bytes pos initial all =
    if-elim (WhenSome (Stands bytes pos initial)) (ltb (initial % 32) 24) _ _
      (λ short. (refl, inl (ground arith, refl, refl)))
      (λ other.
        if-elim (WhenSome (Stands bytes pos initial)) (leb (initial % 32) 27) _ _
          (λ long.
            long_header-Stands bytes pos initial (initial % 32 - 24) _ all (ground arith)
              (ground arith) (get_range-Found bytes (pos + 1) (2 ^ (initial % 32 - 24))))
          (λ reserved. tt))

-- What a header says stands behind the initial byte.
pub header-Stands :
    (bytes : List ℕ) (pos initial : ℕ)
    → All IsByte bytes
    → get bytes pos ≡ some initial
    → WhenSome (Stands bytes pos initial) (header bytes pos)
unfolding header
header-Stands bytes pos initial all at =
    subst (λ o. WhenSome (Stands bytes pos initial) (header_of bytes pos o)) (sym at)
      (header_of-Stands bytes pos initial all)

pub get-IsByte :
    (bytes : List ℕ) (pos initial : ℕ)
    → All IsByte bytes
    → get bytes pos ≡ some initial
    → initial < 256
get-IsByte bytes pos initial all at =
    (subst (All IsByte) (get-drop bytes pos initial at) (All-drop IsByte pos bytes all)).0
