-- ===== src/Cbor/Kinds.antt =====
-- Which kind of item stands where `canonical_item_end` (cbor.rs) reads a header.
use software_authenticator.Base.{
  if-elim, WhenSome, ℕ, zero, suc, ◌+◌, ◌-◌, ◌*◌, ◌/◌, ◌%◌, ◌^◌, ◌≤◌, ◌<◌, ◌≡◌, refl, ap, sym, ◌∙◌,
  inl, inr, arith, true, false, some, List, [], ◌∷◌, ◌++◌, ◌==◌, leb, ◌&&◌, length, length-drop,
  length-take, take, drop, drop-drop, take-append-drop, leb→le, All,
}
use software_authenticator.Cbor.Header.{get, Header}
use software_authenticator.Cbor.Canonical.{is_shortest, float_end}
use software_authenticator.Cbor.Grammar.{IsByte, value, least, IsHead, IsSimple, IsFloat}
use software_authenticator.Cbor.Found.{Found, Stands, get-drop}

-- From the first position to the second stands the shortest header of this type and argument.
abbrev pub HeadFound : List ℕ → ℕ → Header → Type 0
HeadFound bytes pos h = Found (IsHead h.major h.argument) bytes pos h.header_end

least_of_shortest :
    (k : ℕ) (h : Header)
    → k ≤ 3
    → h.major ≤ 5
    → is_shortest (24 + k) h ≡ true
    → least k ≤ h.argument
least_of_shortest zero h small flat shortest = ground arith
least_of_shortest (suc zero) h small flat shortest = ground arith
least_of_shortest (suc (suc zero)) h small flat shortest = ground arith
least_of_shortest (suc (suc (suc zero))) h small flat shortest = ground arith
least_of_shortest (suc (suc (suc (suc k)))) h small flat shortest = absurd (omega arith)

pub head-Found :
    (bytes : List ℕ) (pos initial : ℕ) (h : Header)
    → get bytes pos ≡ some initial
    → h.major ≤ 5
    → is_shortest (initial % 32) h ≡ true
    → Stands bytes pos initial h
    → HeadFound bytes pos h
head-Found bytes pos initial h at flat shortest (major', inl (small, argument', end')) = (
  (h.major * 32 + h.argument) ∷ [],
  inl (omega (arith, argument', small), refl),
  found,
  omega (arith, end'),
)
  where
    whole : initial ≡ h.major * 32 + h.argument
    whole = omega (arith, major', argument')

    found : drop pos bytes ≡ (h.major * 32 + h.argument) ∷ drop h.header_end bytes
    found =
        get-drop bytes pos initial at
        ∙ ap (λ i. i ∷ drop (pos + 1) bytes) whole
        ∙ ap (λ n. (h.major * 32 + h.argument) ∷ drop n bytes) (sym end')
head-Found bytes pos initial h at flat shortest
      (major', inr (k, raw, small, info, sized, bytes_in, behind, valued, end')) =
    (
      (h.major * 32 + (24 + k)) ∷ raw,
      inr (k, small, (raw, sized, bytes_in, sym valued, needed, refl)),
      found,
      omega (arith, end', sized),
    )
  where
    needed : least k ≤ h.argument
    needed = least_of_shortest k h small flat (ap (λ i. is_shortest i h) (sym info) ∙ shortest)

    whole : initial ≡ h.major * 32 + (24 + k)
    whole = omega (arith, major', info)

    found : drop pos bytes ≡ (h.major * 32 + (24 + k)) ∷ (raw ++ drop h.header_end bytes)
    found =
        get-drop bytes pos initial at
        ∙ ap (λ i. i ∷ drop (pos + 1) bytes) whole
        ∙ ap (λ r. (h.major * 32 + (24 + k)) ∷ r) behind

-- A header of major type 7 that is no float is a simple value.
pub IsSimple-Found :
    (bytes : List ℕ) (pos initial : ℕ) (h : Header)
    → get bytes pos ≡ some initial
    → h.major ≡ 7
    → (leb 25 (initial % 32) && leb (initial % 32) 27) ≡ false
    → is_shortest (initial % 32) h ≡ true
    → Stands bytes pos initial h
    → Found IsSimple bytes pos h.header_end
IsSimple-Found bytes pos initial h at seven no_float shortest
      (major', inl (small, argument', end')) =
    (
      (224 + h.argument) ∷ [],
      (h.argument, inl (omega (arith, argument', small), refl)),
      found,
      omega (arith, end'),
    )
  where
    whole : initial ≡ 224 + h.argument
    whole = omega (arith, major', argument', seven)

    found : drop pos bytes ≡ (224 + h.argument) ∷ drop h.header_end bytes
    found =
        get-drop bytes pos initial at
        ∙ ap (λ i. i ∷ drop (pos + 1) bytes) whole
        ∙ ap (λ n. (224 + h.argument) ∷ drop n bytes) (sym end')
IsSimple-Found bytes pos initial h at seven no_float shortest
      (major', inr (k, raw, small, info, sized, bytes_in, behind, valued, end')) =
    one raw (sized ∙ ap (λ n. 2 ^ n) k_zero) bytes_in behind valued
  where
    k_zero : k ≡ 0
    k_zero = ground arith

    whole : initial ≡ 248
    whole = omega (arith, major', seven, info, k_zero)

    info' : 24 ≡ initial % 32
    info' = omega (arith, info, k_zero)

    shortest' : is_shortest 24 h ≡ true
    shortest' = ap (λ i. is_shortest i h) info' ∙ shortest

    at_least : 32 ≤ h.argument
    at_least = ground arith

    end'' : h.header_end ≡ pos + 2
    end'' = end' ∙ ap (λ n. pos + 1 + 2 ^ n) k_zero ∙ (omega arith)

    one :
        (raw : List ℕ)
        → length raw ≡ 1
        → All IsByte raw
        → drop (pos + 1) bytes ≡ raw ++ drop h.header_end bytes
        → h.argument ≡ value raw
        → Found IsSimple bytes pos h.header_end
    one [] sized bytes_in behind valued = absurd (omega (arith, sized))
    one (n ∷ []) sized bytes_in behind valued = (
      248 ∷ n ∷ [],
      (n, inr (omega (arith, at_least, valued), bytes_in.0, refl)),
      get-drop bytes pos initial at
          ∙ ap (λ i. i ∷ drop (pos + 1) bytes) whole
          ∙ ap (λ r. 248 ∷ r) behind,
      end'',
    )
    one (n ∷ m ∷ raw) sized bytes_in behind valued = absurd (omega (arith, sized))

-- What `float_end` accepts is a float.
pub float_end-Found :
    (bytes : List ℕ) (pos initial : ℕ)
    → get bytes pos ≡ some initial
    → initial < 256
    → (initial / 32 == 7 && leb 25 (initial % 32) && leb (initial % 32) 27) ≡ true
    → WhenSome (Found IsFloat bytes pos) (float_end bytes (pos + 1 + 2 ^ (initial % 32 - 24)))
float_end-Found bytes pos initial at byte is_float =
    if-elim (WhenSome (Found IsFloat bytes pos)) (leb (pos + 1 + size) (length bytes)) _ _
      (λ fits. (
        (248 + k) ∷ take size behind,
        (k, take size behind, ground arith, ground arith, sized fits, refl),
        get-drop bytes pos initial at
            ∙ ap (λ i. i ∷ behind) whole
            ∙ ap (λ r. (248 + k) ∷ r)
                (sym (take-append-drop size behind)
                  ∙ ap (λ r. take size behind ++ r) (sym (drop-drop (pos + 1) size bytes))),
        omega (arith, sized fits),
      ))
      (λ long. tt)
  where
    k : ℕ
    k = initial % 32 - 24

    size : ℕ
    size = 2 ^ (initial % 32 - 24)

    behind : List ℕ
    behind = drop (pos + 1) bytes

    whole : initial ≡ 248 + (initial % 32 - 24)
    whole = ground arith

    sized : leb (pos + 1 + size) (length bytes) ≡ true → length (take size behind) ≡ size
    sized fits = omega (
      arith,
      length-take size behind,
      length-drop (pos + 1) bytes,
      leb→le (pos + 1 + size) (length bytes) fits,
    )
