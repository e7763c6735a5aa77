-- ===== src/Cbor/Replaced.antt =====
-- What replacing the unassigned simple values of an item by `undefined` means (cbor.rs).
use software_authenticator.Base.{
  ◌⊎◌, ℕ, zero, suc, ◌+◌, ◌*◌, ◌≤◌, ◌<◌, ◌≡◌, List, [], ◌∷◌, ◌++◌, length, concat,
}
use software_authenticator.Cbor.Grammar.{IsHead, IsNumber, IsString, IsFloat}

-- A simple value that CBOR leaves unassigned, and the items that are copied as they are.
abbrev pub IsUnassigned : List ℕ → Type 0
IsUnassigned item =
    (n : ℕ) × (((n < 20) × (item ≡ (224 + n) ∷ []))
      ⊎ ((32 ≤ n) × (n < 256) × (item ≡ 248 ∷ n ∷ [])))

abbrev pub IsAssigned : List ℕ → Type 0
IsAssigned item = (n : ℕ) × (20 ≤ n) × (n < 24) × (item ≡ (224 + n) ∷ [])

abbrev pub IsKept : List ℕ → Type 0
IsKept item = (IsNumber item ⊎ IsString item) ⊎ (IsAssigned item ⊎ IsFloat item)

abbrev pub IsFlatCopy : List ℕ → List ℕ → Type 0
IsFlatCopy item out = (IsUnassigned item × (out ≡ 0xf7 ∷ [])) ⊎ (IsKept item × (out ≡ item))

abbrev pub Pairwise : (List ℕ → List ℕ → Type 0) → List (List ℕ) → List (List ℕ) → Type 0
Pairwise R [] [] = Unit
Pairwise R [] (out ∷ outs) = ⊥
Pairwise R (item ∷ items) [] = ⊥
Pairwise R (item ∷ items) (out ∷ outs) = R item out × Pairwise R items outs

-- A header of this type and argument is kept, and so many items behind it are copied one by one.
abbrev pub IsDeepCopy : (List ℕ → List ℕ → Type 0) → ℕ → ℕ → ℕ → List ℕ → List ℕ → Type 0
IsDeepCopy R major n count item out =
    (head : List ℕ) × (items : List (List ℕ)) × (outs : List (List ℕ)) × IsHead major n head
    × (length items ≡ count)
    × Pairwise R items outs
    × (item ≡ head ++ concat items)
    × (out ≡ head ++ concat outs)

-- The second is the first with every unassigned simple value replaced by `undefined`.
abbrev pub IsCopy : ℕ → List ℕ → List ℕ → Type 0
IsCopy zero item out = IsFlatCopy item out
IsCopy (suc levels) item out =
    IsFlatCopy item out
    ⊎ ((n : ℕ) × (IsDeepCopy (IsCopy levels) 4 n n item out
          ⊎ IsDeepCopy (IsCopy levels) 5 n (n * 2) item out))
