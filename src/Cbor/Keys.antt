-- ===== src/Cbor/Keys.antt =====
-- `canonical_key_order` (cbor.rs) is the order of keys of the grammar.
use Prim.Native.Nat.{compare, Ordering}
use software_authenticator.Base.{
  ◌⊎◌, inl, inr, ℕ, ◌<◌, ◌≡◌, ◌↔◌, refl, ap, arith, true, Option, none, some, List, [], ◌∷◌, length,
}
use software_authenticator.Cbor.Canonical.{and_then, lexical, canonical_key_order, is_lt, is_after}
use software_authenticator.Cbor.Grammar.{IsLexicallyBefore, major_of, IsBefore, IsAfter}

-- One comparison and the rest of an order.
then_less :
    (l r : ℕ) (rest : Ordering) (P : Type 0)
    → (rest ≡ Ordering.lt) ↔ P
    → (and_then (compare l r) rest ≡ Ordering.lt) ↔ ((l < r) ⊎ ((l ≡ r) × P))
then_less l r rest P agrees = (to (compare l r) refl, from)
  where
    to : (o : Ordering) → compare l r ≡ o → and_then o rest ≡ Ordering.lt → (l < r) ⊎ ((l ≡ r) × P)
    to Ordering.lt e before = inl (ground arith)
    to Ordering.eq e before = inr (ground arith, agrees.0 before)
    to Ordering.gt e before = absurd (ground arith)

    from : (l < r) ⊎ ((l ≡ r) × P) → and_then (compare l r) rest ≡ Ordering.lt
    from (inl less) = ground arith
    from (inr (same, p)) = ground (arith, agrees.1 p)

pub lexical_iff :
    (left right : List ℕ) → (lexical left right ≡ Ordering.lt) ↔ IsLexicallyBefore left right
lexical_iff [] [] = ((λ e. ground arith), (λ e. absurd e))
lexical_iff [] (r ∷ right) = ((λ e. tt), (λ t. refl))
lexical_iff (l ∷ left) [] = ((λ e. ground arith), (λ e. absurd e))
lexical_iff (l ∷ left) (r ∷ right) =
    then_less l r (lexical left right) (IsLexicallyBefore left right) (lexical_iff left right)

pub canonical_key_order_iff :
    (left right : List ℕ) → (canonical_key_order left right ≡ Ordering.lt) ↔ IsBefore left right
unfolding canonical_key_order
canonical_key_order_iff left right =
    then_less (major_of left) (major_of right) _ _
      (then_less (length left) (length right) _ _ (lexical_iff left right))

pub is_after_iff :
    (previous : Option (List ℕ)) (key : List ℕ)
    → (is_after previous key ≡ true) ↔ IsAfter previous key
is_after_iff none key = ((λ e. tt), (λ t. refl))
is_after_iff (some previous) key = (
  (λ after.
      (canonical_key_order_iff previous key).0 (less (canonical_key_order previous key) after)),
  (λ before. ap is_lt ((canonical_key_order_iff previous key).1 before)),
)
  where
    less : (o : Ordering) → is_lt o ≡ true → o ≡ Ordering.lt
    less Ordering.lt e = refl
    less Ordering.eq e = absurd (ground arith)
    less Ordering.gt e = absurd (ground arith)
