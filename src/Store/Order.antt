-- ===== src/Store/Order.antt =====
-- The order of names in a `BTreeMap<String, _>` (store/manifest.rs): a name behind all the others is
-- inserted at the end.
use Prim.Native.Nat.{compare, Ordering}
use software_authenticator.Base.{
  inl, inr, ℕ, ◌≡◌, refl, ap, arith, true, Option, some, List, [], ◌∷◌, ◌++◌, All, All-append,
}
use software_authenticator.Cbor.Canonical.{and_then, lexical, is_lt}
use software_authenticator.Cbor.Grammar.{IsLexicallyBefore}
use software_authenticator.Cbor.Keys.{lexical_iff}
use software_authenticator.Store.Manifest.{Location, Manifest, insert, rises}

before_trans :
    (a b c : List ℕ) → IsLexicallyBefore a b → IsLexicallyBefore b c → IsLexicallyBefore a c
before_trans a b [] ab bc = bc
before_trans [] b (z ∷ c) ab bc = tt
before_trans (x ∷ a) [] (z ∷ c) ab bc = absurd ab
before_trans (x ∷ a) (y ∷ b) (z ∷ c) (inl less) (inl less') = inl (omega arith)
before_trans (x ∷ a) (y ∷ b) (z ∷ c) (inl less) (inr (same, bc)) = inl (omega arith)
before_trans (x ∷ a) (y ∷ b) (z ∷ c) (inr (same, ab)) (inl less) = inl (omega arith)
before_trans (x ∷ a) (y ∷ b) (z ∷ c) (inr (same, ab)) (inr (same', bc)) =
    inr (omega arith, before_trans a b c ab bc)

pub lexical_trans :
    (a b c : List ℕ)
    → lexical a b ≡ Ordering.lt
    → lexical b c ≡ Ordering.lt
    → lexical a c ≡ Ordering.lt
lexical_trans a b c ab bc =
    (lexical_iff a c).1 (before_trans a b c ((lexical_iff a b).0 ab) ((lexical_iff b c).0 bc))

lexical_flip : (a b : List ℕ) → lexical a b ≡ Ordering.lt → lexical b a ≡ Ordering.gt
lexical_flip [] [] less = absurd (ground arith)
lexical_flip [] (y ∷ b) less = refl
lexical_flip (x ∷ a) [] less = absurd (ground arith)
lexical_flip (x ∷ a) (y ∷ b) less = by_first (compare x y) (lexical_flip a b) refl less
  where
    by_first :
        (o : Ordering)
        → (lexical a b ≡ Ordering.lt → lexical b a ≡ Ordering.gt)
        → compare x y ≡ o
        → and_then o (lexical a b) ≡ Ordering.lt
        → and_then (compare y x) (lexical b a) ≡ Ordering.gt
    by_first Ordering.lt rest e less = ground arith
    by_first Ordering.eq rest e less = ground (arith, rest less)
    by_first Ordering.gt rest e less = absurd (ground arith)

-- All the names of the entries are before this one.
abbrev pub AllBefore : Manifest → List ℕ → Type 0
AllBefore manifest name = All (λ entry. lexical entry.0 name ≡ Ordering.lt) manifest

pub insert-AllBefore :
    (name : List ℕ) (location : Location) (manifest : Manifest)
    → AllBefore manifest name
    → insert name location manifest ≡ manifest ++ ((name, location) ∷ [])
insert-AllBefore name location [] all = refl
insert-AllBefore name location (entry ∷ more) (before, all) =
    rw (insert, lexical_flip entry.0 name before)
      (ap (◌∷◌ entry) (insert-AllBefore name location more all))

pub AllBefore-trans :
    (manifest : Manifest) (a b : List ℕ)
    → AllBefore manifest a
    → lexical a b ≡ Ordering.lt
    → AllBefore manifest b
AllBefore-trans [] a b all less = tt
AllBefore-trans (entry ∷ more) a b (before, all) less =
    (lexical_trans entry.0 a b before less, AllBefore-trans more a b all less)

is_lt-lt : (o : Ordering) → is_lt o ≡ true → o ≡ Ordering.lt
is_lt-lt Ordering.lt e = refl
is_lt-lt Ordering.eq e = absurd (ground arith)
is_lt-lt Ordering.gt e = absurd (ground arith)

-- The entries so far are all before whatever may follow the previous name.
abbrev pub IsBehind : Manifest → Option (List ℕ) → Type 0
IsBehind manifest previous = (name : List ℕ) → rises previous name ≡ true → AllBefore manifest name

pub IsBehind-next :
    (manifest : Manifest) (previous : Option (List ℕ)) (name : List ℕ) (location : Location)
    → IsBehind manifest previous
    → rises previous name ≡ true
    → IsBehind (manifest ++ ((name, location) ∷ [])) (some name)
IsBehind-next manifest previous name location behind after next follows =
    All-append (λ entry. lexical entry.0 next ≡ Ordering.lt) manifest ((name, location) ∷ [])
      (AllBefore-trans manifest name next (behind name after) less) (less, tt)
  where
    less : lexical name next ≡ Ordering.lt
    less = is_lt-lt (lexical name next) follows
