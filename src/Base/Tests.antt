-- ===== src/Base/Tests.antt =====
-- Boolean tests on the native numbers, the conditional, and 64-bit saturating addition.
use Prim.Native.Nat.{ℕ, zero, suc, ◌+◌, ◌≤◌, ◌<◌, compare, Ordering}
use mathlib.Core.Path.{◌≡◌, refl, subst, ap, ◌∙◌}
use mathlib.Core.Logic.{◌↔◌, ◌⊎◌, inl, inr}
use mathlib.Core.Bool.{Bool, true, false, ◌&&◌}
use mathlib.Core.Option.{Option, none, some}
use native.Mathlib.Omega.{arith}

abbrev pub ltb : ℕ → ℕ → Bool
ltb a b = elim (compare a b) [ Ordering.lt ↦ true | _ ↦ false ]

abbrev pub leb : ℕ → ℕ → Bool
leb a b = elim (compare a b) [ Ordering.gt ↦ false | _ ↦ true ]

infix 50 ◌==◌
abbrev pub ◌==◌ : ℕ → ℕ → Bool
a == b = elim (compare a b) [ Ordering.eq ↦ true | _ ↦ false ]

infix 1 if◌then◌else◌
abbrev pub if◌then◌else◌ {ℓ} : {A : Type ℓ} → Bool → A → A → A
if true then x else y = x
if false then x else y = y

pub ==_iff : (a b : ℕ) → ((a == b) ≡ true) ↔ (a ≡ b)
==_iff a b = ground arith

pub ==_refl : (a : ℕ) → (a == a) ≡ true
==_refl a = ground arith

pub leb→le : (a b : ℕ) → leb a b ≡ true → a ≤ b
leb→le a b h = ground arith

pub not_leb→lt : (a b : ℕ) → leb a b ≡ false → b < a
not_leb→lt a b h = ground arith

pub Bool-cases : (b : Bool) → (b ≡ true) ⊎ (b ≡ false)
Bool-cases true = inl refl
Bool-cases false = inr refl

abbrev pub u64_max : ℕ
u64_max = 18446744073709551615

-- `u64::saturating_add`.
abbrev pub saturating_add : ℕ → ℕ → ℕ
saturating_add a b = if leb (a + b) u64_max then a + b else u64_max

module _ {ℓ} {A : Type ℓ} where
  abbrev pub is_some : Option A → Bool
  is_some none = false
  is_some (some a) = true

  abbrev pub is_none : Option A → Bool
  is_none none = true
  is_none (some a) = false

  abbrev pub unwrap_or : Option A → A → A
  unwrap_or none d = d
  unwrap_or (some a) d = a

  -- What holds of the answer, if there is one.
  abbrev pub WhenSome {κ} : (A → Type κ) → Option A → Type κ
  WhenSome P none = Unit
  WhenSome P (some a) = P a

  pub WhenSome-some {κ} : (P : A → Type κ) (o : Option A) (a : A) → o ≡ some a → WhenSome P o → P a
  WhenSome-some P o a e h = subst (WhenSome P) e h

  pub Option-cases : (o : Option A) → (o ≡ none) ⊎ ((a : A) × (o ≡ some a))
  Option-cases none = inl refl
  Option-cases (some a) = inr (a, refl)

-- What holds of both branches holds of the conditional.
pub if-elim {ℓ κ} :
    {A : Type ℓ} (P : A → Type κ) (b : Bool) (x y : A)
    → (b ≡ true → P x)
    → (b ≡ false → P y)
    → P (if b then x else y)
if-elim P true x y on_true on_false = on_true refl
if-elim P false x y on_true on_false = on_false refl

-- An answer that is taken up by a further step.
pub WhenSome-bind {ℓ κ} :
    {A B : Type ℓ} (P : A → Type κ) (Q : B → Type κ) (o : Option A) (f : A → Option B)
    → WhenSome P o
    → ((a : A) → P a → WhenSome Q (f a))
    → WhenSome Q (elim o [ none ↦ none | some a ↦ f a ])
WhenSome-bind P Q none f h next = tt
WhenSome-bind P Q (some a) f h next = next a h

pub bind-some {ℓ} :
    {A B : Type ℓ} (o : Option A) (a : A) (f : A → Option B)
    → o ≡ some a
    → Path (Option B) (elim o [ none ↦ none | some a ↦ f a ]) (f a)
bind-some o a f e = rw (e)

-- A test that is run for every number below a bound.
abbrev pub all_below : ℕ → (ℕ → Bool) → Bool
all_below zero test = true
all_below (suc n) test = test n && all_below n test

pub at_below : (n m : ℕ) (test : ℕ → Bool) → all_below n test ≡ true → m < n → test m ≡ true
at_below zero m test all below = absurd (omega arith)
at_below (suc n) m test all below = elim (Bool-cases (m == n)) [
  | inl same ↦ ap test (at_same same) ∙ first (test n) (all_below n test) all
  | inr other ↦ at_below n m test (second (test n) (all_below n test) all) (ground (arith, other))
]
  where
    at_same : (m == n) ≡ true → m ≡ n
    at_same same = ground arith

    first : (a b : Bool) → (a && b) ≡ true → a ≡ true
    first true b both = refl
    first false b both = absurd (ground arith)

    second : (a b : Bool) → (a && b) ≡ true → b ≡ true
    second true b both = both
    second false b both = absurd (ground arith)

pub WhenSome-map {ℓ κ} :
    {A : Type ℓ} (P Q : A → Type κ) (o : Option A)
    → WhenSome P o
    → ((a : A) → P a → Q a)
    → WhenSome Q o
WhenSome-map P Q none h f = tt
WhenSome-map P Q (some a) h f = f a h
