-- ===== src/Pin/Looks.antt =====
-- What a pinUvAuthToken is at any time, though its timer is evaluated only when it is looked at:
-- `observe` of pin/token.rs.
use software_authenticator.Base.{
  ℕ, ◌≤◌, ◌≡◌, ◌↔◌, refl, sym, ◌∙◌, ap, inl, inr, true, false, Option, none, some, List, [], ◌∷◌,
  arith, All, Bool-cases,
}
use software_authenticator.Pin.Types.{InUseToken, PinUvAuthTokenState}
use software_authenticator.Pin.Token.{has_expired, observe_token, observe_in_use, observe, current}
use software_authenticator.Pin.Lifetime.{
  observe-observe, IsAlive, aged, observe_token-aged, IsAlive-unless_expired,
}

-- The token state after getters looked at it at these times.
unfoldable pub looked : PinUvAuthTokenState → List ℕ → PinUvAuthTokenState
looked s [] = s
looked s (t ∷ ts) = looked (observe s t) ts

observe-looked :
    (s : PinUvAuthTokenState) (looks : List ℕ) (now : ℕ)
    → All (λ t. t ≤ now) looks
    → observe (looked s looks) now ≡ observe s now
unfolding looked
observe-looked s [] now earlier = refl
observe-looked s (t ∷ ts) now earlier =
    observe-looked (observe s t) ts now earlier.1 ∙ observe-observe s t now earlier.0

unless_alive : (token : InUseToken) (now : ℕ) → IsAlive token now → has_expired token now ≡ false
unless_alive token now (young, inl used) = ground (arith, young, used)
unless_alive token now (young, inr unused) = ground (arith, young, unused)

observe_token_iff :
    (token seen : InUseToken) (now : ℕ)
    → (observe_token token now ≡ some seen) ↔ (IsAlive token now × (seen ≡ aged token now))
observe_token_iff token seen now = elim (Bool-cases (has_expired token now)) [
  | inl expired ↦ (
    λ is_seen. absurd (none_not_some (rw expired at is_seen)),
    λ (alive, same). absurd (true_not_false (sym expired ∙ unless_alive token now alive)),
  )
  | inr fresh ↦ (
    λ is_seen. (
      IsAlive-unless_expired token now fresh,
      some_injective (sym is_seen ∙ observe_token-aged token now fresh),
    ),
    λ (alive, same). observe_token-aged token now fresh ∙ ap some (sym same),
  )
]
  where
    none_not_some : Path (Option InUseToken) none (some seen) → ⊥
    none_not_some e = ground arith

    true_not_false : true ≡ false → ⊥
    true_not_false e = ground arith

    some_injective : {t u : InUseToken} → some t ≡ some u → t ≡ u
    some_injective e = ground arith

-- However often getters looked at a token before, a look sees it exactly while it is younger than ten
-- minutes and, before its first use, than half a minute; and what it sees is the token as it was, but
-- without the presence of the user once it is at least as old as the limit on that.
pub current_iff :
    (s : PinUvAuthTokenState) (token seen : InUseToken) (looks : List ℕ) (now : ℕ)
    → s.in_use ≡ some token
    → All (λ t. t ≤ now) looks
    → (current (looked s looks) now ≡ some seen) ↔ (IsAlive token now × (seen ≡ aged token now))
unfolding observe
current_iff s token seen looks now held earlier =
    let shown : current (looked s looks) now ≡ observe_token token now =
      ap (λ (r : PinUvAuthTokenState). r.in_use) (observe-looked s looks now earlier)
      ∙ ap (λ o. observe_in_use o now) held in
    let direct = observe_token_iff token seen now in
    (λ is_seen. direct.0 (sym shown ∙ is_seen), λ alive. shown ∙ direct.1 alive)
