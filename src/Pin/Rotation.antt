-- ===== src/Pin/Rotation.antt =====
-- The secrets of rotated persistent tokens: `fresh_token_secret` and `rotate_persistent_tokens` of
-- storage.rs.
use software_authenticator.Base.{
  ℕ, zero, suc, ◌≡◌, refl, sym, ap, ◌∙◌, Bool, true, false, not, ◌&&◌, ◌||◌, some, List, [], ◌∷◌,
  ◌++◌, if-elim, subst, arith,
}
use software_authenticator.Pin.Types.{PersistentPinState, CtapApp, Outcome, done, failed, ◌>>=◌}
use software_authenticator.Pin.Token.{secret_matches}
use software_authenticator.Pin.Storage.{
  any_nonzero, is_among, is_fresh_secret, fresh_rounds, fresh_token_secret, secrets, ungranted,
  rotate_persistent_tokens, drawn, draw,
}

abbrev WhenDone {ℓ κ} : {A : Type ℓ} → (CtapApp → A → Type κ) → Outcome A → Type κ
WhenDone P (done a x) = P a x
WhenDone P (failed a e) = Unit

bind-WhenDone {ℓ κ μ ν} :
    {A : Type ℓ} {B : Type κ} (P : CtapApp → A → Type μ) (Q : CtapApp → B → Type ν) (o : Outcome A)
    (f : CtapApp → A → Outcome B)
    → WhenDone P o
    → ((a : CtapApp) (x : A) → P a x → WhenDone Q (f a x))
    → WhenDone Q (o >>= f)
bind-WhenDone P Q (done a x) f holds next = next a x holds
bind-WhenDone P Q (failed a e) f holds next = tt

-- The secret is not all zero, none of the forbidden ones, and not that of the token in use, which stays.
abbrev pub IsFresh : CtapApp → List (List ℕ) → CtapApp → List ℕ → Type 0
IsFresh app forbidden a secret =
    (any_nonzero secret ≡ true)
    × (is_among secret forbidden ≡ false)
    × (secret_matches app.token secret ≡ false)
    × (a.token ≡ app.token)

accepted-IsFresh :
    (app : CtapApp) (forbidden : List (List ℕ)) (secret : List ℕ)
    → is_fresh_secret app forbidden true secret ≡ true
    → (any_nonzero secret ≡ true)
      × (is_among secret forbidden ≡ false)
      × (secret_matches app.token secret ≡ false)
accepted-IsFresh app forbidden secret =
    split (any_nonzero secret) (is_among secret forbidden) (secret_matches app.token secret)
  where
    split :
        (a b c : Bool)
        → (a && not b && (not true || not c)) ≡ true
        → (a ≡ true) × (b ≡ false) × (c ≡ false)
    split true false false all = (refl, refl, refl)
    split true false true all = absurd (ground arith)
    split true true c all = absurd (ground arith)
    split false b c all = absurd (ground arith)

fresh_rounds-IsFresh :
    (n : ℕ) (app : CtapApp) (forbidden : List (List ℕ))
    → WhenDone (IsFresh app forbidden) (fresh_rounds n app forbidden true)
unfolding fresh_rounds
fresh_rounds-IsFresh zero app forbidden = tt
fresh_rounds-IsFresh (suc n) app forbidden =
    if-elim (WhenDone (IsFresh app forbidden)) (is_fresh_secret app forbidden true (draw app))
      (done (drawn app) (draw app)) (fresh_rounds n (drawn app) forbidden true)
      (λ good.
        let fresh = accepted-IsFresh app forbidden (draw app) good in
        (fresh.0, fresh.1, fresh.2, refl))
      (λ bad. fresh_rounds-IsFresh n (drawn app) forbidden)

fresh_token_secret-IsFresh :
    (app : CtapApp) (forbidden : List (List ℕ))
    → WhenDone (IsFresh app forbidden) (fresh_token_secret app forbidden true)
unfolding fresh_token_secret
fresh_token_secret-IsFresh app forbidden = fresh_rounds-IsFresh 8 app forbidden

-- Both new tokens are without a grant; their secrets are not all zero, differ from each other, from the
-- secrets that they replace and from that of the token in use.
abbrev pub IsRotated : CtapApp → PersistentPinState → PersistentPinState → Type 0
IsRotated app old new =
    (one : List ℕ) × (two : List ℕ) × (new.token_one ≡ some (ungranted one))
    × (new.token_two ≡ some (ungranted two))
    × (any_nonzero one ≡ true)
    × (any_nonzero two ≡ true)
    × (is_among one (secrets old) ≡ false)
    × (is_among two (secrets old ++ one ∷ []) ≡ false)
    × (secret_matches app.token one ≡ false)
    × (secret_matches app.token two ≡ false)

rotate_persistent_tokens-WhenDone :
    (app : CtapApp) (p : PersistentPinState)
    → WhenDone (λ a new. IsRotated app p new) (rotate_persistent_tokens app p)
unfolding rotate_persistent_tokens
rotate_persistent_tokens-WhenDone app p =
    bind-WhenDone (IsFresh app (secrets p)) (λ a new. IsRotated app p new)
      (fresh_token_secret app (secrets p) true)
      (λ app₁ one. fresh_token_secret app₁ (secrets p ++ one ∷ []) true >>= λ app₂ two.
        done app₂ (record p { token_one = some (ungranted one); token_two = some (ungranted two) }))
      (fresh_token_secret-IsFresh app (secrets p))
      (λ app₁ one f₁.
        bind-WhenDone (IsFresh app₁ (secrets p ++ one ∷ [])) (λ a new. IsRotated app p new)
          (fresh_token_secret app₁ (secrets p ++ one ∷ []) true)
          (λ app₂ two.
            done app₂
              (record p { token_one = some (ungranted one); token_two = some (ungranted two) }))
          (fresh_token_secret-IsFresh app₁ (secrets p ++ one ∷ []))
          (λ app₂ two f₂. (
            one,
            two,
            refl,
            refl,
            f₁.0,
            f₂.0,
            f₁.1,
            f₂.1,
            f₁.2,
            ap (λ t. secret_matches t two) (sym f₁.3) ∙ f₂.2,
          )))

-- If the rotation of the persistent tokens succeeds, both new tokens are without a grant, and their
-- secrets are not all zero and differ from each other, from the secrets that they replace and from that
-- of the token in use.
pub rotate_persistent_tokens-IsRotated :
    (app a : CtapApp) (p new : PersistentPinState)
    → rotate_persistent_tokens app p ≡ done a new
    → IsRotated app p new
rotate_persistent_tokens-IsRotated app a p new rotated =
    subst (λ o. WhenDone (λ a new. IsRotated app p new) o) rotated
      (rotate_persistent_tokens-WhenDone app p)
