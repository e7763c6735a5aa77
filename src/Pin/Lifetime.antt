-- ===== src/Pin/Lifetime.antt =====
-- How long a pinUvAuthToken is usable and for what: pin/token.rs and `authorize_rp_operation` of
-- pin/state.rs.
use software_authenticator.Base.{
  ◌⊎◌, if-elim, ℕ, ◌-◌, ◌≤◌, ◌<◌, ◌≡◌, refl, sym, ◌∙◌, ap, inl, inr, Bool, true, false, Option,
  none, some, List, arith, not, ◌||◌, ◌&&◌, leb, ltb, Bool-cases,
}
use software_authenticator.Pin.Types.{
  Result, ok, err, PinProtocol, v1, v2, InUseToken, PinUvAuthTokenState,
}
use software_authenticator.Pin.Token.{
  initial_usage_time_limit, user_present_time_limit, max_usage_time_period, protocol_eq,
  has_expired, observe_token, observe_in_use, observe, mark_used, verify_token, verify,
}

observe_token-observe_token :
    (token : InUseToken) (t₁ t₂ : ℕ)
    → t₁ ≤ t₂
    → observe_in_use (observe_token token t₁) t₂ ≡ observe_token token t₂
observe_token-observe_token token t₁ t₂ later = ground arith

-- Looking at the token earlier makes no difference to what a later look sees.
pub observe-observe :
    (s : PinUvAuthTokenState) (t₁ t₂ : ℕ) → t₁ ≤ t₂ → observe (observe s t₁) t₂ ≡ observe s t₂
unfolding observe
observe-observe s t₁ t₂ later = ap (λ o. record { in_use = o; issued = s.issued }) (in_use s.in_use)
  where
    in_use : (o : Option InUseToken) → observe_in_use (observe_in_use o t₁) t₂ ≡ observe_in_use o t₂
    in_use none = refl
    in_use (some token) = observe_token-observe_token token t₁ t₂ later

-- The token is usable at this time: it is younger than ten minutes and, before its first use, than half
-- a minute.
abbrev pub IsAlive : InUseToken → ℕ → Type 0
IsAlive token now =
    (now - token.started_at < max_usage_time_period)
    × ((token.used ≡ true) ⊎ (now - token.started_at < initial_usage_time_limit))

-- The token with the presence of the user forgotten once it is older than the limit.
abbrev pub aged : InUseToken → ℕ → InUseToken
aged token now = record token {
  user_present = ltb (now - token.started_at) user_present_time_limit && token.user_present;
}

-- A successful verification under this protocol had a token that was alive, of that protocol, whose
-- value accepts the signature, and leaves it as a look at this time sees it, but used.
abbrev pub IsVerified :
    PinUvAuthTokenState
    → ℕ
    → PinProtocol
    → (List ℕ → Result {0} Unit)
    → PinUvAuthTokenState
    → Type 0
IsVerified s now protocol valid s' =
    (token : InUseToken) × (s.in_use ≡ some token)
    × IsAlive token now
    × (token.protocol ≡ protocol)
    × (valid token.value ≡ ok tt)
    × (s'.in_use ≡ some (record (aged token now) { used = true }))

-- What the token is to a look at this time: gone, or alive with its protocol, value and RP unchanged.
abbrev pub Seen : InUseToken → ℕ → Option InUseToken → Type 0
Seen token now o =
    (o ≡ none)
    ⊎ ((seen : InUseToken) × (o ≡ some seen)
        × IsAlive token now
        × (seen.protocol ≡ token.protocol)
        × (seen.value ≡ token.value)
        × (seen.permissions_rp_id ≡ token.permissions_rp_id)
        × (seen.user_verified ≡ token.user_verified))

pub IsAlive-unless_expired :
    (token : InUseToken) (now : ℕ) → has_expired token now ≡ false → IsAlive token now
IsAlive-unless_expired token now fresh = (ground arith, used_or_young token.used fresh)
  where
    used_or_young :
        (used : Bool)
        → (leb max_usage_time_period (now - token.started_at)
            || (not used && leb initial_usage_time_limit (now - token.started_at)))
          ≡ false
        → (used ≡ true) ⊎ (now - token.started_at < initial_usage_time_limit)
    used_or_young true fresh = inl refl
    used_or_young false fresh = inr (ground arith)

pub observe_token-Seen : (token : InUseToken) (now : ℕ) → Seen token now (observe_token token now)
observe_token-Seen token now =
    if-elim (Seen token now) (has_expired token now) _ _ (λ expired. inl refl)
      (λ fresh.
        if-elim (Seen token now) (leb user_present_time_limit (now - token.started_at)) _ _
          (λ late. inr (_, refl, IsAlive-unless_expired token now fresh, refl, refl, refl, refl))
          (λ soon. inr (_, refl, IsAlive-unless_expired token now fresh, refl, refl, refl, refl)))

pub observe_token-aged :
    (token : InUseToken) (now : ℕ)
    → has_expired token now ≡ false
    → observe_token token now ≡ some (aged token now)
observe_token-aged token now fresh =
    elim (Bool-cases (leb user_present_time_limit (now - token.started_at))) [
      | inl late ↦ rw (fresh, late, is_late late) refl
      | inr soon ↦ rw (fresh, soon, is_soon soon) refl
    ]
  where
    is_late :
        leb user_present_time_limit (now - token.started_at) ≡ true
        → ltb (now - token.started_at) user_present_time_limit ≡ false
    is_late late = ground arith

    is_soon :
        leb user_present_time_limit (now - token.started_at) ≡ false
        → ltb (now - token.started_at) user_present_time_limit ≡ true
    is_soon soon = ground arith

eq_of_protocol_eq : (p q : PinProtocol) → protocol_eq p q ≡ true → p ≡ q
eq_of_protocol_eq v1 v1 same = refl
eq_of_protocol_eq v1 v2 same = absurd (ground arith)
eq_of_protocol_eq v2 v1 same = absurd (ground arith)
eq_of_protocol_eq v2 v2 same = refl

-- A verification that passed was of this token.
abbrev Passed :
    Option InUseToken
    → PinProtocol
    → (List ℕ → Result {0} Unit)
    → Option InUseToken × Result {0} Unit
    → Type 0
Passed o protocol valid r =
    r.1 ≡ ok tt
    → (token : InUseToken) × (o ≡ some token)
      × (token.protocol ≡ protocol)
      × (valid token.value ≡ ok tt)
      × (r.0 ≡ some (record token { used = true }))

pub err_not_ok : {e : ℕ} → Path (Result {0} Unit) (err e) (ok tt) → ⊥
err_not_ok same = ground arith

verify_token-Passed :
    (o : Option InUseToken) (protocol : PinProtocol) (valid : List ℕ → Result {0} Unit)
    → Passed o protocol valid (verify_token o protocol valid)
verify_token-Passed none protocol valid = λ passed. absurd (err_not_ok passed)
verify_token-Passed (some token) protocol valid =
    if-elim (Passed (some token) protocol valid) (not (protocol_eq token.protocol protocol)) _ _
      (λ differ passed. absurd (err_not_ok passed))
      (λ same.
        checked (eq_of_protocol_eq token.protocol protocol (ground arith)) (valid token.value) refl)
  where
    checked :
        token.protocol ≡ protocol
        → (r : Result {0} Unit) → valid token.value ≡ r
        → Passed (some token) protocol valid (mark_used token r)
    checked same (ok t) says passed = (token, refl, same, says, refl)
    checked same (err e) says passed = absurd (err_not_ok passed)

-- If a verification succeeds, there was a token in use, alive at that time, issued over this protocol,
-- whose value accepts the signature; and it is left as a look at that time sees it, but marked used.
pub verify-IsVerified :
    (s : PinUvAuthTokenState) (now : ℕ) (protocol : PinProtocol) (valid : List ℕ → Result {0} Unit)
    → (verify s now protocol valid).1 ≡ ok tt
    → IsVerified s now protocol valid (verify s now protocol valid).0
unfolding verify observe
verify-IsVerified s now protocol valid passed = from s.in_use refl passed
  where
    gone_not_some : {t : InUseToken} → none ≡ some t → ⊥
    gone_not_some e = ground arith

    some_injective : {t u : InUseToken} → some t ≡ some u → t ≡ u
    some_injective e = ground arith

    from :
        (o : Option InUseToken)
        → s.in_use ≡ o
        → (verify_token (observe_in_use o now) protocol valid).1 ≡ ok tt
        → (token : InUseToken) × (s.in_use ≡ some token)
          × IsAlive token now
          × (token.protocol ≡ protocol)
          × (valid token.value ≡ ok tt)
          × ((verify_token (observe_in_use s.in_use now) protocol valid).0
              ≡ some (record (aged token now) { used = true }))
    from none same passed = absurd (err_not_ok passed)
    from (some token) same passed =
        let (seen, is_seen, p, v, left) =
          verify_token-Passed (observe_token token now) protocol valid passed in
        elim (Bool-cases (has_expired token now)) [
          | inl expired ↦ absurd (gone_not_some (rw expired at is_seen))
          | inr fresh ↦
              let same_token = some_injective (sym is_seen ∙ observe_token-aged token now fresh) in
              (
                token,
                same,
                IsAlive-unless_expired token now fresh,
                ap (λ (t : InUseToken). t.protocol) (sym same_token) ∙ p,
                ap (λ (t : InUseToken). valid t.value) (sym same_token) ∙ v,
                ap (λ o. (verify_token (observe_in_use o now) protocol valid).0) same
                    ∙ left
                    ∙ ap (λ (t : InUseToken). some (record t { used = true })) same_token,
              )
        ]
