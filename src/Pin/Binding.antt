-- ===== src/Pin/Binding.antt =====
-- What a pinUvAuthToken authorizes: `authorize_rp_operation` of pin/state.rs.
use software_authenticator.Base.{
  ◌⊎◌, if-elim, ℕ, ◌≡◌, refl, sym, ◌∙◌, ap, inl, inr, Bool, true, false, Option, none, some, List,
  arith, not, if◌then◌else◌, ◌||◌, is_none, bytes_eq, eq_of_bytes_eq,
}
use software_authenticator.Pin.Types.{
  Result, ok, err, InUseToken, PinUvAuthTokenState, ctap2_err_pin_auth_invalid,
}
use software_authenticator.Pin.Token.{
  observe_in_use, observe, current, has_permission_in, has_permission, rp_id_in, permissions_rp_id,
  user_verified_in, user_verified_flag, consume, consume_after_user_presence, bind_rp,
  bind_permissions_rp_id, bound_elsewhere, authorize_rp_operation,
}
use software_authenticator.Pin.Lifetime.{observe_token-Seen, err_not_ok}

true_not_false : {b : Bool} → b ≡ true → b ≡ false → ⊥
true_not_false is_true is_false = apart (sym is_true ∙ is_false)
  where
    apart : true ≡ false → ⊥
    apart e = ground arith

or_last : (a b : Bool) {c : Bool} → c ≡ true → (a || b || c) ≡ true
or_last true b last = refl
or_last false true last = refl
or_last false false last = last

or_middle : (a : Bool) {b : Bool} (c : Bool) → b ≡ true → (a || b || c) ≡ true
or_middle true c middle = refl
or_middle false c middle = ap (λ b. b || c) middle

-- What `authorize_rp_operation` refuses.
abbrev is_unauthorized : PinUvAuthTokenState → ℕ → ℕ → List ℕ → Bool
is_unauthorized s now permission rp_id =
    not (has_permission s now permission)
    || bound_elsewhere (permissions_rp_id s now) rp_id
    || not (user_verified_flag s now)

authorize_rp_operation-refuses :
    (s : PinUvAuthTokenState) (now permission : ℕ) (rp_id : List ℕ)
    → is_unauthorized s now permission rp_id ≡ true
    → (authorize_rp_operation s now permission rp_id).1 ≡ err ctap2_err_pin_auth_invalid
unfolding authorize_rp_operation observe
authorize_rp_operation-refuses s now permission rp_id unauthorized =
    if-elim (λ (r : PinUvAuthTokenState × Result {0} Unit). r.1 ≡ err ctap2_err_pin_auth_invalid)
      (is_unauthorized s now permission rp_id) _ _ (λ refused. refl)
      (λ allowed. absurd (true_not_false unauthorized allowed))

-- A look at the token verifies no user that was not verified.
observe_in_use-unverified :
    (o : Option InUseToken) (now : ℕ)
    → user_verified_in o ≡ false
    → user_verified_in (observe_in_use o now) ≡ false
observe_in_use-unverified none now no_user = refl
observe_in_use-unverified (some token) now no_user = elim (observe_token-Seen token now) [
  | inl gone ↦ ap user_verified_in gone
  | inr (other, is_other, alive, p, v, r, u) ↦ ap user_verified_in is_other ∙ u ∙ no_user
]

-- After user presence consumed the grant, no operation for any RP is authorized any more.
pub authorize_rp_operation-consumed :
    (s : PinUvAuthTokenState) (now later permission : ℕ) (rp_id : List ℕ)
    → (authorize_rp_operation (consume_after_user_presence s now) later permission rp_id).1
      ≡ err ctap2_err_pin_auth_invalid
unfolding consume_after_user_presence observe
authorize_rp_operation-consumed s now later permission rp_id =
    authorize_rp_operation-refuses (consume_after_user_presence s now) later permission rp_id (
      or_last (not (has_permission (consume_after_user_presence s now) later permission))
        (bound_elsewhere (permissions_rp_id (consume_after_user_presence s now) later) rp_id)
        (ap not (observe_in_use-unverified _ later (unverified (current s now)))))
  where
    unverified : (o : Option InUseToken) → user_verified_in (consume o) ≡ false
    unverified none = refl
    unverified (some token) = refl

-- No token, or one that belongs to this RP.
abbrev BelongsTo : List ℕ → Option InUseToken → Type 0
BelongsTo rp_id o =
    (o ≡ none) ⊎ ((token : InUseToken) × (o ≡ some token) × (token.permissions_rp_id ≡ some rp_id))

bind_rp-BelongsTo :
    (o : Option InUseToken) (rp_id : List ℕ)
    → bound_elsewhere (rp_id_in o) rp_id ≡ false
    → BelongsTo rp_id (bind_rp o rp_id)
bind_rp-BelongsTo none rp_id free = inl refl
bind_rp-BelongsTo (some token) rp_id free = owned token.permissions_rp_id refl free
  where
    owned :
        (bound : Option (List ℕ))
        → token.permissions_rp_id ≡ bound
        → bound_elsewhere bound rp_id ≡ false
        → BelongsTo rp_id (
            if is_none bound
            then some record token { permissions_rp_id = some rp_id }
            else some token)
    owned none is_bound free = inr (_, refl, refl)
    owned (some other) is_bound free =
        inr (token, refl, is_bound ∙ ap some (eq_of_bytes_eq other rp_id (ground arith)))

observe_in_use-BelongsTo :
    (o : Option InUseToken) (now : ℕ) (rp_id : List ℕ)
    → BelongsTo rp_id o
    → BelongsTo rp_id (observe_in_use o now)
observe_in_use-BelongsTo none now rp_id belongs = inl refl
observe_in_use-BelongsTo (some token) now rp_id belongs = elim (observe_token-Seen token now) [
  | inl gone ↦ inl gone
  | inr (other, is_other, alive, p, v, r, u) ↦ elim belongs [
    | inl none_here ↦ absurd (ground arith)
    | inr (bound, is_bound, rp) ↦ inr (other, is_other, r ∙ ap (λ o. rp_id_in o) is_bound ∙ rp)
  ]
]

middle_false : (a b c : Bool) → (a || b || c) ≡ false → b ≡ false
middle_false true b c none_true = absurd (ground arith)
middle_false false true c none_true = absurd (ground arith)
middle_false false false c none_true = refl

authorize_rp_operation-BelongsTo :
    (s : PinUvAuthTokenState) (now permission : ℕ) (rp_id : List ℕ)
    → (authorize_rp_operation s now permission rp_id).1 ≡ ok tt
    → BelongsTo rp_id ((authorize_rp_operation s now permission rp_id).0.in_use)
unfolding authorize_rp_operation bind_permissions_rp_id
authorize_rp_operation-BelongsTo s now permission rp_id =
    if-elim
      (λ (r : PinUvAuthTokenState × Result {0} Unit). r.1 ≡ ok tt → BelongsTo rp_id r.0.in_use)
      (is_unauthorized s now permission rp_id) _ _ (λ refused allowed. absurd (err_not_ok allowed))
      (λ free allowed. bind_rp-BelongsTo (current s now) rp_id (middle_false _ _ _ free))

belonging-refuses :
    (s : PinUvAuthTokenState) (later permission : ℕ) (rp_id other : List ℕ)
    → BelongsTo rp_id s.in_use
    → bytes_eq rp_id other ≡ false
    → is_unauthorized s later permission other ≡ true
unfolding observe
belonging-refuses s later permission rp_id other belongs differ =
    elim (observe_in_use-BelongsTo s.in_use later rp_id belongs) [
      | inl gone ↦
          ap
            (λ o.
              not (has_permission_in o permission)
              || bound_elsewhere (rp_id_in o) other
              || not (user_verified_in o))
            gone
      | inr (token, is_token, bound) ↦
          or_middle (not (has_permission s later permission)) (not (user_verified_flag s later)) (
            ap (λ o. bound_elsewhere (rp_id_in o) other) is_token
            ∙ ap (λ r. bound_elsewhere r other) bound
            ∙ ap not differ)
    ]

-- Once an operation for an RP is authorized, no operation for another RP is, with this token.
pub authorize_rp_operation-binds :
    (s : PinUvAuthTokenState) (now later p₁ p₂ : ℕ) (rp other : List ℕ)
    → (authorize_rp_operation s now p₁ rp).1 ≡ ok tt
    → bytes_eq rp other ≡ false
    → (authorize_rp_operation (authorize_rp_operation s now p₁ rp).0 later p₂ other).1
      ≡ err ctap2_err_pin_auth_invalid
authorize_rp_operation-binds s now later p₁ p₂ rp other allowed differ =
    authorize_rp_operation-refuses (authorize_rp_operation s now p₁ rp).0 later p₂ other (
      belonging-refuses (authorize_rp_operation s now p₁ rp).0 later p₂ rp other
        (authorize_rp_operation-BelongsTo s now p₁ rp allowed) differ)
