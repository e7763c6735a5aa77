-- ===== src/Pin/Policy.antt =====
-- What setMinPINLength can do to the PIN policy: authenticator_config.rs.
use software_authenticator.Base.{
  subst, length, if-elim, ℕ, ◌≤◌, ◌≡◌, refl, ◌∙◌, Bool, true, false, Option, none, some, List, [],
  ◌∷◌, arith, ltb, ◌&&◌, ◌||◌, not,
}
use software_authenticator.Pin.Types.{
  Result, ok, err, PersistentPinState, max_pin_length, max_min_pin_length_rp_ids,
  ctap2_err_key_store_full,
}
use software_authenticator.Pin.Params.{
  Value, integer, negative, bytes, text, array, mapping, boolean, other, Params,
}
use software_authenticator.Pin.Config.{
  minimum_parameter, checked_minimum, bool_parameter, ask_force, ask_complexity, ask_length, texts,
  check_rp_ids, replace_rp_ids, ask_rp_ids, and_then, requested_policy, any_too_long,
}

-- The new policy is at least as strict, and it leaves the PIN and its retries alone.
abbrev pub IsStricter : PersistentPinState → PersistentPinState → Type 0
IsStricter old new =
    (old.min_pin_length ≤ new.min_pin_length)
    × (new.min_pin_length ≤ max_pin_length)
    × (new.pin_hash ≡ old.pin_hash)
    × (new.pin_retries ≡ old.pin_retries)
    × (old.force_pin_change ≡ true → new.force_pin_change ≡ true)
    × (old.pin_complexity_policy ≡ true → new.pin_complexity_policy ≡ true)

-- The parts of it that a step keeps, whatever the minimum.
abbrev Keeps : PersistentPinState → PersistentPinState → Type 0
Keeps old new =
    (new.pin_hash ≡ old.pin_hash)
    × (new.pin_retries ≡ old.pin_retries)
    × (old.force_pin_change ≡ true → new.force_pin_change ≡ true)
    × (old.pin_complexity_policy ≡ true → new.pin_complexity_policy ≡ true)

abbrev WhenOk {ℓ κ} : {A : Type ℓ} → (A → Type κ) → Result A → Type κ
WhenOk P (ok a) = P a
WhenOk P (err e) = Unit

and_then-WhenOk {ℓ κ μ ν} :
    {A : Type ℓ} {B : Type κ} (P : A → Type μ) (Q : B → Type ν) (r : Result A) (f : A → Result B)
    → WhenOk P r
    → ((a : A) → P a → WhenOk Q (f a))
    → WhenOk Q (and_then r f)
and_then-WhenOk P Q (ok a) f holds next = next a holds
and_then-WhenOk P Q (err e) f holds next = tt

anything {ℓ} : {A : Type ℓ} (r : Result A) → WhenOk (λ a. Unit {0}) r
anything (ok a) = tt
anything (err e) = tt

checked_minimum-WhenOk :
    (minimum current : ℕ)
    → WhenOk (λ m. (current ≤ m) × (m ≤ max_pin_length)) (checked_minimum minimum current)
checked_minimum-WhenOk minimum current = ground arith

ask_force-Keeps :
    (force set : Bool) (p : PersistentPinState) → WhenOk (Keeps p) (ask_force force set p)
ask_force-Keeps false set p = (refl, refl, λ e. e, λ e. e)
ask_force-Keeps true false p = tt
ask_force-Keeps true true p = (refl, refl, λ e. refl, λ e. e)

or_true : (a : Bool) {b : Bool} → b ≡ true → (a || b) ≡ true
or_true true e = refl
or_true false e = e

ask_complexity-Keeps :
    (asked set : Bool) (p : PersistentPinState) → Keeps p (ask_complexity asked set p)
ask_complexity-Keeps asked set p =
    if-elim (Keeps p) (asked && not p.pin_complexity_policy) _ _
      (λ yes_asked. (refl, refl, λ e. or_true set e, λ e. refl))
      (λ not_asked. (refl, refl, λ e. e, λ e. e))

ask_length-Keeps :
    (set : Bool) (minimum : ℕ) (p : PersistentPinState) → Keeps p (ask_length set minimum p)
ask_length-Keeps set minimum p =
    if-elim (Keeps p) (set && ltb p.pin_code_point_length minimum) _ _
      (λ short. (refl, refl, λ e. refl, λ e. e)) (λ long. (refl, refl, λ e. e, λ e. e))

replace_rp_ids-Keeps :
    (rp_ids : List (List ℕ)) (p : PersistentPinState) → Keeps p (replace_rp_ids rp_ids p)
replace_rp_ids-Keeps [] p = (refl, refl, λ e. e, λ e. e)
replace_rp_ids-Keeps (x ∷ xs) p = (refl, refl, λ e. e, λ e. e)

check_rp_ids-Keeps :
    (r : Result (List (List ℕ))) (p : PersistentPinState) → WhenOk (Keeps p) (check_rp_ids r p)
check_rp_ids-Keeps (err e) p = tt
check_rp_ids-Keeps (ok rp_ids) p =
    if-elim (WhenOk (Keeps p))
      (ltb max_min_pin_length_rp_ids (length rp_ids) || any_too_long rp_ids)
      (err ctap2_err_key_store_full) (ok (replace_rp_ids rp_ids p)) (λ many. tt)
      (λ fits. replace_rp_ids-Keeps rp_ids p)

ask_rp_ids-Keeps : (v : Option Value) (p : PersistentPinState) → WhenOk (Keeps p) (ask_rp_ids v p)
ask_rp_ids-Keeps none p = (refl, refl, λ e. e, λ e. e)
ask_rp_ids-Keeps (some (array rp_ids)) p = check_rp_ids-Keeps (texts rp_ids) p
ask_rp_ids-Keeps (some (integer n)) p = tt
ask_rp_ids-Keeps (some (negative n)) p = tt
ask_rp_ids-Keeps (some (bytes b)) p = tt
ask_rp_ids-Keeps (some (text t)) p = tt
ask_rp_ids-Keeps (some mapping) p = tt
ask_rp_ids-Keeps (some (boolean b)) p = tt
ask_rp_ids-Keeps (some other) p = tt

requested_policy-WhenOk :
    (params : Params) (set : Bool) (p : PersistentPinState)
    → WhenOk (IsStricter p) (requested_policy params set p)
unfolding requested_policy
requested_policy-WhenOk params set p =
    and_then-WhenOk (λ x. Unit {0}) (IsStricter p) (minimum_parameter (params 1) p.min_pin_length)
      (λ x. and_then {B = PersistentPinState} (checked_minimum x p.min_pin_length) (λ minimum.
        and_then {B = PersistentPinState} (bool_parameter (params 3)) (λ force.
          and_then {B = PersistentPinState} (ask_force force set p) (λ p₁.
            and_then {B = PersistentPinState} (bool_parameter (params 4)) (λ complexity.
              and_then {B = PersistentPinState}
                (ask_rp_ids (params 2) (ask_length set minimum (ask_complexity complexity set p₁)))
                (λ p₂. ok (record p₂ { min_pin_length = minimum })))))))
      (anything (minimum_parameter (params 1) p.min_pin_length))
      λ asked u.
        and_then-WhenOk (λ m. (p.min_pin_length ≤ m) × (m ≤ max_pin_length)) (IsStricter p) _
          (λ x. and_then {B = PersistentPinState} (bool_parameter (params 3)) (λ force.
            and_then {B = PersistentPinState} (ask_force force set p) (λ p₁.
              and_then {B = PersistentPinState} (bool_parameter (params 4)) (λ complexity.
                and_then {B = PersistentPinState}
                  (ask_rp_ids (params 2) (ask_length set x (ask_complexity complexity set p₁)))
                  (λ p₂. ok (record p₂ { min_pin_length = x }))))))
          (checked_minimum-WhenOk asked p.min_pin_length)
          λ minimum bounds.
            and_then-WhenOk (λ x. Unit {0}) (IsStricter p) (bool_parameter (params 3))
              (λ x. and_then {B = PersistentPinState} (ask_force x set p) (λ p₁.
                and_then {B = PersistentPinState} (bool_parameter (params 4)) (λ complexity.
                  and_then {B = PersistentPinState}
                    (ask_rp_ids (params 2)
                      (ask_length set minimum (ask_complexity complexity set p₁)))
                    (λ p₂. ok (record p₂ { min_pin_length = minimum })))))
              (anything (bool_parameter (params 3)))
              λ force v.
                and_then-WhenOk (Keeps p) (IsStricter p) _
                  (λ x. and_then {B = PersistentPinState} (bool_parameter (params 4)) (λ complexity.
                    and_then {B = PersistentPinState}
                      (ask_rp_ids (params 2)
                        (ask_length set minimum (ask_complexity complexity set x)))
                      (λ p₂. ok (record p₂ { min_pin_length = minimum }))))
                  (ask_force-Keeps force set p)
                  λ p₁ k₁.
                    and_then-WhenOk (λ x. Unit {0}) (IsStricter p) (bool_parameter (params 4)) _
                      (anything (bool_parameter (params 4)))
                      λ complexity w.
                        and_then-WhenOk
                          (Keeps (ask_length set minimum (ask_complexity complexity set p₁)))
                          (IsStricter p)
                          (ask_rp_ids (params 2)
                            (ask_length set minimum (ask_complexity complexity set p₁)))
                          (λ p₂. ok (record p₂ { min_pin_length = minimum }))
                          (ask_rp_ids-Keeps (params 2)
                            (ask_length set minimum (ask_complexity complexity set p₁)))
                          λ p₂ k₂.
                            let k₃ =
                              ask_length-Keeps set minimum (ask_complexity complexity set p₁) in
                            let k₄ = ask_complexity-Keeps complexity set p₁ in
                            (
                              bounds.0,
                              bounds.1,
                              k₂.0 ∙ k₃.0 ∙ k₄.0 ∙ k₁.0,
                              k₂.1 ∙ k₃.1 ∙ k₄.1 ∙ k₁.1,
                              λ e. k₂.2 (k₃.2 (k₄.2 (k₁.2 e))),
                              λ e. k₂.3 (k₃.3 (k₄.3 (k₁.3 e))),
                            )

-- If setMinPINLength accepts its parameters, the policy that it makes has a minimum of at least the old
-- one and at most 63, keeps the PIN and its retries, and drops neither a required change of the PIN nor
-- the complexity policy.
pub requested_policy-IsStricter :
    (params : Params) (set : Bool) (p new : PersistentPinState)
    → requested_policy params set p ≡ ok new
    → IsStricter p new
requested_policy-IsStricter params set p new accepted =
    subst (λ r. WhenOk (IsStricter p) r) accepted (requested_policy-WhenOk params set p)
