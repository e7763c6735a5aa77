-- ===== src/Pin/Uncounted.antt =====
-- A check that is refused before the comparison: `verify_pin_hash_enc` of pin/client_pin.rs.
use software_authenticator.Base.{
  ℕ, ◌≡◌, refl, sym, ◌∙◌, ap, inl, inr, Bool, true, false, Option, List, arith, Bool-cases,
}
use software_authenticator.Pin.Types.{
  Result, ok, err, PinRetryState, CtapApp, Outcome, done, failed, ◌>>=◌, PinProtocol,
}
use software_authenticator.Pin.Retry.{begin_attempt}
use software_authenticator.Pin.Storage.{
  is_read, save_pin_state, unsupported_directory_flush, refresh_persistent_authority,
}
use software_authenticator.Pin.Client.{spend_and_compare, verify_pin_hash_enc}
use software_authenticator.Pin.Accepted.{
  is_confirmed, unsupported_directory_flush-saves, spend_and_compare-is_blind,
}
use software_authenticator.Pin.Attempts.{
  spent_comparisons, attempt_comparisons, check_comparisons, tried,
}

spend_and_compare_uncounted :
    (app : CtapApp) (protocol : PinProtocol) (c₁ c₂ : Option (List ℕ)) (debited : PinRetryState)
    → spent_comparisons app ≡ 0
    → spend_and_compare app protocol c₁ debited ≡ spend_and_compare app protocol c₂ debited
unfolding spend_and_compare save_pin_state spent_comparisons
spend_and_compare_uncounted app protocol c₁ c₂ debited none_made = elim (Bool-cases flush.1) [
  | inl cannot ↦ refused_first cannot
  | inr can ↦ elim (Bool-cases (is_read flush.0.stored_pin_state)) [
    | inr closed ↦ never_saved can closed
    | inl is_open ↦ elim (Bool-cases (is_confirmed (flush.0.store.saves 0))) [
      | inl confirmed ↦ absurd (omega (arith, counted can is_open confirmed, none_made))
      | inr unsure ↦
          spend_and_compare-is_blind app protocol c₁ c₂ debited
            (ap (λ f. is_confirmed (f 0)) (sym (unsupported_directory_flush-saves app)) ∙ unsure)
    ]
  ]
]
  where
    flush : CtapApp × Bool
    flush = unsupported_directory_flush app

    refused_first :
        flush.1 ≡ true
        → spend_and_compare app protocol c₁ debited ≡ spend_and_compare app protocol c₂ debited
    refused_first cannot = rw cannot refl

    never_saved :
        flush.1 ≡ false
        → is_read flush.0.stored_pin_state ≡ false
        → spend_and_compare app protocol c₁ debited ≡ spend_and_compare app protocol c₂ debited
    never_saved can closed = rw (can, closed) refl

    counted :
        flush.1 ≡ false
        → is_read flush.0.stored_pin_state ≡ true
        → is_confirmed (flush.0.store.saves 0) ≡ true
        → spent_comparisons app ≡ 1
    counted can is_open confirmed = rw (can, is_open, confirmed) refl

-- A check that makes no comparison tells nothing of the candidate: its outcome is the same for all.
pub uncounted-is_blind :
    (app : CtapApp) (protocol : PinProtocol) (c₁ c₂ : Option (List ℕ))
    → check_comparisons (refresh_persistent_authority app) ≡ 0
    → verify_pin_hash_enc app protocol c₁ ≡ verify_pin_hash_enc app protocol c₂
unfolding verify_pin_hash_enc
uncounted-is_blind app protocol c₁ c₂ uncounted =
    refreshed (refresh_persistent_authority app) uncounted
  where
    refreshed :
        (o : Outcome {0} Unit)
        → check_comparisons o ≡ 0
        → Path
            (Outcome {0} Unit)
            (o >>= λ app₁ t. elim (begin_attempt app₁.pin) [
              | err e ↦ failed app₁ e
              | ok debited ↦ spend_and_compare app₁ protocol c₁ debited
            ])
            (o >>= λ app₁ t. elim (begin_attempt app₁.pin) [
              | err e ↦ failed app₁ e
              | ok debited ↦ spend_and_compare app₁ protocol c₂ debited
            ])
    refreshed (failed a e) none_made = refl
    refreshed (done a t) none_made = begun (begin_attempt a.pin) none_made
      where
        begun :
            (r : Result PinRetryState)
            → attempt_comparisons a r ≡ 0
            → Path (Outcome {0} Unit) (tried a protocol c₁ r) (tried a protocol c₂ r)
        begun (err e) none_made = refl
        begun (ok debited) none_made =
            spend_and_compare_uncounted a protocol c₁ c₂ debited none_made
