-- ===== src/Pin/Verified.antt =====
-- A check of a PIN costs a stored retry: `verify_pin_hash_enc` of pin/client_pin.rs against the store.
use software_authenticator.Base.{
  if-elim, ◌⊎◌, subst, ℕ, ◌≡◌, refl, sym, ◌∙◌, ap, inl, inr, Bool, false, Option, some, List, not,
  is_none,
}
use software_authenticator.Pin.Types.{
  err, PersistentPinState, PinRetryState, CommitDurability, flushed, unconfirmed, volatile,
  DirectoryFlush, supported, unsupported, flush_failed, Saved, published, refused, CtapApp, Outcome,
  done, failed, ◌>>=◌, after, succeeds, PinProtocol, v1, v2,
}
use software_authenticator.Pin.Retry.{candidate_matches, mismatched, mismatch_error, finish_attempt}
use software_authenticator.Pin.Storage.{
  saved, save_answer, asked, ask_flush, is_read, adopt_retry_state, save_pin_state,
  unsupported_directory_flush,
}
use software_authenticator.Pin.Client.{
  require_confirmed_retry, regenerate, settle_attempt, compare_pin, spend_and_compare,
}

-- A write of the PIN state either is refused and changes nothing that is stored, or stores the state.
-- It never changes the live PIN.
pub save_pin_state-elim {ℓ} :
    (P : Outcome CommitDurability → Type ℓ) (app : CtapApp) (p : PersistentPinState)
    → ((a : CtapApp) (e : ℕ) → a.pin ≡ app.pin → a.store.stored ≡ app.store.stored → P (failed a e))
    → ((a : CtapApp) (d : CommitDurability)
        → a.pin ≡ app.pin
        → a.store.stored ≡ some p
        → P (done a d))
    → P (save_pin_state app p)
unfolding save_pin_state
save_pin_state-elim P app p on_failed on_done =
    if-elim P (not (is_read app.stored_pin_state)) _ _ (λ closed. on_failed _ _ refl refl)
      (λ is_open. answer (app.store.saves 0))
  where
    answer : (s : Saved) → P (save_answer (saved app) p s)
    answer (published d) = on_done _ d refl refl
    answer (refused e) = on_failed _ _ refl refl

-- Asking the store whether it can flush directories changes neither the PIN nor what is stored.
pub unsupported_directory_flush-keeps :
    (app : CtapApp)
    → ((unsupported_directory_flush app).0.pin ≡ app.pin)
      × ((unsupported_directory_flush app).0.store.stored ≡ app.store.stored)
unfolding unsupported_directory_flush
unsupported_directory_flush-keeps app =
    if-elim (λ (r : CtapApp × Bool). (r.0.pin ≡ app.pin) × (r.0.store.stored ≡ app.store.stored))
      (is_none app.directory_flush) _ _ (λ unknown. answer (app.store.flushes 0))
      (λ known. (refl, refl))
  where
    answer :
        (f : DirectoryFlush)
        → ((ask_flush (asked app) f).0.pin ≡ app.pin)
          × ((ask_flush (asked app) f).0.store.stored ≡ app.store.stored)
    answer supported = (refl, refl)
    answer unsupported = (refl, refl)
    answer flush_failed = (refl, refl)

-- Nothing is spent: the live PIN and the stored one are as before.
abbrev pub IsUnspent : CtapApp → CtapApp → Type 0
IsUnspent app a = (a.pin ≡ app.pin) × (a.store.stored ≡ app.store.stored)

-- The spent retry is both live and stored.
abbrev pub IsSpent : PinRetryState → CtapApp → Type 0
IsSpent debited a =
    (a.pin.persistent ≡ debited.persistent) × (a.store.stored ≡ some debited.persistent)

-- The check fails, and leaves the spent retry.
abbrev pub FailsSpent : PinRetryState → Outcome {0} Unit → Type 0
FailsSpent debited o = (succeeds o ≡ false) × IsSpent debited (after o)

finish_attempt-fails :
    (s : PinRetryState) (candidate : Option (List ℕ))
    → candidate_matches s.persistent.pin_hash candidate ≡ false
    → finish_attempt s candidate ≡ (mismatched s, err (mismatch_error (mismatched s)))
unfolding finish_attempt
finish_attempt-fails s candidate wrong = rw wrong refl

regenerate-keeps :
    (app : CtapApp) (protocol : PinProtocol)
    → ((regenerate app protocol).pin ≡ app.pin)
      × ((regenerate app protocol).store.stored ≡ app.store.stored)
regenerate-keeps app v1 = (refl, refl)
regenerate-keeps app v2 = (refl, refl)

settle_attempt-FailsSpent :
    (app : CtapApp) (protocol : PinProtocol) (debited completed : PinRetryState) (e : ℕ)
    → completed.persistent ≡ debited.persistent
    → app.store.stored ≡ some debited.persistent
    → FailsSpent debited (settle_attempt app protocol (completed, err e))
settle_attempt-FailsSpent app protocol debited completed e same stored =
    save_pin_state-elim
      (λ o. FailsSpent debited (
        o >>= λ app₁ durability.
        require_confirmed_retry app₁ durability >>= λ app₂ t. failed app₂ e))
      (regenerate (adopt_retry_state app completed) protocol) completed.persistent
      (λ a e pin kept.
        (refl, (ap (λ s. s.persistent) (pin ∙ kept_live.0) ∙ same, kept ∙ kept_live.1 ∙ stored)))
      (λ a d pin written. confirmed a d (pin ∙ kept_live.0) written)
  where
    kept_live :
        ((regenerate (adopt_retry_state app completed) protocol).pin ≡ completed)
        × ((regenerate (adopt_retry_state app completed) protocol).store.stored ≡ app.store.stored)
    kept_live = regenerate-keeps (adopt_retry_state app completed) protocol

    confirmed :
        (a : CtapApp) (d : CommitDurability)
        → a.pin ≡ completed
        → a.store.stored ≡ some completed.persistent
        → FailsSpent debited (require_confirmed_retry a d >>= λ app₂ t. failed app₂ e)
    confirmed a flushed pin written =
        (refl, (ap (λ s. s.persistent) pin ∙ same, written ∙ ap some same))
    confirmed a unconfirmed pin written =
        (refl, (ap (λ s. s.persistent) pin ∙ same, written ∙ ap some same))
    confirmed a volatile pin written =
        (refl, (ap (λ s. s.persistent) pin ∙ same, written ∙ ap some same))

pub compare_pin-FailsSpent :
    (app : CtapApp) (protocol : PinProtocol) (candidate : Option (List ℕ)) (debited : PinRetryState)
    → app.pin ≡ debited
    → app.store.stored ≡ some debited.persistent
    → candidate_matches debited.persistent.pin_hash candidate ≡ false
    → FailsSpent debited (compare_pin app protocol candidate)
unfolding compare_pin
compare_pin-FailsSpent app protocol candidate debited live stored wrong =
    subst (λ r. FailsSpent debited (settle_attempt app protocol r))
      (sym (finish_attempt-fails app.pin candidate wrong_here))
      (settle_attempt-FailsSpent app protocol debited (mismatched app.pin) _ same stored)
  where
    same : app.pin.persistent ≡ debited.persistent
    same = ap (λ s. s.persistent) live

    wrong_here : candidate_matches app.pin.persistent.pin_hash candidate ≡ false
    wrong_here = ap (λ p. candidate_matches p.pin_hash candidate) same ∙ wrong

-- When the candidate is not the hash of the PIN, the check fails, whatever the store answers; and
-- either nothing was spent, live or stored, or the retry is spent in the live state and in the store.
pub spend_and_compare-costs_a_retry :
    (app : CtapApp) (protocol : PinProtocol) (candidate : Option (List ℕ)) (debited : PinRetryState)
    → candidate_matches debited.persistent.pin_hash candidate ≡ false
    → (succeeds (spend_and_compare app protocol candidate debited) ≡ false)
      × (IsUnspent app (after (spend_and_compare app protocol candidate debited))
          ⊎ IsSpent debited (after (spend_and_compare app protocol candidate debited)))
unfolding spend_and_compare
spend_and_compare-costs_a_retry app protocol candidate debited wrong =
    if-elim Goal flush.1 _ _ (λ refused. (refl, inl (unsupported_directory_flush-keeps app)))
      (λ asked.
        save_pin_state-elim (λ o. Goal (o >>= rest)) flush.0 debited.persistent
          (λ a e pin kept. (
            refl,
            inl (
              pin ∙ (unsupported_directory_flush-keeps app).0,
              kept ∙ (unsupported_directory_flush-keeps app).1,
            ),
          ))
          stored)
  where
    flush : CtapApp × Bool
    flush = unsupported_directory_flush app

    Goal : Outcome {0} Unit → Type 0
    Goal o = (succeeds o ≡ false) × (IsUnspent app (after o) ⊎ IsSpent debited (after o))

    rest : CtapApp → CommitDurability → Outcome {0} Unit
    rest a d = require_confirmed_retry (adopt_retry_state a debited) d >>= λ app₂ t.
        compare_pin app₂ protocol candidate

    compared :
        (a : CtapApp)
        → a.store.stored ≡ some debited.persistent
        → Goal (compare_pin (adopt_retry_state a debited) protocol candidate)
    compared a written =
        let failing =
          compare_pin-FailsSpent (adopt_retry_state a debited) protocol candidate debited refl
            written wrong in
        (failing.0, inr failing.1)

    stored :
        (a : CtapApp) (d : CommitDurability)
        → a.pin ≡ flush.0.pin
        → a.store.stored ≡ some debited.persistent
        → Goal (rest a d)
    stored a flushed pin written = compared a written
    stored a volatile pin written = compared a written
    stored a unconfirmed pin written = (refl, inr (refl, written))
