-- ===== src/Pin/Paid.antt =====
-- What comparisons cost: `verify_pin_hash_enc` of pin/client_pin.rs over any number of checks and starts.
use software_authenticator.Base.{
  if-elim, subst, ◌⊎◌, ℕ, ◌+◌, ◌≤◌, ◌≡◌, refl, sym, ◌∙◌, ap, inl, inr, Bool, false, Option, none,
  some, List, [], ◌∷◌, arith, All, if◌then◌else◌, Bool-cases,
}
use software_authenticator.Pin.Types.{
  ok, err, PersistentPinState, PinRetryState, StoredPinState, unread, unreadable, StoreError,
  CommitDurability, flushed, unconfirmed, volatile, Saved, published, refused, CtapApp, Outcome,
  done, failed, ◌>>=◌, after, PinProtocol,
}
use software_authenticator.Pin.Retry.{debit, begin_attempt, candidate_matches}
use software_authenticator.Pin.Storage.{
  saved, save_answer, is_read, adopt_retry_state, save_pin_state, unsupported_directory_flush,
  load_pin_state, tokens_eq, changed_pin, closes_authority, refresh_persistent_authority,
  refresh_from,
}
use software_authenticator.Pin.Client.{
  require_confirmed_retry, compare_pin, spend_and_compare, verify_pin_hash_enc,
}
use software_authenticator.Pin.Guesses.{begin_attempt-cases}
use software_authenticator.Pin.Verified.{
  IsUnspent, IsSpent, unsupported_directory_flush-keeps, compare_pin-FailsSpent,
}
use software_authenticator.Pin.Accepted.{is_confirmed}
use software_authenticator.Pin.Attempts.{
  Attempt, check, start_up, read_back, loading, reading, started, spent_comparisons,
  attempt_comparisons, check_comparisons, attempt, attempts, stored_retries, IsWrongAttempt, tried,
}

-- The live state allows no check, or has the PIN of the stored one and no more retries.
abbrev pub IsCovered : PersistentPinState → PersistentPinState → Type 0
IsCovered stored live =
    (live.pin_retries ≡ 0)
    ⊎ ((live.pin_hash ≡ stored.pin_hash) × (live.pin_retries ≤ stored.pin_retries))

-- The store holds this state, which covers the live one.
abbrev Holds : PersistentPinState → CtapApp → Type 0
Holds p app = (app.store.stored ≡ some p) × IsCovered p app.pin.persistent

-- The stored PIN is kept, and each comparison is paid for with a stored retry.
abbrev Pays : PersistentPinState → CtapApp × ℕ → Type 0
Pays p r =
    (q : PersistentPinState) × (q.pin_hash ≡ p.pin_hash)
    × (r.1 + q.pin_retries ≤ p.pin_retries)
    × Holds q r.0

-- A check either leaves everything and compares nothing, or it leaves the spent retry.
abbrev Spends : CtapApp → PinRetryState → Outcome {0} Unit → ℕ → Type 0
Spends app debited o count =
    ((count ≡ 0) × IsUnspent app (after o)) ⊎ ((count ≤ 1) × IsSpent debited (after o))

spend_and_compare-Spends :
    (app : CtapApp) (protocol : PinProtocol) (candidate : Option (List ℕ)) (debited : PinRetryState)
    → candidate_matches debited.persistent.pin_hash candidate ≡ false
    → Spends app debited (spend_and_compare app protocol candidate debited) (spent_comparisons app)
unfolding spend_and_compare spent_comparisons save_pin_state
spend_and_compare-Spends app protocol candidate debited wrong = elim (Bool-cases flush.1) [
  | inl cannot ↦ rw cannot (inl (refl, unsupported_directory_flush-keeps app))
  | inr can ↦ elim (Bool-cases (is_read flush.0.stored_pin_state)) [
    | inr closed ↦ rw (can, closed) (inl (refl, unsupported_directory_flush-keeps app))
    | inl is_open ↦ rw (can, is_open) (answered (flush.0.store.saves 0))
  ]
]
  where
    flush : CtapApp × Bool
    flush = unsupported_directory_flush app

    rest : CtapApp → CommitDurability → Outcome {0} Unit
    rest a d = require_confirmed_retry (adopt_retry_state a debited) d >>= λ app₂ t.
        compare_pin app₂ protocol candidate

    compared :
        (a : CtapApp)
        → a.store.stored ≡ some debited.persistent
        → IsSpent debited (after (compare_pin (adopt_retry_state a debited) protocol candidate))
    compared a written =
        (compare_pin-FailsSpent (adopt_retry_state a debited) protocol candidate debited refl
          written wrong).1

    written : CtapApp
    written = after (save_answer (saved flush.0) debited.persistent (published flushed))

    answered :
        (s : Saved)
        → Spends app debited
            (save_answer (saved flush.0) debited.persistent s >>= rest)
            (if is_confirmed s then 1 else 0)
    answered (refused e) = inl (refl, unsupported_directory_flush-keeps app)
    answered (published unconfirmed) = inr (omega arith, (refl, refl))
    answered (published flushed) = inr (omega arith, compared written refl)
    answered (published volatile) = inr (omega arith, compared written refl)

tried-Pays :
    (app : CtapApp) (protocol : PinProtocol) (candidate : Option (List ℕ)) (p : PersistentPinState)
    → Holds p app
    → candidate_matches p.pin_hash candidate ≡ false
    → Pays p (
      after (tried app protocol candidate (begin_attempt app.pin)),
      attempt_comparisons app (begin_attempt app.pin),
    )
tried-Pays app protocol candidate p (stored, inl none_left) wrong =
    elim (begin_attempt-cases app.pin) [
      | inl (e, barred) ↦ rw barred (p, refl, omega arith, (stored, inl none_left))
      | inr (debited, some_left, few, set) ↦ absurd (omega (arith, none_left))
    ]
tried-Pays app protocol candidate p (stored, inr (same, covered)) wrong =
    elim (begin_attempt-cases app.pin) [
      | inl (e, barred) ↦ rw barred (p, refl, omega arith, (stored, inr (same, covered)))
      | inr (debited, some_left, few, set) ↦ rw debited (
          paid some_left (
            spend_and_compare-Spends app protocol candidate (debit app.pin)
              (ap (λ h. candidate_matches h candidate) same ∙ wrong)))
    ]
  where
    paid :
        1 ≤ app.pin.persistent.pin_retries
        → Spends app
            (debit app.pin)
            (spend_and_compare app protocol candidate (debit app.pin))
            (spent_comparisons app)
        → Pays p (
          after (spend_and_compare app protocol candidate (debit app.pin)),
          spent_comparisons app,
        )
    paid some_left (inl (no_comparison, (pin, kept))) = (
      p,
      refl,
      omega (arith, no_comparison),
      (
        kept ∙ stored,
        subst (λ (s : PinRetryState). IsCovered p s.persistent) (sym pin) (inr (same, covered)),
      ),
    )
    paid some_left (inr (one, (live, kept))) = (
      (debit app.pin).persistent,
      same,
      omega arith,
      (kept, subst (IsCovered (debit app.pin).persistent) (sym live) (inr (refl, omega arith))),
    )

-- What is read back: the stored state, as covered by itself as by its limit of retries.
refresh_from-Holds :
    (app : CtapApp) (p : PersistentPinState) (e : Option StoreError) (s : StoredPinState)
    → Holds p app
    → Holds p (after (refresh_from s (loading app (read_back (some p) e))))
refresh_from-Holds app p none StoredPinState.read (stored, covered) =
    if-elim (λ a. Holds p a) (changed_pin app.pin.persistent p) _ _
      (λ changed. (stored, inr (refl, omega arith)))
      (λ unchanged.
        if-elim (λ a. Holds p a) (tokens_eq app.pin.persistent p) _ _ (λ same. (stored, covered))
          (λ other. (stored, inr (refl, omega arith))))
refresh_from-Holds app p (some e) StoredPinState.read (stored, covered) =
    if-elim (λ (o : Outcome {0} Unit). Holds p (after o)) (closes_authority e) _ _
      (λ closes. (stored, inl refl)) (λ kept. (stored, covered))
refresh_from-Holds app p none unread (stored, covered) = (stored, inr (refl, ground arith))
refresh_from-Holds app p (some e) unread (stored, covered) =
    elim (Bool-cases (closes_authority e)) [
      | inl closes ↦ rw closes (stored, covered)
      | inr stays ↦ rw stays (stored, covered)
    ]
refresh_from-Holds app p e unreadable (stored, covered) = (stored, covered)

refresh-Holds :
    (app : CtapApp) (e : Option StoreError) (p : PersistentPinState)
    → Holds p app
    → Holds p (after (refresh_persistent_authority (reading app e)))
unfolding refresh_persistent_authority
refresh-Holds app e p (stored, covered) =
    subst (λ o. Holds p (after (refresh_from app.stored_pin_state (loading app (read_back o e)))))
      (sym stored) (refresh_from-Holds app p e app.stored_pin_state (stored, covered))

check-Pays :
    (app : CtapApp) (e : Option StoreError) (protocol : PinProtocol) (candidate : Option (List ℕ))
    (p : PersistentPinState)
    → Holds p app
    → candidate_matches p.pin_hash candidate ≡ false
    → Pays p (attempt app (check e protocol candidate))
unfolding attempt verify_pin_hash_enc
check-Pays app e protocol candidate p held wrong =
    refreshed (refresh_persistent_authority (reading app e)) (refresh-Holds app e p held)
  where
    refreshed :
        (o : Outcome {0} Unit)
        → Holds p (after o)
        → Pays p (
          after (
              o >>= λ app₁ t. elim (begin_attempt app₁.pin) [
                | err e ↦ failed app₁ e
                | ok debited ↦ spend_and_compare app₁ protocol candidate debited
              ]),
          check_comparisons o,
        )
    refreshed (done a t) held = tried-Pays a protocol candidate p held wrong
    refreshed (failed a e) held = (p, refl, omega arith, held)

start_up-Pays :
    (app : CtapApp) (e : Option StoreError) (hash : List ℕ) (p : PersistentPinState)
    → Holds p app
    → Pays p (attempt app (start_up e hash))
unfolding attempt
start_up-Pays app e hash p (stored, covered) =
    subst (λ o. Pays p (started app (load_pin_state (read_back o e) hash), 0)) (sym stored)
      (p, refl, omega arith, from e)
  where
    from :
        (e : Option StoreError) → Holds p (started app (load_pin_state (read_back (some p) e) hash))
    from none = (stored, inr (refl, ground arith))
    from (some e) = (stored, inl refl)

attempt-Pays :
    (app : CtapApp) (a : Attempt) (p : PersistentPinState)
    → Holds p app
    → IsWrongAttempt p.pin_hash a
    → Pays p (attempt app a)
attempt-Pays app (check e protocol candidate) p held wrong =
    check-Pays app e protocol candidate p held wrong
attempt-Pays app (start_up e hash) p held wrong = start_up-Pays app e hash p held

-- Where the store holds a PIN state that covers the live one, any sequence of checks of wrong candidates
-- and starts of the engine, with reads and writes that may fail and writes that may be unconfirmed,
-- compares candidates with the PIN at most as often as the stored retry counter goes down by, and never
-- raises it. A read that does not fail gives back what was last published.
pub attempts-pay_for_comparisons :
    (app : CtapApp) (es : List Attempt) (p : PersistentPinState)
    → app.store.stored ≡ some p
    → IsCovered p app.pin.persistent
    → All (IsWrongAttempt p.pin_hash) es
    → (attempts app es).1 + stored_retries (attempts app es).0 ≤ p.pin_retries
unfolding attempts
attempts-pay_for_comparisons app [] p stored covered wrong = rw stored (omega arith)
attempts-pay_for_comparisons app (e ∷ es) p stored covered wrong =
    let (q, same, paid, (stored_q, covered_q)) = attempt-Pays app e p (stored, covered) wrong.0 in
    let rest =
      attempts-pay_for_comparisons (attempt app e).0 es q stored_q covered_q
        (subst (λ pin. All (IsWrongAttempt pin) es) (sym same) wrong.1) in
    omega (arith, paid, rest)
