-- ===== src/Pin/Guesses.antt =====
-- How many PINs can be tried between two starts of the engine: the count of consecutive mismatches over
-- `PinRetryState` of pin/state.rs, as `verify_pin_hash_enc` of pin/client_pin.rs uses it.
use software_authenticator.Base.{
  subst, ◌⊎◌, ℕ, ◌+◌, ◌≤◌, ◌<◌, ◌≡◌, refl, sym, inl, inr, true, false, Option, List, [], ◌∷◌, arith,
  All,
}
use software_authenticator.Pin.Types.{ok, err, PinRetryState, max_consecutive_pin_mismatches}
use software_authenticator.Pin.Retry.{
  power_up, is_set, debit, begin_attempt, candidate_matches, mismatched, finish_attempt,
}

-- What becomes of the write of a spent retry: it is refused, published but not known to last, or
-- confirmed.
pub data Debit : Type 0 where
  refused : Debit
  unconfirmed : Debit
  confirmed : Debit

-- A candidate PIN hash that is sent, with what becomes of its retry, or a restart.
pub data Event : Type 0 where
  guess : Debit → Option (List ℕ) → Event
  restart : Event

-- The state after the write of the spent retry, and the comparison that only a confirmed one allows.
abbrev spend : PinRetryState → PinRetryState → Debit → Option (List ℕ) → PinRetryState × ℕ
spend s debited refused candidate = (s, 0)
spend s debited unconfirmed candidate = (debited, 0)
spend s debited confirmed candidate = ((finish_attempt debited candidate).0, 1)

-- A guess, with the number of comparisons.
unfoldable pub try_guess : PinRetryState → Debit → Option (List ℕ) → PinRetryState × ℕ
try_guess s write candidate = elim (begin_attempt s) [
  | err e ↦ (s, 0)
  | ok debited ↦ spend s debited write candidate
]

unfoldable pub event : PinRetryState → Event → PinRetryState × ℕ
event s (guess write candidate) = try_guess s write candidate
event s restart = (power_up s.persistent, 0)

unfoldable pub events : PinRetryState → List Event → PinRetryState × ℕ
events s [] = (s, 0)
events s (e ∷ es) = let next = event s e in let rest = events next.0 es in (rest.0, next.1 + rest.1)

abbrev pub retries : PinRetryState → ℕ
retries s = s.persistent.pin_retries

-- The event does not send the hash of the PIN.
abbrev pub IsWrong : Option (List ℕ) → Event → Type 0
IsWrong pin (guess write candidate) = candidate_matches pin candidate ≡ false
IsWrong pin restart = Unit

abbrev pub IsGuess : Event → Type 0
IsGuess (guess write candidate) = Unit
IsGuess restart = ⊥

-- A guess is refused, or it spends one of the retries.
pub begin_attempt-cases :
    (s : PinRetryState)
    → ((e : ℕ) × (begin_attempt s ≡ err e))
      ⊎ ((begin_attempt s ≡ ok (debit s))
          × (1 ≤ retries s)
          × (s.consecutive_mismatches < max_consecutive_pin_mismatches)
          × (is_set s ≡ true))
unfolding begin_attempt
begin_attempt-cases s = ground arith

-- A comparison without a match leaves the persistent state alone and counts the mismatch.
pub finish_attempt-mismatched :
    (s : PinRetryState) (candidate : Option (List ℕ))
    → candidate_matches s.persistent.pin_hash candidate ≡ false
    → (finish_attempt s candidate).0 ≡ mismatched s
unfolding finish_attempt
finish_attempt-mismatched s candidate wrong = rw wrong refl

-- A wrong guess keeps the PIN, and each comparison is counted as a mismatch.
abbrev Counts : PinRetryState → PinRetryState × ℕ → Type 0
Counts s r =
    (r.0.persistent.pin_hash ≡ s.persistent.pin_hash)
    × (r.1 + s.consecutive_mismatches ≡ r.0.consecutive_mismatches)
    × (r.0.consecutive_mismatches ≤ max_consecutive_pin_mismatches)

spend-Counts :
    (s : PinRetryState) (write : Debit) (candidate : Option (List ℕ))
    → candidate_matches s.persistent.pin_hash candidate ≡ false
    → s.consecutive_mismatches < max_consecutive_pin_mismatches
    → Counts s (spend s (debit s) write candidate)
spend-Counts s refused candidate wrong few = (refl, omega arith, omega arith)
spend-Counts s unconfirmed candidate wrong few = (refl, omega arith, omega arith)
spend-Counts s confirmed candidate wrong few =
    subst (λ t. Counts s (t, 1)) (sym (finish_attempt-mismatched (debit s) candidate wrong))
      (refl, ground arith, ground arith)

try_guess-Counts :
    (s : PinRetryState) (write : Debit) (candidate : Option (List ℕ))
    → candidate_matches s.persistent.pin_hash candidate ≡ false
    → s.consecutive_mismatches ≤ max_consecutive_pin_mismatches
    → Counts s (try_guess s write candidate)
unfolding try_guess
try_guess-Counts s write candidate wrong bound = elim (begin_attempt-cases s) [
  | inl (e, barred) ↦ rw (try_guess, barred) (refl, omega arith, bound)
  | inr (debited, some_left, few, set) ↦
      rw (try_guess, debited) (spend-Counts s write candidate wrong few)
]

event-Counts :
    (s : PinRetryState) (e : Event)
    → IsWrong s.persistent.pin_hash e
    → IsGuess e
    → s.consecutive_mismatches ≤ max_consecutive_pin_mismatches
    → Counts s (event s e)
unfolding event
event-Counts s (guess write candidate) wrong is_guess bound =
    try_guess-Counts s write candidate wrong bound
event-Counts s restart wrong is_guess bound = absurd is_guess

-- From a state with at most three consecutive mismatches, a sequence of wrong guesses without a restart
-- makes at most as many comparisons as are left to three, whatever becomes of the write of each spent
-- retry.
pub events-three_per_power_up :
    (s : PinRetryState) (es : List Event)
    → All (IsWrong s.persistent.pin_hash) es
    → All IsGuess es
    → s.consecutive_mismatches ≤ max_consecutive_pin_mismatches
    → (events s es).1 + s.consecutive_mismatches ≤ max_consecutive_pin_mismatches
unfolding events
events-three_per_power_up s [] wrong guesses bound = omega arith
events-three_per_power_up s (e ∷ es) wrong guesses bound =
    let counted = event-Counts s e wrong.0 guesses.0 bound in
    let rest =
      events-three_per_power_up (event s e).0 es
        (subst (λ pin. All (IsWrong pin) es) (sym counted.0) wrong.1) guesses.1 counted.2 in
    omega (arith, counted.1, rest)
