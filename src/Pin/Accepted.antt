-- ===== src/Pin/Accepted.antt =====
-- What an accepted PIN means, and that a check whose spent retry is not stored for certain tells
-- nothing of the PIN: `verify_pin_hash_enc` of pin/client_pin.rs.
use software_authenticator.Base.{
  if-elim, subst, ℕ, ◌≡◌, refl, sym, ◌∙◌, ap, inl, inr, Bool, true, false, Option, some, List,
  Bool-cases, arith, if◌then◌else◌, is_none,
}
use software_authenticator.Pin.Types.{
  Result, ok, err, PinRetryState, CommitDurability, flushed, unconfirmed, volatile, DirectoryFlush,
  supported, unsupported, flush_failed, Saved, published, refused, CtapApp, Outcome, done, failed,
  ◌>>=◌, after, succeeds, PinProtocol, max_pin_retries, ctap2_err_processing,
}
use software_authenticator.Pin.Retry.{begin_attempt, candidate_matches, matched, finish_attempt}
use software_authenticator.Pin.Storage.{
  saved, save_answer, asked, ask_flush, is_read, adopt_retry_state, save_pin_state,
  unsupported_directory_flush, refresh_persistent_authority,
}
use software_authenticator.Pin.Client.{
  require_confirmed_retry, settle_attempt, compare_pin, spend_and_compare, verify_pin_hash_enc,
}
use software_authenticator.Pin.Verified.{save_pin_state-elim, spend_and_compare-costs_a_retry}

-- The candidate was the hash of the PIN, all retries are back, no mismatch is counted, and the store
-- holds the live state.
abbrev pub IsAccepted : Option (List ℕ) → CtapApp → Type 0
IsAccepted candidate a =
    (candidate_matches a.pin.persistent.pin_hash candidate ≡ true)
    × (a.pin.persistent.pin_retries ≡ max_pin_retries)
    × (a.pin.consecutive_mismatches ≡ 0)
    × (a.store.stored ≡ some a.pin.persistent)

abbrev Accepts : Option (List ℕ) → Outcome {0} Unit → Type 0
Accepts candidate o = succeeds o ≡ true → IsAccepted candidate (after o)

not_both : {b : Bool} → b ≡ true → b ≡ false → ⊥
not_both is_true is_false = apart (sym is_true ∙ is_false)
  where
    apart : true ≡ false → ⊥
    apart e = ground arith

finish_attempt-succeeds :
    (s : PinRetryState) (candidate : Option (List ℕ))
    → candidate_matches s.persistent.pin_hash candidate ≡ true
    → finish_attempt s candidate ≡ (matched s, ok tt)
unfolding finish_attempt
finish_attempt-succeeds s candidate right = rw right refl

compare_pin-Accepts :
    (app : CtapApp) (protocol : PinProtocol) (candidate : Option (List ℕ))
    → candidate_matches app.pin.persistent.pin_hash candidate ≡ true
    → Accepts candidate (compare_pin app protocol candidate)
unfolding compare_pin
compare_pin-Accepts app protocol candidate right =
    subst (λ r. Accepts candidate (settle_attempt app protocol r))
      (sym (finish_attempt-succeeds app.pin candidate right))
      (save_pin_state-elim
        (λ o. Accepts candidate (
          o >>= λ app₁ durability.
          require_confirmed_retry (adopt_retry_state app₁ (matched app.pin)) durability))
        app (matched app.pin).persistent (λ a e pin kept accepted. absurd (not_both accepted refl))
        (λ a d pin written. adopted a d written))
  where
    adopted :
        (a : CtapApp) (d : CommitDurability)
        → a.store.stored ≡ some (matched app.pin).persistent
        → Accepts candidate (require_confirmed_retry (adopt_retry_state a (matched app.pin)) d)
    adopted a flushed written accepted = (right, refl, refl, written)
    adopted a volatile written accepted = (right, refl, refl, written)
    adopted a unconfirmed written accepted = absurd (not_both accepted refl)

spend_and_compare-Accepts :
    (app : CtapApp) (protocol : PinProtocol) (candidate : Option (List ℕ)) (debited : PinRetryState)
    → Accepts candidate (spend_and_compare app protocol candidate debited)
unfolding spend_and_compare
spend_and_compare-Accepts app protocol candidate debited = elim (Bool-cases matching) [
  | inr wrong ↦ λ accepted.
      absurd
        (not_both accepted (spend_and_compare-costs_a_retry app protocol candidate debited wrong).0)
  | inl right ↦
      if-elim (Accepts candidate) flush.1 _ _ (λ refused accepted. absurd (not_both accepted refl))
        (λ asked.
          save_pin_state-elim (λ o. Accepts candidate (o >>= rest)) flush.0 debited.persistent
            (λ a e pin kept accepted. absurd (not_both accepted refl))
            (λ a d pin written. compared right a d))
]
  where
    matching : Bool
    matching = candidate_matches debited.persistent.pin_hash candidate

    flush : CtapApp × Bool
    flush = unsupported_directory_flush app

    rest : CtapApp → CommitDurability → Outcome {0} Unit
    rest a d = require_confirmed_retry (adopt_retry_state a debited) d >>= λ app₂ t.
        compare_pin app₂ protocol candidate

    compared : matching ≡ true → (a : CtapApp) (d : CommitDurability) → Accepts candidate (rest a d)
    compared right a flushed =
        compare_pin-Accepts (adopt_retry_state a debited) protocol candidate right
    compared right a volatile =
        compare_pin-Accepts (adopt_retry_state a debited) protocol candidate right
    compared right a unconfirmed = λ accepted. absurd (not_both accepted refl)

-- If the check of a PIN succeeds, the candidate is the hash of the PIN, all eight retries are back with
-- no mismatch counted, and the store holds this state.
pub verify_pin_hash_enc-IsAccepted :
    (app : CtapApp) (protocol : PinProtocol) (candidate : Option (List ℕ))
    → succeeds (verify_pin_hash_enc app protocol candidate) ≡ true
    → IsAccepted candidate (after (verify_pin_hash_enc app protocol candidate))
unfolding verify_pin_hash_enc
verify_pin_hash_enc-IsAccepted app protocol candidate = refreshed (refresh_persistent_authority app)
  where
    attempted :
        (a : CtapApp) (r : Result PinRetryState)
        → Accepts candidate (elim r [
          | err e ↦ failed a e
          | ok debited ↦ spend_and_compare a protocol candidate debited
        ])
    attempted a (err e) accepted = absurd (not_both accepted refl)
    attempted a (ok debited) accepted =
        spend_and_compare-Accepts a protocol candidate debited accepted

    refreshed :
        (o : Outcome {0} Unit)
        → Accepts candidate (
            o >>= λ app₁ t. elim (begin_attempt app₁.pin) [
              | err e ↦ failed app₁ e
              | ok debited ↦ spend_and_compare app₁ protocol candidate debited
            ])
    refreshed (done a t) accepted = attempted a (begin_attempt a.pin) accepted
    refreshed (failed a e) accepted = absurd (not_both accepted refl)

-- The write is published and known to last.
abbrev pub is_confirmed : Saved → Bool
is_confirmed (published unconfirmed) = false
is_confirmed (published _) = true
is_confirmed (refused e) = false

pub unsupported_directory_flush-saves :
    (app : CtapApp) → (unsupported_directory_flush app).0.store.saves ≡ app.store.saves
unfolding unsupported_directory_flush
unsupported_directory_flush-saves app =
    if-elim (λ (r : CtapApp × Bool). r.0.store.saves ≡ app.store.saves)
      (is_none app.directory_flush) _ _ (λ unknown. answer (app.store.flushes 0)) (λ known. refl)
  where
    answer : (f : DirectoryFlush) → (ask_flush (asked app) f).0.store.saves ≡ app.store.saves
    answer supported = refl
    answer unsupported = refl
    answer flush_failed = refl

-- When the write of the spent retry is refused or is not known to last, the answer and the state left
-- behind are the same for every candidate: the PIN is not compared.
pub spend_and_compare-is_blind :
    (app : CtapApp) (protocol : PinProtocol) (c₁ c₂ : Option (List ℕ)) (debited : PinRetryState)
    → is_confirmed (app.store.saves 0) ≡ false
    → spend_and_compare app protocol c₁ debited ≡ spend_and_compare app protocol c₂ debited
unfolding spend_and_compare save_pin_state
spend_and_compare-is_blind app protocol c₁ c₂ debited unsure =
    ap (λ o. if flush.1 then failed flush.0 ctap2_err_processing else o) saved_equally
  where
    flush : CtapApp × Bool
    flush = unsupported_directory_flush app

    rest : Option (List ℕ) → CtapApp → CommitDurability → Outcome {0} Unit
    rest c a d = require_confirmed_retry (adopt_retry_state a debited) d >>= λ app₂ t.
        compare_pin app₂ protocol c

    unsure_here : is_confirmed (flush.0.store.saves 0) ≡ false
    unsure_here = ap (λ f. is_confirmed (f 0)) (unsupported_directory_flush-saves app) ∙ unsure

    answered :
        (s : Saved)
        → is_confirmed s ≡ false
        → (save_answer (saved flush.0) debited.persistent s >>= rest c₁)
          ≡ (save_answer (saved flush.0) debited.persistent s >>= rest c₂)
    answered (published flushed) unsure_s = absurd (not_both refl unsure_s)
    answered (published volatile) unsure_s = absurd (not_both refl unsure_s)
    answered (published unconfirmed) unsure_s = refl
    answered (refused e) unsure_s = refl

    saved_equally :
        (save_pin_state flush.0 debited.persistent >>= rest c₁)
        ≡ (save_pin_state flush.0 debited.persistent >>= rest c₂)
    saved_equally = elim (Bool-cases (is_read flush.0.stored_pin_state)) [
      | inr closed ↦ rw closed refl
      | inl is_open ↦ rw is_open (answered (flush.0.store.saves 0) unsure_here)
    ]
