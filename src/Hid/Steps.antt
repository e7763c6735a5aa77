-- ===== src/Hid/Steps.antt =====
-- Histories of a `CtaphidHost` (ctaphid_host.rs): the calls that the transport makes, in any order.
use software_authenticator.Base.{
  ℕ, ◌≤◌, ◌<◌, ◌≡◌, Bool, Option, List, [], ◌∷◌, arith, length, subst, All,
}
use software_authenticator.Hid.Types.{
  Version, CtapHidFrame, OutgoingFrame, Receiving, receiving, CtaphidHost, with_rng, set_version,
  set_capabilities, max_message_size,
}
use software_authenticator.Hid.Output.{outgoing_frame_written}
use software_authenticator.Hid.Input.{handle_frame}
use software_authenticator.Hid.Timers.{
  handle_timeout, send_keepalive, take_identification_request, identification_response,
}
use software_authenticator.Hid.App.{
  app_presence, app_presence_finished, reset_u2f, set_u2f_enabled, take_app_request, take_interrupt,
  app_response,
}
use software_authenticator.Hid.Invariant.{IsValid, IsOwned, IsPartial}
use software_authenticator.Hid.Invariant.Queue.{outgoing_frame_written-IsValid}
use software_authenticator.Hid.Invariant.Input.{handle_frame-IsValid}
use software_authenticator.Hid.Invariant.Others.{
  with_rng-IsValid, handle_timeout-IsValid, send_keepalive-IsValid,
  take_identification_request-IsValid, identification_response-IsValid, app_presence-IsValid,
  app_presence_finished-IsValid, set_u2f_enabled-IsValid, take_app_request-IsValid,
  take_interrupt-IsValid, app_response-IsValid,
}

-- The public operations that change the host, with their arguments.
pub data Call : Type 0 where
  versions : Version → Call
  capabilities : ℕ → Call
  frames : CtapHidFrame → (now : ℕ) → Call
  timeouts : (now : ℕ) → Call
  presence : (waiting : Bool) → Call
  presence_finished : (at : ℕ) → Call
  enables_u2f : Bool → Call
  resets_u2f : Call
  keepalives : (waiting : Bool) (now : ℕ) → Call
  takes_identification : Call
  identified : (token : ℕ) (delivered : Bool) (now : ℕ) → Call
  takes_request : Call
  takes_interrupt : Call
  responds : (response : List ℕ) (now : ℕ) (finished : Option ℕ) → Call
  written : OutgoingFrame → Call

unfoldable pub step : CtaphidHost → Call → CtaphidHost
step h (versions v) = set_version h v
step h (capabilities n) = set_capabilities h n
step h (frames f now) = handle_frame h f now
step h (timeouts now) = handle_timeout h now
step h (presence waiting) = app_presence h waiting
step h (presence_finished at) = app_presence_finished h at
step h (enables_u2f enabled) = set_u2f_enabled h enabled
step h resets_u2f = reset_u2f h
step h (keepalives waiting now) = (send_keepalive h waiting now).0
step h takes_identification = (take_identification_request h).0
step h (identified token delivered now) = identification_response h token delivered now
step h takes_request = (take_app_request h).0
step h takes_interrupt = (take_interrupt h).0
step h (responds response now finished) = app_response h response now finished
step h (written frame) = (outgoing_frame_written h frame).0

unfoldable pub run : CtaphidHost → List Call → CtaphidHost
run h [] = h
run h (c ∷ cs) = run (step h c) cs

-- A report from the device has 64 bytes.
abbrev pub IsCall : Call → Type 0
IsCall (frames f now) = length f ≡ 64
IsCall _ = Unit

step-IsValid : (h : CtaphidHost) (c : Call) → IsCall c → IsValid h → IsValid (step h c)
unfolding step set_version set_capabilities reset_u2f
step-IsValid h (versions n) w v = record { base = v.base; owned = v.owned }
step-IsValid h (capabilities n) w v = record { base = v.base; owned = v.owned }
step-IsValid h (frames f now) w v = handle_frame-IsValid h f now w v
step-IsValid h (timeouts now) w v = handle_timeout-IsValid h now v
step-IsValid h (presence waiting) w v = app_presence-IsValid h v waiting
step-IsValid h (presence_finished at) w v = app_presence_finished-IsValid h v at
step-IsValid h (enables_u2f enabled) w v = set_u2f_enabled-IsValid h v enabled
step-IsValid h resets_u2f w v = record { base = v.base; owned = v.owned }
step-IsValid h (keepalives waiting now) w v = send_keepalive-IsValid h v waiting now
step-IsValid h takes_identification w v = take_identification_request-IsValid h v
step-IsValid h (identified token delivered now) w v =
    identification_response-IsValid h v token delivered now
step-IsValid h takes_request w v = take_app_request-IsValid h v
step-IsValid h takes_interrupt w v = take_interrupt-IsValid h v
step-IsValid h (responds response now finished) w v = app_response-IsValid h v response now finished
step-IsValid h (written frame) w v = outgoing_frame_written-IsValid h frame v

-- From a valid host every sequence of calls leads to a valid host.
pub run-IsValid :
    (h : CtaphidHost) (cs : List Call) → All IsCall cs → IsValid h → IsValid (run h cs)
unfolding run
run-IsValid h [] w v = v
run-IsValid h (c ∷ cs) w v = run-IsValid (step h c) cs w.1 (step-IsValid h c w.0 v)

-- A new host, whatever its random numbers, is valid after every sequence of calls with whole
-- reports: its queued tokens rise and stay below the next one, its channel table has at most 256
-- distinct entries and neither 0 nor the broadcast channel, a lease has such an owner, the app is
-- busy exactly when its command is known, and the state's own facts hold (the final report of a
-- response is queued, a half-received message is as long as its packets).
pub run-with_rng-IsValid :
    (rng : ℕ → ℕ) (cs : List Call) → All IsCall cs → IsValid (run (with_rng rng) cs)
run-with_rng-IsValid rng cs w = run-IsValid (with_rng rng) cs w (with_rng-IsValid rng)

-- While a message is being received, after any calls, the next sequence number is at most 127 (so
-- the 8-bit counter cannot overflow), bytes are missing (so the subtraction cannot underflow), and
-- the length is at most 7609.
pub receiving_bounds :
    (rng : ℕ → ℕ) (cs : List Call) (r : Receiving)
    → All IsCall cs
    → (run (with_rng rng) cs).state ≡ receiving r
    → (r.next_sequence ≤ 127)
      × (length (run (with_rng rng) cs).message < r.length)
      × (r.length ≤ max_message_size)
receiving_bounds rng cs r w e = omega (arith, partial)
  where
    h : CtaphidHost
    h = run (with_rng rng) cs

    partial : IsPartial r h.message
    partial =
        subst (λ s. IsOwned s h.message h.pending h.next_identification) e
          (run-with_rng-IsValid rng cs w).owned
