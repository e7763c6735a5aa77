-- ===== src/Hid/Invariant/Others.antt =====
-- The timers and the app's side (ctaphid_host.rs) leave a valid host.
use software_authenticator.Base.{
  ℕ, ◌+◌, ◌-◌, inl, inr, refl, Bool, true, false, ◌&&◌, not, Bool-cases, Option, none, some, List,
  [], ◌∷◌, ◌<◌, arith, ◌==◌, leb, ltb, is_none, is_some, if◌then◌else◌,
}
use software_authenticator.Hid.Types.{
  AppRequest, IdentificationRequest, msg, wink, command_eq, other, timeout, KeepaliveStatus,
  U2fPoll, Processing, Identifying, State, idle, receiving, identifying, CtaphidHost, with_rng,
  continuation_timeout_ms, u2f_response_wait_ms,
}
use software_authenticator.Hid.Output.{enqueue_message, finish_error, queue_frame}
use software_authenticator.Hid.Apdu.{requests_presence}
use software_authenticator.Hid.Transaction.{sw_bytes, expire_lease}
use software_authenticator.Hid.Timers.{
  time_out_identification, drop_stale_polls, deadline, time_out_poll, answer_waiting,
  answer_waiting_msg, time_out_message, handle_timeout, keepalive, keepalive_status_of, is_early,
  send_keepalive, submit_identification, take_identification_request, complete_identification,
  identification_response,
}
use software_authenticator.Hid.App.{
  is_msg, new_poll, app_presence, app_presence_finished, reset_u2f, set_u2f_enabled, hand_out,
  take_app_request, take_interrupt, deliver, Fate, denied, kept, lost, direct, answer_late, settle,
  fate, app_response,
}
use software_authenticator.Hid.Invariant.{IsOwned, IsValid}
use software_authenticator.Hid.Invariant.Queue.{
  enqueue_message-IsValid, finish_error-IsValid, append_frames-IsValid,
}
use software_authenticator.Hid.Invariant.Input.{expire_lease-IsValid}

pub with_rng-IsValid : (rng : ℕ → ℕ) → IsValid (with_rng rng)
unfolding with_rng
with_rng-IsValid rng = record { base = (tt, (omega arith, tt, tt), tt, refl); owned = tt }

module _ (h : CtaphidHost) (v : IsValid h) where
  time_out_identification-IsValid : (now : ℕ) → IsValid (time_out_identification h now)
  unfolding time_out_identification
  time_out_identification-IsValid now =
      elim h.state
        as (λ s. IsValid (elim s [
          | identifying i ↦ if leb i.request.deadline now then finish_error h i.channel other else h
          | _ ↦ h
        ])) [
          | identifying i ↦ elim (Bool-cases (leb i.request.deadline now)) [
            | inl e ↦ rw e (finish_error-IsValid h i.channel other v.base)
            | inr e ↦ rw e v
          ]
          | _ ↦ v
        ]

  time_out_poll-IsValid : (now : ℕ) → IsValid (time_out_poll h now)
  unfolding time_out_poll
  time_out_poll-IsValid now =
      elim h.u2f
        as (λ u. IsValid (elim u [
          | none ↦ h
          | some poll ↦
              if leb (deadline poll) now
              then record h {
                interrupt_app = if is_none poll.answer then true else h.interrupt_app;
                u2f = none;
              }
              else h
        ])) [
          | none ↦ v
          | some poll ↦ elim (Bool-cases (leb (deadline poll) now)) [
            | inl e ↦ rw e (record { base = v.base; owned = v.owned })
            | inr e ↦ rw e v
          ]
        ]

  answer_waiting-IsValid :
      (poll : U2fPoll) (channel now : ℕ) → IsValid (answer_waiting h poll channel now)
  unfolding answer_waiting
  answer_waiting-IsValid poll channel now =
      elim (Bool-cases (poll.presence_started && leb u2f_response_wait_ms (now - poll.started))) [
        | inl e ↦ rw e (enqueue_message-IsValid _ channel msg sw_bytes v.base)
        | inr e ↦ rw e v
      ]

  waiting_poll-IsValid :
      (p : Processing) (u2f : Option U2fPoll) (now : ℕ)
      → IsValid (elim u2f [
        | none ↦ h
        | some poll ↦
            if command_eq p.command msg && is_none p.request
            then answer_waiting h poll p.channel now
            else h
      ])
  waiting_poll-IsValid p none now = v
  waiting_poll-IsValid p (some poll) now =
      elim (Bool-cases (command_eq p.command msg && is_none p.request)) [
        | inl e ↦ rw e (answer_waiting-IsValid poll p.channel now)
        | inr e ↦ rw e v
      ]

  answer_waiting_msg-IsValid : (now : ℕ) → IsValid (answer_waiting_msg h now)
  unfolding answer_waiting_msg
  answer_waiting_msg-IsValid now =
      elim h.state
        as (λ s. IsValid (elim s [
          | State.processing p ↦ elim h.u2f [
            | none ↦ h
            | some poll ↦
                if command_eq p.command msg && is_none p.request
                then answer_waiting h poll p.channel now
                else h
          ]
          | _ ↦ h
        ])) [ State.processing p ↦ waiting_poll-IsValid p h.u2f now | _ ↦ v ]

  time_out_message-IsValid : (now : ℕ) → IsValid (time_out_message h now)
  unfolding time_out_message
  time_out_message-IsValid now =
      elim h.state
        as (λ s. IsValid (elim s [
          | receiving r ↦
              if leb (r.last_packet_at + continuation_timeout_ms) now
              then finish_error h r.channel timeout
              else h
          | _ ↦ h
        ])) [
          | receiving r ↦ elim (Bool-cases (leb (r.last_packet_at + continuation_timeout_ms) now)) [
            | inl e ↦ rw e (finish_error-IsValid h r.channel timeout v.base)
            | inr e ↦ rw e v
          ]
          | _ ↦ v
        ]

pub handle_timeout-IsValid :
    (h : CtaphidHost) (now : ℕ) → IsValid h → IsValid (handle_timeout h now)
unfolding handle_timeout drop_stale_polls
handle_timeout-IsValid h now v =
    time_out_message-IsValid _ (answer_waiting_msg-IsValid _ polled now) now
  where
    identified : IsValid (time_out_identification (expire_lease h now) now)
    identified = time_out_identification-IsValid _ (expire_lease-IsValid h now v) now

    polled : IsValid (
        time_out_poll (drop_stale_polls (time_out_identification (expire_lease h now) now) now) now)
    polled =
        time_out_poll-IsValid _ (record { base = identified.base; owned = identified.owned }) now

module _ (h : CtaphidHost) (v : IsValid h) where
  keepalive-IsValid :
      (p : Processing) (status : KeepaliveStatus) (now : ℕ) → IsValid (keepalive h p status now).0
  unfolding keepalive queue_frame
  keepalive-IsValid p status now = elim (Bool-cases (is_early p status now)) [
    | inl e ↦ rw e v
    | inr e ↦ rw e (
        append_frames-IsValid
          (record h {
            state = State.processing (record p { keepalive_at = now; keepalive_status = status });
          })
          (_ ∷ []) (record { base = v.base; owned = tt }))
  ]

  pub send_keepalive-IsValid : (waiting : Bool) (now : ℕ) → IsValid (send_keepalive h waiting now).0
  unfolding send_keepalive
  send_keepalive-IsValid waiting now =
      elim h.state
        as (λ s. IsValid (
          let r : CtaphidHost × Bool = elim s [
            | State.processing p ↦ keepalive h p (keepalive_status_of waiting p) now
            | _ ↦ (h, false)
          ] in
          r.0)) [
            | State.processing p ↦ keepalive-IsValid p (keepalive_status_of waiting p) now
            | _ ↦ v
          ]

  submit_identification-IsValid :
      (i : Identifying)
      → i.request.token < h.next_identification
      → IsValid (submit_identification h i).0
  unfolding submit_identification
  submit_identification-IsValid i o = elim (Bool-cases i.submitted) [
    | inl e ↦ rw e v
    | inr e ↦ rw e (record { base = v.base; owned = o })
  ]

  pub take_identification_request-IsValid : IsValid (take_identification_request h).0
  unfolding take_identification_request
  take_identification_request-IsValid =
      (elim h.state
          as (λ s.
            IsOwned s h.message h.pending h.next_identification
            → IsValid (
                let r : CtaphidHost × Option IdentificationRequest = elim s [
                  | identifying i ↦ submit_identification h i
                  | _ ↦ (h, none)
                ] in
                r.0)) [ identifying i ↦ λ o. submit_identification-IsValid i o | _ ↦ λ o. v ])
        v.owned

  complete_identification-IsValid :
      (i : Identifying) (token : ℕ) (delivered : Bool) (now : ℕ)
      → IsValid (complete_identification h i token delivered now)
  unfolding complete_identification
  complete_identification-IsValid i token delivered now =
      elim (Bool-cases (not (i.request.token == token))) [
        | inl e ↦ rw e v
        | inr e ↦ rw e (elim (Bool-cases (delivered && ltb now i.request.deadline)) [
          | inl f ↦ rw f (enqueue_message-IsValid h i.channel wink [] v.base)
          | inr f ↦ rw f (finish_error-IsValid h i.channel other v.base)
        ])
      ]

  pub identification_response-IsValid :
      (token : ℕ) (delivered : Bool) (now : ℕ)
      → IsValid (identification_response h token delivered now)
  unfolding identification_response
  identification_response-IsValid token delivered now =
      elim h.state
        as (λ s.
          IsValid
            (elim s [ identifying i ↦ complete_identification h i token delivered now | _ ↦ h ])) [
              | identifying i ↦ complete_identification-IsValid i token delivered now
              | _ ↦ v
            ]

  keeps_u2f : (u2f : Option U2fPoll) → IsValid (record h { u2f = u2f })
  keeps_u2f u2f = record { base = v.base; owned = v.owned }

  pub app_presence-IsValid : (waiting : Bool) → IsValid (app_presence h waiting)
  unfolding app_presence
  app_presence-IsValid waiting =
      elim h.u2f
        as (λ u. IsValid (elim u [
          | none ↦ h
          | some poll ↦
              if waiting && is_msg h.app_command
              then record h { u2f = some (record poll { presence_started = true }) }
              else h
        ])) [
          | none ↦ v
          | some poll ↦ elim (Bool-cases (waiting && is_msg h.app_command)) [
            | inl e ↦ rw e (keeps_u2f _)
            | inr e ↦ rw e v
          ]
        ]

  pub app_presence_finished-IsValid : (at : ℕ) → IsValid (app_presence_finished h at)
  unfolding app_presence_finished
  app_presence_finished-IsValid at =
      elim h.u2f
        as (λ u. IsValid (elim u [
          | none ↦ h
          | some poll ↦
              if is_msg h.app_command
              then record h { u2f = some (record poll { presence_finished = some at }) }
              else h
        ])) [
          | none ↦ v
          | some poll ↦ elim (Bool-cases (is_msg h.app_command)) [
            | inl e ↦ rw e (keeps_u2f _)
            | inr e ↦ rw e v
          ]
        ]

  pub set_u2f_enabled-IsValid : (enabled : Bool) → IsValid (set_u2f_enabled h enabled)
  unfolding set_u2f_enabled reset_u2f
  set_u2f_enabled-IsValid true = v
  set_u2f_enabled-IsValid false = record { base = v.base; owned = v.owned }

  hand_out-IsValid : (p : Processing) → IsValid (hand_out h p).0
  unfolding hand_out
  hand_out-IsValid p =
      elim p.request
        as (λ r. IsValid (
          let o : CtaphidHost × Option AppRequest = elim r [
            | none ↦ (h, none)
            | some payload ↦ (
              record h {
                state = State.processing (record p { request = none });
                u2f =
                    if command_eq p.command msg && requests_presence payload
                    then some (new_poll p payload)
                    else h.u2f;
                app_busy = true;
                app_command = some p.command;
              },
              some (record { command = p.command; payload = payload }),
            )
          ] in
          o.0)) [
            | none ↦ v
            | some payload ↦ record { base = (v.base.0, v.base.1, v.base.2, refl); owned = tt }
          ]

  next_request-IsValid :
      (busy : Bool) (state : State)
      → IsValid
          (if◌then◌else◌ {A = CtaphidHost × Option AppRequest} busy
            (h, none)
            (elim state [ State.processing p ↦ hand_out h p | _ ↦ (h, none) ])).0
  next_request-IsValid true state = v
  next_request-IsValid false (State.processing p) = hand_out-IsValid p
  next_request-IsValid false _ = v

  pub take_app_request-IsValid : IsValid (take_app_request h).0
  unfolding take_app_request
  take_app_request-IsValid = next_request-IsValid h.app_busy h.state

  pub take_interrupt-IsValid : IsValid (take_interrupt h).0
  unfolding take_interrupt
  take_interrupt-IsValid = record { base = v.base; owned = v.owned }

  deliver_processing-IsValid :
      (p : Processing) (held : Bool) (response : List ℕ)
      → IsValid (
          if held
          then h
          else enqueue_message (record h { state = idle }) p.channel p.command response)
  deliver_processing-IsValid p true response = v
  deliver_processing-IsValid p false response =
      enqueue_message-IsValid _ p.channel p.command response v.base

  deliver-IsValid : (response : List ℕ) → IsValid (deliver h response)
  unfolding deliver
  deliver-IsValid response =
      elim h.state
        as (λ s. IsValid (elim s [
          | State.processing p ↦
              if is_some p.request
              then h
              else enqueue_message (record h { state = idle }) p.channel p.command response
          | _ ↦ h
        ])) [
          | State.processing p ↦ deliver_processing-IsValid p (is_some p.request) response
          | _ ↦ v
        ]

  answer_late-IsValid : (late : Bool) (channel : ℕ) → IsValid (answer_late h late channel)
  unfolding answer_late
  answer_late-IsValid true channel = enqueue_message-IsValid _ channel msg sw_bytes v.base
  answer_late-IsValid false channel = v

settle-IsValid :
    (h : CtaphidHost) (poll : U2fPoll) (response : List ℕ) (f : Fate)
    → IsValid h
    → IsValid (settle h poll response f)
unfolding settle
settle-IsValid h poll response denied v =
    deliver-IsValid _ (record { base = v.base; owned = v.owned }) response
settle-IsValid h poll response (kept late expires) v =
    keeps_u2f (answer_late h late poll.channel) (answer_late-IsValid h v late poll.channel) _
settle-IsValid h poll response (lost late) v = answer_late-IsValid h v late poll.channel
settle-IsValid h poll response direct v = deliver-IsValid h v response

module _ (h : CtaphidHost) (v : IsValid h) (response : List ℕ) (now : ℕ) (finished : Option ℕ) where
  abbrev freed : CtaphidHost
  freed = record h { app_busy = false; app_command = none }

  freed-IsValid : IsValid freed
  freed-IsValid = record { base = (v.base.0, v.base.1, v.base.2, refl); owned = v.owned }

  answered-IsValid :
      (to_msg : Bool) (u2f : Option U2fPoll)
      → IsValid (
          if to_msg
          then elim u2f [
            | none ↦ deliver freed response
            | some poll ↦
                settle
                  (record freed { u2f = none })
                  poll
                  response
                  (fate h.state poll response now finished)
          ]
          else deliver freed response)
  answered-IsValid true none = deliver-IsValid freed freed-IsValid response
  answered-IsValid true (some poll) =
      settle-IsValid _ poll response _ (keeps_u2f freed freed-IsValid none)
  answered-IsValid false u2f = deliver-IsValid freed freed-IsValid response

  pub app_response-IsValid : IsValid (app_response h response now finished)
  unfolding app_response
  app_response-IsValid = answered-IsValid (is_msg h.app_command) h.u2f
