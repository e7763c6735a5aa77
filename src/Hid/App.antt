-- ===== src/Hid/App.antt =====
-- The app's side of ctaphid_host.rs: requests handed out, answers taken back, U2F presence.
use software_authenticator.Base.{
  ℕ, ◌-◌, Bool, true, false, ◌&&◌, ◌||◌, not, Option, none, some, List, [], ◌∷◌, ◌++◌, ltb, leb,
  if◌then◌else◌, is_some, unwrap_or, saturating_add, length, drop, bytes_eq,
}
use software_authenticator.Hid.Types.{
  Command, msg, command_eq, AppRequest, U2fPoll, Processing, State, idle, CtaphidHost,
  u2f_response_wait_ms, u2f_approval_ms,
}
use software_authenticator.Hid.Apdu.{requests_presence}
use software_authenticator.Hid.Output.{enqueue_message}
use software_authenticator.Hid.Transaction.{sw_bytes}
use software_authenticator.Hid.Timers.{msg_in_app}

abbrev pub is_msg : Option Command → Bool
is_msg none = false
is_msg (some command) = command_eq command msg

unfoldable pub app_presence : CtaphidHost → Bool → CtaphidHost
app_presence h waiting = elim h.u2f [
  | none ↦ h
  | some poll ↦
      if waiting && is_msg h.app_command
      then record h { u2f = some (record poll { presence_started = true }) }
      else h
]

unfoldable pub app_presence_finished : CtaphidHost → ℕ → CtaphidHost
app_presence_finished h at = elim h.u2f [
  | none ↦ h
  | some poll ↦
      if is_msg h.app_command
      then record h { u2f = some (record poll { presence_finished = some at }) }
      else h
]

unfoldable pub reset_u2f : CtaphidHost → CtaphidHost
reset_u2f h = record h { u2f = none; denied_polls = [] }

unfoldable pub set_u2f_enabled : CtaphidHost → Bool → CtaphidHost
set_u2f_enabled h enabled = if enabled then h else reset_u2f h

-- The poll that a MSG request which wants presence starts.
unfoldable pub new_poll : Processing → List ℕ → U2fPoll
new_poll p payload = record {
  channel = p.channel;
  request = payload;
  last_poll = p.started;
  started = p.started;
  presence_started = false;
  presence_finished = none;
  answer = none;
}

unfoldable pub hand_out : CtaphidHost → Processing → CtaphidHost × Option AppRequest
hand_out h p = elim p.request [
  | none ↦ (h, none)
  | some payload ↦ (
    record h {
      state = State.processing (record p { request = none });
      u2f =
          if command_eq p.command msg && requests_presence payload
          then some (new_poll p payload)
          else h.u2f;
      app_busy = true;
      app_command = some p.command;
    },
    some (record { command = p.command; payload = payload }),
  )
]

unfoldable pub take_app_request : CtaphidHost → CtaphidHost × Option AppRequest
take_app_request h =
    if h.app_busy
    then (h, none)
    else elim h.state [ State.processing p ↦ hand_out h p | _ ↦ (h, none) ]

unfoldable pub take_interrupt : CtaphidHost → CtaphidHost × Bool
take_interrupt h = (record h { interrupt_app = false }, h.interrupt_app)

-- The tail of `app_response`: the answer of the transaction under way, or of an aborted one.
unfoldable pub deliver : CtaphidHost → List ℕ → CtaphidHost
deliver h response = elim h.state [
  | State.processing p ↦
      if is_some p.request
      then h
      else enqueue_message (record h { state = idle }) p.channel p.command response
  | _ ↦ h
]

-- What becomes of the answer to a U2F request with a live poll.
pub data Fate : Type 0 where
  denied : Fate
  kept : (late : Bool) (expires : ℕ) → Fate
  lost : (late : Bool) → Fate
  direct : Fate

unfoldable pub ends_unsatisfied : List ℕ → Bool
ends_unsatisfied response = bytes_eq (drop (length response - 2) response) sw_bytes

-- Presence was collected, and the answer comes after the client was told to poll.
unfoldable pub is_late : State → U2fPoll → ℕ → Option ℕ → Bool
is_late state poll now finished =
    msg_in_app state && is_some finished && ltb u2f_response_wait_ms (now - poll.started)

unfoldable pub fate : State → U2fPoll → List ℕ → ℕ → Option ℕ → Fate
fate state poll response now finished =
    let late = is_late state poll now finished in
    let expires = saturating_add (unwrap_or finished now) u2f_approval_ms in
    if ends_unsatisfied response
    then denied
    else if (not (msg_in_app state) || late) && is_some finished && leb now expires
    then kept late expires
    else if not (msg_in_app state) || late
    then lost late
    else direct

-- A late answer leaves the client a poll response in its place.
unfoldable pub answer_late : CtaphidHost → Bool → ℕ → CtaphidHost
answer_late h late channel =
    if late then enqueue_message (record h { state = idle }) channel msg sw_bytes else h

unfoldable pub settle : CtaphidHost → U2fPoll → List ℕ → Fate → CtaphidHost
settle h poll response denied =
    deliver
      (record h {
        denied_polls =
            h.denied_polls
            ++ record { channel = poll.channel; request = poll.request; last_poll = poll.last_poll }
              ∷ [];
      })
      response
settle h poll response (kept late expires) = record (answer_late h late poll.channel) {
  u2f = some (record poll { answer = some (response, expires) });
}
settle h poll response (lost late) = answer_late h late poll.channel
settle h poll response direct = deliver h response

-- `self.u2f.take()` happens for the answer to a MSG request only.
unfoldable pub app_response : CtaphidHost → List ℕ → ℕ → Option ℕ → CtaphidHost
app_response h response now finished =
    let free = record h { app_busy = false; app_command = none } in
    if is_msg h.app_command
    then elim h.u2f [
      | none ↦ deliver free response
      | some poll ↦
          settle (record free { u2f = none }) poll response
            (fate h.state poll response now finished)
    ]
    else deliver free response
