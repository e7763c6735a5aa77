-- ===== src/Hid/Timers.antt =====
-- Deadlines of ctaphid_host.rs: `handle_timeout`, `send_keepalive`, `next_deadline`, and the
-- identification requests with their budget.
use software_authenticator.Base.{
  ℕ, ◌+◌, ◌-◌, min, Bool, true, false, ◌&&◌, not, Option, none, some, [], ◌∷◌, ◌==◌, ltb, leb,
  if◌then◌else◌, is_none, saturating_add, retain,
}
use software_authenticator.Hid.Types.{
  msg, wink, keep_alive, command_eq, other, timeout, KeepaliveStatus, up_needed, status_code,
  IdentificationRequest, U2fPoll, Processing, Identifying, State, idle, receiving, identifying,
  transmitting, CtaphidHost, u2f_response_wait_ms, u2f_poll_timeout_ms, u2f_approval_ms,
  continuation_timeout_ms, keepalive_interval_ms,
}
use software_authenticator.Hid.Output.{init_packet, queue_frame, enqueue_message, finish_error}
use software_authenticator.Hid.Transaction.{sw_bytes, expire_lease, is_fresh}

-- `U2fPoll::deadline`.
unfoldable pub deadline : U2fPoll → ℕ
deadline poll = elim poll.answer [
  | some (_, expires) ↦ saturating_add expires 1
  | none ↦ elim poll.presence_finished [
    | none ↦ saturating_add poll.last_poll (u2f_poll_timeout_ms + 1)
    | some at ↦ saturating_add at (u2f_approval_ms + 1)
  ]
]

unfoldable pub time_out_identification : CtaphidHost → ℕ → CtaphidHost
time_out_identification h now = elim h.state [
  | identifying i ↦ if leb i.request.deadline now then finish_error h i.channel other else h
  | _ ↦ h
]

unfoldable pub drop_stale_polls : CtaphidHost → ℕ → CtaphidHost
drop_stale_polls h now = record h { denied_polls = retain (is_fresh now) h.denied_polls }

unfoldable pub time_out_poll : CtaphidHost → ℕ → CtaphidHost
time_out_poll h now = elim h.u2f [
  | none ↦ h
  | some poll ↦
      if leb (deadline poll) now
      then record h {
        interrupt_app = if is_none poll.answer then true else h.interrupt_app;
        u2f = none;
      }
      else h
]

-- Whether a MSG request that the app has taken is the transaction.
abbrev pub msg_in_app : State → Bool
msg_in_app (State.processing p) = command_eq p.command msg && is_none p.request
msg_in_app _ = false

-- A MSG request that waits for presence is answered so that its client polls.
unfoldable pub answer_waiting : CtaphidHost → U2fPoll → ℕ → ℕ → CtaphidHost
answer_waiting h poll channel now =
    if poll.presence_started && leb u2f_response_wait_ms (now - poll.started)
    then enqueue_message (record h { state = idle }) channel msg sw_bytes
    else h

unfoldable pub answer_waiting_msg : CtaphidHost → ℕ → CtaphidHost
answer_waiting_msg h now = elim h.state [
  | State.processing p ↦ elim h.u2f [
    | none ↦ h
    | some poll ↦
        if command_eq p.command msg && is_none p.request
        then answer_waiting h poll p.channel now
        else h
  ]
  | _ ↦ h
]

unfoldable pub time_out_message : CtaphidHost → ℕ → CtaphidHost
time_out_message h now = elim h.state [
  | receiving r ↦
      if leb (r.last_packet_at + continuation_timeout_ms) now
      then finish_error h r.channel timeout
      else h
  | _ ↦ h
]

unfoldable pub handle_timeout : CtaphidHost → ℕ → CtaphidHost
handle_timeout h now =
    let leased = expire_lease h now in
    let identified = time_out_identification leased now in
    let polled = time_out_poll (drop_stale_polls identified now) now in
    time_out_message (answer_waiting_msg polled now) now

abbrev status_eq : KeepaliveStatus → KeepaliveStatus → Bool
status_eq a b = status_code a == status_code b

unfoldable pub keepalive_status_of : Bool → Processing → KeepaliveStatus
keepalive_status_of waiting_for_user p =
    if waiting_for_user && is_none p.request then up_needed else KeepaliveStatus.processing

-- The status is unchanged and the interval since the last keepalive is not over.
unfoldable pub is_early : Processing → KeepaliveStatus → ℕ → Bool
is_early p status now =
    status_eq status p.keepalive_status && ltb now (p.keepalive_at + keepalive_interval_ms)

unfoldable pub keepalive : CtaphidHost → Processing → KeepaliveStatus → ℕ → CtaphidHost × Bool
keepalive h p status now =
    if is_early p status now
    then (h, false)
    else let h' = record h {
      state = State.processing (record p { keepalive_at = now; keepalive_status = status });
    } in
      ((queue_frame h' (init_packet p.channel keep_alive 1 (status_code status ∷ []))).0, true)

unfoldable pub send_keepalive : CtaphidHost → Bool → ℕ → CtaphidHost × Bool
send_keepalive h waiting_for_user now = elim h.state [
  | State.processing p ↦ keepalive h p (keepalive_status_of waiting_for_user p) now
  | _ ↦ (h, false)
]

abbrev pub transaction_deadline : State → Option ℕ
transaction_deadline idle = none
transaction_deadline (transmitting t) = none
transaction_deadline (receiving r) = some (r.last_packet_at + continuation_timeout_ms)
transaction_deadline (State.processing p) = some (p.keepalive_at + keepalive_interval_ms)
transaction_deadline (identifying i) = some i.request.deadline

unfoldable pub polling_deadline : State → U2fPoll → ℕ
polling_deadline state poll =
    if is_none poll.answer && poll.presence_started && msg_in_app state
    then min (saturating_add poll.started u2f_response_wait_ms) (deadline poll)
    else deadline poll

-- The earlier of two deadlines, where there are any.
abbrev pub earliest : Option ℕ → Option ℕ → Option ℕ
earliest none b = b
earliest (some a) none = some a
earliest (some a) (some b) = some (min a b)

unfoldable pub next_deadline : CtaphidHost → Option ℕ
next_deadline h =
    let polling : Option ℕ = elim h.u2f [
      | none ↦ none
      | some poll ↦ some (polling_deadline h.state poll)
    ] in
    let lease : Option ℕ = elim h.lease [ none ↦ none | some (_, expires) ↦ some expires ] in
    earliest (earliest (transaction_deadline h.state) polling) lease

unfoldable pub submit_identification :
    CtaphidHost → Identifying → CtaphidHost × Option IdentificationRequest
submit_identification h i =
    if i.submitted
    then (h, none)
    else (record h { state = identifying (record i { submitted = true }) }, some i.request)

unfoldable pub take_identification_request :
    CtaphidHost → CtaphidHost × Option IdentificationRequest
take_identification_request h = elim h.state [
  | identifying i ↦ submit_identification h i
  | _ ↦ (h, none)
]

unfoldable pub complete_identification : CtaphidHost → Identifying → ℕ → Bool → ℕ → CtaphidHost
complete_identification h i token delivered now =
    if not (i.request.token == token)
    then h
    else if delivered && ltb now i.request.deadline
    then enqueue_message h i.channel wink []
    else finish_error h i.channel other

unfoldable pub identification_response : CtaphidHost → ℕ → Bool → ℕ → CtaphidHost
identification_response h token delivered now = elim h.state [
  | identifying i ↦ complete_identification h i token delivered now
  | _ ↦ h
]
