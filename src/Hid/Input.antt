-- ===== src/Hid/Input.antt =====
-- Reports from the host program: `handle_frame` of ctaphid_host.rs and the handlers that it calls.
use software_authenticator.Base.{
  ℕ, ◌+◌, ◌-◌, ◌%◌, min, Bool, true, false, ◌&&◌, ◌||◌, not, Option, none, some, List, [], ◌∷◌,
  ◌++◌, ◌==◌, ltb, leb, if◌then◌else◌, is_some, is_none, length, get_or, take, drop, retain, be32,
  from_be16, from_be32, bytes_eq,
}
use software_authenticator.Hid.Types.{
  Command, ping, msg, lock, init, wink, cbor, cancel, try_from, command_eq, ErrorCode, channel_busy,
  invalid_channel, invalid_length, invalid_seq, invalid_command, CtapHidFrame, OutgoingFrame,
  U2fPoll, Processing, Receiving, State, idle, receiving, CtaphidHost, init_data, cont_data,
  max_message_size, broadcast_cid, ctap2_err_keepalive_cancel,
}
use software_authenticator.Hid.Channels.{contains, touch, allocate_channel}
use software_authenticator.Hid.Output.{enqueue_message, enqueue_error, finish_error}
use software_authenticator.Hid.Transaction.{
  expire_lease, lease_conflicts, busy_channel, complete_message,
}

unfoldable pub cancel_processing : CtaphidHost → ℕ → Processing → CtaphidHost
cancel_processing h channel p =
    if not (p.channel == channel) || not (command_eq p.command cbor)
    then h
    else if is_some p.request
    then enqueue_message (record h { state = idle }) channel cbor (ctap2_err_keepalive_cancel ∷ [])
    else record h { interrupt_app = true }

unfoldable pub handle_cancel : CtaphidHost → ℕ → CtaphidHost
unfolding cancel_processing
handle_cancel h channel = elim h.state [
  | State.processing p ↦ cancel_processing h channel p
  | _ ↦ h
]

abbrev pub is_idle : State → Bool
is_idle idle = true
is_idle _ = false

-- Whether the app works on the transaction's request.
abbrev pub in_app : State → Bool
in_app (State.processing p) = is_none p.request
in_app _ = false

unfoldable pub on_channel : ℕ → OutgoingFrame → Bool
on_channel channel f = bytes_eq (take 4 f.frame) (be32 channel)

unfoldable pub polls_on : ℕ → Option U2fPoll → Bool
polls_on channel none = false
polls_on channel (some poll) = poll.channel == channel

unfoldable pub is_unanswered : Option U2fPoll → Bool
is_unanswered none = false
is_unanswered (some poll) = is_none poll.answer

unfoldable pub init_response : CtaphidHost → List ℕ → ℕ → List ℕ
init_response h body assigned =
    take 8 body
    ++ (be32 assigned
        ++ 2 ∷ h.version.major ∷ h.version.minor ∷ h.version.build ∷ h.capabilities ∷ [])

-- INIT after its validation: what the channel owned is dropped, and the reply is queued.
unfoldable pub resynchronize : CtaphidHost → ℕ → ℕ → List ℕ → CtaphidHost
resynchronize h channel assigned body =
    enqueue_message
      (record h {
        pending = retain (λ f. not (on_channel channel f)) h.pending;
        message = [];
        u2f = if polls_on channel h.u2f then none else h.u2f;
        denied_polls = retain (λ poll. not (poll.channel == channel)) h.denied_polls;
        interrupt_app =
            h.interrupt_app || (polls_on channel h.u2f && is_unanswered h.u2f) || in_app h.state;
        state = idle;
      })
      channel init (init_response h body assigned)

-- Where a transaction is under way the error is auxiliary, else it is the response.
unfoldable pub init_error : CtaphidHost → Bool → ℕ → ErrorCode → CtaphidHost
init_error h auxiliary channel code =
    if auxiliary then enqueue_error h channel code else finish_error h channel code

-- A broadcast INIT, with what `allocate_channel` returned.
unfoldable pub init_allocated : Bool → ℕ → List ℕ → CtaphidHost × Option ℕ → CtaphidHost
init_allocated aborted channel body (h, none) = init_error h aborted channel channel_busy
init_allocated aborted channel body (h, some assigned) = resynchronize h channel assigned body

unfoldable pub init_idle_or_owned : CtaphidHost → ℕ → List ℕ → CtaphidHost
init_idle_or_owned h channel body =
    let aborted = not (is_idle h.state) in
    if channel == broadcast_cid
    then init_allocated aborted channel body (allocate_channel h)
    else if not (channel == 0) && (aborted || contains h.channels channel)
    then resynchronize h channel channel body
    else init_error h aborted channel invalid_channel

-- Whether a transaction of another channel is under way.
unfoldable pub busy_elsewhere : CtaphidHost → ℕ → Bool
busy_elsewhere h channel = elim (busy_channel h) [
  | none ↦ false
  | some busy ↦ not (busy == channel)
]

unfoldable pub handle_init : CtaphidHost → ℕ → ℕ → List ℕ → CtaphidHost
handle_init h channel total body =
    if lease_conflicts h channel
    then enqueue_error h channel channel_busy
    else if busy_elsewhere h channel
    then enqueue_error h channel channel_busy
    else if not (total == 8)
    then init_error h (is_some (busy_channel h)) channel invalid_length
    else init_idle_or_owned h channel body

-- The states in which a request on the busy channel itself is refused.
abbrev pub refuses_requests : State → Option Command → Bool
refuses_requests idle (some msg) = false
refuses_requests idle _ = true
refuses_requests (receiving r) command = false
refuses_requests _ command = true

abbrev pub is_receiving : State → Bool
is_receiving (receiving r) = true
is_receiving _ = false

-- The commands that `handle_request` serves.
abbrev pub served : Option Command → Option Command
served (some ping) = some ping
served (some cbor) = some cbor
served (some msg) = some msg
served (some lock) = some lock
served (some wink) = some wink
served _ = none

unfoldable pub bad_length : Command → ℕ → Bool
bad_length command total =
    ltb max_message_size total
    || ((command_eq command cbor || command_eq command msg) && total == 0)
    || (command_eq command lock && not (total == 1))
    || (command_eq command wink && not (total == 0))

unfoldable pub start_message : CtaphidHost → ℕ → Command → ℕ → List ℕ → ℕ → CtaphidHost
start_message h channel command total body now =
    let h' = record h { message = take (min total init_data) body } in
    if leb total init_data then complete_message h' channel command now else record h' {
      state = receiving (record {
        channel = channel;
        command = command;
        length = total;
        next_sequence = 0;
        last_packet_at = now;
      });
    }

unfoldable pub accept_command : CtaphidHost → ℕ → Option Command → ℕ → List ℕ → ℕ → CtaphidHost
accept_command h channel none total body now = finish_error h channel invalid_command
accept_command h channel (some command) total body now =
    if bad_length command total
    then finish_error h channel invalid_length
    else start_message h channel command total body now

-- A request that the transaction under way, if any, lets through.
unfoldable pub accept_request : CtaphidHost → ℕ → Option Command → ℕ → List ℕ → ℕ → CtaphidHost
accept_request h channel command total body now =
    if channel == 0 || channel == broadcast_cid
    then finish_error h channel invalid_channel
    else accept_command h channel (served command) total body now

-- A request while the channel `busy` has a transaction.
unfoldable pub handle_busy_request :
    CtaphidHost → ℕ → Option Command → ℕ → List ℕ → ℕ → ℕ → CtaphidHost
handle_busy_request h channel command total body now busy =
    if not (busy == channel) || refuses_requests h.state command
    then enqueue_error h channel channel_busy
    else if is_receiving h.state
    then finish_error h channel invalid_seq
    else accept_request h channel command total body now

unfoldable pub handle_request : CtaphidHost → ℕ → Option Command → ℕ → List ℕ → ℕ → CtaphidHost
handle_request h channel command total body now =
    if lease_conflicts h channel
    then enqueue_error h channel channel_busy
    else elim (busy_channel h) [
      | none ↦ accept_request h channel command total body now
      | some busy ↦ handle_busy_request h channel command total body now busy
    ]

-- A continuation packet of the message being received.
unfoldable pub continue_message : CtaphidHost → Receiving → ℕ → List ℕ → ℕ → CtaphidHost
continue_message h r sequence body now =
    if not (sequence == r.next_sequence)
    then finish_error h r.channel invalid_seq
    else let missing = r.length - length h.message in
      let h' = record h {
        state = receiving (record r { next_sequence = r.next_sequence + 1; last_packet_at = now });
        message = h.message ++ take (min missing cont_data) body;
      } in
      if length h'.message == r.length then complete_message h' r.channel r.command now else h'

unfoldable pub handle_continuation : CtaphidHost → ℕ → ℕ → List ℕ → ℕ → CtaphidHost
handle_continuation h channel sequence body now = elim h.state [
  | receiving r ↦ if r.channel == channel then continue_message h r sequence body now else h
  | _ ↦ h
]

unfoldable pub handle_command : CtaphidHost → ℕ → Option Command → ℕ → List ℕ → ℕ → CtaphidHost
handle_command h channel (some cancel) total body now = handle_cancel h channel
handle_command h channel (some init) total body now = handle_init h channel total body
handle_command h channel command total body now = handle_request h channel command total body now

-- The channel of a report.
abbrev pub frame_channel : CtapHidFrame → ℕ
frame_channel f = from_be32 (get_or f 0 0) (get_or f 1 0) (get_or f 2 0) (get_or f 3 0)

unfoldable pub handle_frame : CtaphidHost → CtapHidFrame → ℕ → CtaphidHost
handle_frame h frame now =
    let h' = expire_lease h now in
    let channel = frame_channel frame in
    let code = get_or frame 4 0 in
    if ltb code 0x80
    then handle_continuation h' channel code (drop 5 frame) now
    else handle_command (record h' { channels = touch h'.channels channel }) channel
        (try_from (code % 0x80)) (from_be16 (get_or frame 5 0) (get_or frame 6 0)) (drop 7 frame)
        now
