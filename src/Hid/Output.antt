-- ===== src/Hid/Output.antt =====
-- The output queue of ctaphid_host.rs: messages cut into reports, and reports written.
pub mod Fragments
use software_authenticator.Base.{
  ℕ, zero, suc, ◌+◌, ◌-◌, Bool, true, false, ◌&&◌, Option, none, some, List, [], ◌∷◌, ◌++◌, ◌==◌,
  leb, if◌then◌else◌, length, take, drop, replicate, be16, be32,
}
use software_authenticator.Hid.Types.{
  Command, error, into_u8, ErrorCode, other, error_code, CtapHidFrame, OutgoingFrame, State, idle,
  transmitting, CtaphidHost, packet_size, init_data, cont_data, max_message_size,
}

-- The bytes, in a report that is zero elsewhere.
unfoldable pub report : List ℕ → CtapHidFrame
report bytes = bytes ++ replicate (packet_size - length bytes) 0

unfoldable pub init_packet : ℕ → Command → ℕ → List ℕ → CtapHidFrame
init_packet channel command total head =
    report (be32 channel ++ (into_u8 command + 0x80) ∷ (be16 total ++ head))

unfoldable pub cont_packet : ℕ → ℕ → List ℕ → CtapHidFrame
cont_packet channel sequence chunk = report (be32 channel ++ sequence ∷ chunk)

unfoldable pub queue_frame : CtaphidHost → CtapHidFrame → CtaphidHost × ℕ
queue_frame h frame = (
  record h {
    pending = h.pending ++ record { frame = frame; token = h.next_token } ∷ [];
    next_token = h.next_token + 1;
  },
  h.next_token,
)

-- `(0..=0x7f).zip(rest.chunks(CONT_DATA))`, on the sequence numbers left; `last` is `final_frame`.
unfoldable pub queue_chunks : ℕ → CtaphidHost → ℕ → ℕ → List ℕ → ℕ → CtaphidHost × ℕ
unfolding queue_frame
queue_chunks zero h channel sequence rest last = (h, last)
queue_chunks (suc n) h channel sequence [] last = (h, last)
queue_chunks (suc n) h channel sequence (b ∷ rest) last =
    let (h', token) = queue_frame h (cont_packet channel sequence (take cont_data (b ∷ rest))) in
    queue_chunks n h' channel (sequence + 1) (drop cont_data (b ∷ rest)) token

unfoldable pub queue_packets : CtaphidHost → ℕ → Command → List ℕ → CtaphidHost × ℕ
unfolding queue_frame queue_chunks
queue_packets h channel command payload =
    let (h', token) =
      queue_frame h (init_packet channel command (length payload) (take init_data payload)) in
    queue_chunks 128 h' channel 0 (drop init_data payload) token

unfoldable pub queue_message : CtaphidHost → ℕ → Command → List ℕ → CtaphidHost × ℕ
queue_message h channel command payload =
    if leb (length payload) 65535 && leb (length payload) max_message_size
    then queue_packets h channel command payload
    else queue_packets h channel error (error_code other ∷ [])

unfoldable pub enqueue_message : CtaphidHost → ℕ → Command → List ℕ → CtaphidHost
enqueue_message h channel command payload =
    let (h', final_frame) = queue_message h channel command payload in
    record h' { state = transmitting (record { channel = channel; final_frame = final_frame }) }

-- An auxiliary rejection.
unfoldable pub enqueue_error : CtaphidHost → ℕ → ErrorCode → CtaphidHost
enqueue_error h channel code = (queue_message h channel error (error_code code ∷ [])).0

unfoldable pub finish_error : CtaphidHost → ℕ → ErrorCode → CtaphidHost
finish_error h channel code = enqueue_message h channel error (error_code code ∷ [])

unfoldable pub front : List OutgoingFrame → Option OutgoingFrame
front [] = none
front (f ∷ fs) = some f

unfoldable pub next_outgoing_frame : CtaphidHost → Option OutgoingFrame
unfolding front
next_outgoing_frame h = front h.pending

unfoldable pub head_has_token : List OutgoingFrame → ℕ → Bool
head_has_token [] token = false
head_has_token (head ∷ fs) token = head.token == token

unfoldable pub is_outgoing_current : CtaphidHost → OutgoingFrame → Bool
unfolding head_has_token
is_outgoing_current h frame = head_has_token h.pending frame.token

-- The state after the report `token` is written.
unfoldable pub release : State → ℕ → State
release (transmitting t) token = if t.final_frame == token then idle else transmitting t
release state token = state

unfoldable pub outgoing_frame_written : CtaphidHost → OutgoingFrame → CtaphidHost × Bool
outgoing_frame_written h frame =
    if is_outgoing_current h frame
    then (record h { pending = drop 1 h.pending; state = release h.state frame.token }, true)
    else (h, false)
