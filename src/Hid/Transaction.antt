-- ===== src/Hid/Transaction.antt =====
-- What a complete message does: `complete_message` of ctaphid_host.rs, with the lease, the U2F polls
-- and the denied polls that it looks at.
use software_authenticator.Base.{
  ℕ, ◌+◌, ◌-◌, ◌*◌, Bool, false, ◌&&◌, not, Option, none, some, List, [], ◌∷◌, ◌==◌, ltb, leb,
  if◌then◌else◌, is_none, saturating_add, length, get_or, retain, be16, bytes_eq,
}
use software_authenticator.Hid.Types.{
  Command, ping, msg, lock, wink, invalid_parameter, channel_busy, KeepaliveStatus, U2fPoll,
  DeniedPoll, State, idle, receiving, identifying, transmitting, CtaphidHost, u2f_poll_timeout_ms,
  identification_timeout_ms, max_channels, sw_conditions_not_satisfied,
}
use software_authenticator.Hid.Apdu.{requests_presence}
use software_authenticator.Hid.Output.{enqueue_message, finish_error}

abbrev pub sw_bytes : List ℕ
sw_bytes = be16 sw_conditions_not_satisfied

unfoldable pub expire_lease : CtaphidHost → ℕ → CtaphidHost
expire_lease h now = elim h.lease [
  | none ↦ h
  | some (owner, expires) ↦ if leb expires now then record h { lease = none } else h
]

unfoldable pub lease_conflicts : CtaphidHost → ℕ → Bool
lease_conflicts h channel = elim h.lease [
  | none ↦ false
  | some (owner, expires) ↦ not (owner == channel)
]

-- The channel of an unanswered poll.
unfoldable pub polling_channel : Option U2fPoll → Option ℕ
polling_channel none = none
polling_channel (some poll) = if is_none poll.answer then some poll.channel else none

unfoldable pub busy_of : State → Option U2fPoll → Option ℕ
unfolding polling_channel
busy_of idle u2f = polling_channel u2f
busy_of (receiving r) u2f = some r.channel
busy_of (State.processing p) u2f = some p.channel
busy_of (identifying i) u2f = some i.channel
busy_of (transmitting t) u2f = some t.channel

unfoldable pub busy_channel : CtaphidHost → Option ℕ
unfolding busy_of
busy_channel h = busy_of h.state h.u2f

unfoldable pub complete_wink : CtaphidHost → ℕ → ℕ → CtaphidHost
complete_wink h channel now = record h {
  next_identification = h.next_identification + 1;
  state = identifying (record {
    channel = channel;
    request = record {
      token = h.next_identification;
      deadline = saturating_add now identification_timeout_ms;
    };
    submitted = false;
  });
}

unfoldable pub complete_lock : CtaphidHost → ℕ → ℕ → CtaphidHost
complete_lock h channel now =
    let seconds = get_or h.message 0 0 in
    if ltb 10 seconds
    then finish_error h channel invalid_parameter
    else let lease : Option (ℕ × ℕ) =
        if seconds == 0 then none else some (channel, saturating_add now (seconds * 1000)) in
      enqueue_message (record h { lease = lease }) channel lock []

unfoldable pub complete_ping : CtaphidHost → ℕ → CtaphidHost
complete_ping h channel = enqueue_message (record h { state = idle }) channel ping h.message

-- Hand the message to the app.
unfoldable pub begin_processing : CtaphidHost → ℕ → Command → ℕ → CtaphidHost
begin_processing h channel command now = record h {
  u2f = none;
  state = State.processing (record {
    channel = channel;
    command = command;
    started = now;
    request = some h.message;
    keepalive_at = now;
    keepalive_status = KeepaliveStatus.processing;
  });
}

unfoldable pub is_fresh : ℕ → DeniedPoll → Bool
is_fresh now poll = leb (now - poll.last_poll) u2f_poll_timeout_ms

unfoldable pub same_poll : ℕ → List ℕ → DeniedPoll → Bool
same_poll channel message poll = poll.channel == channel && bytes_eq poll.request message

-- `denied_polls.iter_mut().find(..)`: the first poll of this channel and request.
unfoldable pub find_denied : ℕ → List ℕ → List DeniedPoll → Option DeniedPoll
find_denied channel message [] = none
find_denied channel message (poll ∷ polls) =
    if same_poll channel message poll then some poll else find_denied channel message polls

-- The write through the reference that `find` returned.
unfoldable pub touch_denied : ℕ → List ℕ → ℕ → List DeniedPoll → List DeniedPoll
touch_denied channel message now [] = []
touch_denied channel message now (poll ∷ polls) =
    if same_poll channel message poll
    then record poll { last_poll = now } ∷ polls
    else poll ∷ touch_denied channel message now polls

unfoldable pub recently_denied : CtaphidHost → ℕ → ℕ → Bool
recently_denied h channel now = elim (find_denied channel h.message h.denied_polls) [
  | none ↦ false
  | some poll ↦ is_fresh now poll
]

-- A message that no live poll answers.
unfoldable pub complete_new_msg : CtaphidHost → ℕ → ℕ → CtaphidHost
complete_new_msg h channel now =
    if recently_denied h channel now
    then enqueue_message
        (record h {
          denied_polls = touch_denied channel h.message now h.denied_polls;
          state = idle;
        })
        channel msg sw_bytes
    else let h' = record h { denied_polls = retain (is_fresh now) h.denied_polls } in
      if requests_presence h.message && leb max_channels (length h'.denied_polls)
      then finish_error h' channel channel_busy
      else begin_processing h' channel msg now

unfoldable pub complete_polled_msg : CtaphidHost → ℕ → ℕ → U2fPoll → CtaphidHost
complete_polled_msg h channel now poll =
    if poll.channel == channel && bytes_eq poll.request h.message
    then elim poll.answer [
      | none ↦
          enqueue_message (record h { u2f = some (record poll { last_poll = now }); state = idle })
            channel msg sw_bytes
      | some (reply, expires) ↦
          if ltb expires now
          then complete_new_msg (record h { u2f = some (record poll { last_poll = now }) }) channel
              now
          else enqueue_message (record h { u2f = none; state = idle }) channel msg reply
    ]
    else if is_none poll.answer
    then finish_error h channel channel_busy
    else complete_new_msg h channel now

unfoldable pub complete_msg : CtaphidHost → ℕ → ℕ → CtaphidHost
complete_msg h channel now = elim h.u2f [
  | none ↦ complete_new_msg h channel now
  | some poll ↦ complete_polled_msg h channel now poll
]

unfoldable pub complete_message : CtaphidHost → ℕ → Command → ℕ → CtaphidHost
complete_message h channel wink now = complete_wink h channel now
complete_message h channel lock now = complete_lock h channel now
complete_message h channel msg now = complete_msg h channel now
complete_message h channel ping now = complete_ping h channel
complete_message h channel command now = begin_processing h channel command now
