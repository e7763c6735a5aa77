-- ===== src/Hid/Invariant/Messages.antt =====
-- A complete message (`complete_message` of ctaphid_host.rs) leaves a valid host.
use software_authenticator.Base.{
  ℕ, ◌*◌, inl, inr, Bool, ◌&&◌, Bool-cases, Option, none, some, List, [], arith, ◌==◌, ltb, leb,
  is_none, length, get_or, retain, saturating_add, bytes_eq, if◌then◌else◌,
}
use software_authenticator.Hid.Types.{
  Command, ping, msg, lock, wink, invalid_parameter, channel_busy, U2fPoll, idle, CtaphidHost,
  max_channels,
}
use software_authenticator.Hid.Apdu.{requests_presence}
use software_authenticator.Hid.Output.{enqueue_message}
use software_authenticator.Hid.Transaction.{
  sw_bytes, complete_wink, complete_lock, complete_ping, begin_processing, is_fresh,
  recently_denied, complete_new_msg, complete_polled_msg, complete_msg, complete_message,
}
use software_authenticator.Hid.Invariant.{IsClient, IsBase, IsLease, IsValid}
use software_authenticator.Hid.Invariant.Queue.{enqueue_message-IsValid, finish_error-IsValid}

complete_wink-IsValid :
    (h : CtaphidHost) (channel now : ℕ) → IsBase h → IsValid (complete_wink h channel now)
unfolding complete_wink
complete_wink-IsValid h channel now b = record { base = b; owned = omega arith }

renewed-IsLease :
    (channel seconds now : ℕ)
    → IsClient channel
    → IsLease (if seconds == 0 then none else some (channel, saturating_add now (seconds * 1000)))
renewed-IsLease channel seconds now c = elim (Bool-cases (seconds == 0)) [
  | inl e ↦ rw e tt
  | inr e ↦ rw e c
]

complete_lock-IsValid :
    (h : CtaphidHost) (channel now : ℕ)
    → IsBase h
    → IsClient channel
    → IsValid (complete_lock h channel now)
unfolding complete_lock
complete_lock-IsValid h channel now b c = elim (Bool-cases (ltb 10 (get_or h.message 0 0))) [
  | inl e ↦ rw e (finish_error-IsValid h channel invalid_parameter b)
  | inr e ↦ rw e (
      enqueue_message-IsValid _ channel lock []
        (b.0, b.1, renewed-IsLease channel (get_or h.message 0 0) now c, b.3))
]

begin_processing-IsValid :
    (h : CtaphidHost) (channel : ℕ) (command : Command) (now : ℕ)
    → IsBase h
    → IsValid (begin_processing h channel command now)
unfolding begin_processing
begin_processing-IsValid h channel command now b = record { base = b; owned = tt }

complete_new_msg-IsValid :
    (h : CtaphidHost) (channel now : ℕ) → IsBase h → IsValid (complete_new_msg h channel now)
unfolding complete_new_msg
complete_new_msg-IsValid h channel now b = elim (Bool-cases (recently_denied h channel now)) [
  | inl e ↦ rw e (enqueue_message-IsValid _ channel msg sw_bytes b)
  | inr e ↦ rw e (elim (Bool-cases full) [
    | inl f ↦ rw f (finish_error-IsValid _ channel channel_busy b)
    | inr f ↦ rw f (begin_processing-IsValid _ channel msg now b)
  ])
]
  where
    full : Bool
    full =
        requests_presence h.message
        && leb max_channels (length (retain (is_fresh now) h.denied_polls))

module _ (h : CtaphidHost) (channel now : ℕ) (b : IsBase h) where
  collected-IsValid :
      (poll : U2fPoll) (answer : Option (List ℕ × ℕ))
      → IsValid (elim answer [
        | none ↦
            enqueue_message
              (record h { u2f = some (record poll { last_poll = now }); state = idle })
              channel
              msg
              sw_bytes
        | some (reply, expires) ↦
            if ltb expires now
            then complete_new_msg
                (record h { u2f = some (record poll { last_poll = now }) })
                channel
                now
            else enqueue_message (record h { u2f = none; state = idle }) channel msg reply
      ])
  collected-IsValid poll none = enqueue_message-IsValid _ channel msg sw_bytes b
  collected-IsValid poll (some (reply, expires)) = elim (Bool-cases (ltb expires now)) [
    | inl e ↦ rw e (complete_new_msg-IsValid _ channel now b)
    | inr e ↦ rw e (enqueue_message-IsValid _ channel msg reply b)
  ]

  complete_polled_msg-IsValid : (poll : U2fPoll) → IsValid (complete_polled_msg h channel now poll)
  unfolding complete_polled_msg
  complete_polled_msg-IsValid poll =
      elim (Bool-cases (poll.channel == channel && bytes_eq poll.request h.message)) [
        | inl e ↦ rw e (collected-IsValid poll poll.answer)
        | inr e ↦ rw e (elim (Bool-cases (is_none poll.answer)) [
          | inl f ↦ rw f (finish_error-IsValid h channel channel_busy b)
          | inr f ↦ rw f (complete_new_msg-IsValid h channel now b)
        ])
      ]

  msg_of_poll-IsValid :
      (u2f : Option U2fPoll)
      → IsValid (elim u2f [
        | none ↦ complete_new_msg h channel now
        | some poll ↦ complete_polled_msg h channel now poll
      ])
  msg_of_poll-IsValid none = complete_new_msg-IsValid h channel now b
  msg_of_poll-IsValid (some poll) = complete_polled_msg-IsValid poll

  complete_msg-IsValid : IsValid (complete_msg h channel now)
  unfolding complete_msg
  complete_msg-IsValid = msg_of_poll-IsValid h.u2f

pub complete_message-IsValid :
    (h : CtaphidHost) (channel : ℕ) (command : Command) (now : ℕ)
    → IsBase h
    → IsClient channel
    → IsValid (complete_message h channel command now)
unfolding complete_message
complete_message-IsValid h channel wink now b c = complete_wink-IsValid h channel now b
complete_message-IsValid h channel lock now b c = complete_lock-IsValid h channel now b c
complete_message-IsValid h channel msg now b c = complete_msg-IsValid h channel now b
complete_message-IsValid h channel ping now b c =
    unfold complete_ping in enqueue_message-IsValid _ channel ping h.message b
complete_message-IsValid h channel command now b c =
    begin_processing-IsValid h channel command now b
