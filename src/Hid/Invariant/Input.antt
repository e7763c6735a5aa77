-- ===== src/Hid/Invariant/Input.antt =====
-- A report from the host program (`handle_frame` of ctaphid_host.rs) leaves a valid host.
use software_authenticator.Base.{
  ℕ, ◌+◌, ◌-◌, ◌≤◌, ◌<◌, ◌≡◌, ◌≢◌, inl, inr, min, Bool, true, false, ◌&&◌, ◌||◌, not, Bool-cases,
  Option, none, some, List, ◌++◌, arith, ◌==◌, leb, ltb, is_some, length, take, drop, get_or,
  length-append, length-take, length-drop, if◌then◌else◌,
}
use software_authenticator.Hid.Types.{
  Command, init, cbor, cancel, ErrorCode, channel_busy, invalid_channel, invalid_length,
  invalid_seq, invalid_command, CtapHidFrame, Processing, Receiving, State, receiving, CtaphidHost,
  init_data, cont_data, max_message_size, broadcast_cid, command_eq,
}
use software_authenticator.Hid.Channels.{touch, contains, allocate_channel, allocate_rounds}
use software_authenticator.Hid.Transaction.{expire_lease, lease_conflicts, busy_channel}
use software_authenticator.Hid.Input.{
  cancel_processing, handle_cancel, is_idle, init_response, resynchronize, init_error,
  init_allocated, init_idle_or_owned, busy_elsewhere, handle_init, is_receiving, bad_length,
  start_message, accept_command, accept_request, refuses_requests, handle_busy_request,
  handle_request, continue_message, handle_continuation, handle_command, frame_channel,
  handle_frame,
}
use software_authenticator.Hid.Invariant.{IsClient, IsBase, IsPartial, IsOwned, IsValid}
use software_authenticator.Hid.Invariant.Queue.{
  enqueue_message-IsValid, finish_error-IsValid, enqueue_error-IsValid, retain-Ordered,
}
use software_authenticator.Hid.Invariant.Table.{
  touch-IsTable, allocate_rounds-IsValid, IsClient-of_candidate,
}
use software_authenticator.Hid.Invariant.Messages.{complete_message-IsValid}

resynchronize-IsValid :
    (h : CtaphidHost) (channel assigned : ℕ) (body : List ℕ)
    → IsBase h
    → IsValid (resynchronize h channel assigned body)
unfolding resynchronize
resynchronize-IsValid h channel assigned body b =
    enqueue_message-IsValid _ channel init (init_response h body assigned)
      (retain-Ordered _ h.pending h.next_token b.0, b.1, b.2, b.3)

init_error-IsValid :
    (h : CtaphidHost) (auxiliary : Bool) (channel : ℕ) (code : ErrorCode)
    → IsValid h
    → IsValid (init_error h auxiliary channel code)
unfolding init_error
init_error-IsValid h true channel code v = enqueue_error-IsValid h channel code v
init_error-IsValid h false channel code v = finish_error-IsValid h channel code v.base

init_allocated-IsValid :
    (aborted : Bool) (channel : ℕ) (body : List ℕ) (r : CtaphidHost × Option ℕ)
    → IsValid r.0
    → IsValid (init_allocated aborted channel body r)
unfolding init_allocated
init_allocated-IsValid aborted channel body (h, none) v =
    init_error-IsValid h aborted channel channel_busy v
init_allocated-IsValid aborted channel body (h, some assigned) v =
    resynchronize-IsValid h channel assigned body v.base

init_idle_or_owned-IsValid :
    (h : CtaphidHost) (channel : ℕ) (body : List ℕ)
    → IsValid h
    → IsValid (init_idle_or_owned h channel body)
unfolding init_idle_or_owned allocate_channel
init_idle_or_owned-IsValid h channel body v = elim (Bool-cases (channel == broadcast_cid)) [
  | inl e ↦ rw e (
      init_allocated-IsValid (not (is_idle h.state)) channel body (allocate_rounds 64 h)
        (allocate_rounds-IsValid 64 h v))
  | inr e ↦ rw e (elim (Bool-cases owned) [
    | inl o ↦ rw o (resynchronize-IsValid h channel channel body v.base)
    | inr o ↦ rw o (init_error-IsValid h (not (is_idle h.state)) channel invalid_channel v)
  ])
]
  where
    owned : Bool
    owned = not (channel == 0) && (not (is_idle h.state) || contains h.channels channel)

handle_init-IsValid :
    (h : CtaphidHost) (channel total : ℕ) (body : List ℕ)
    → IsValid h
    → IsValid (handle_init h channel total body)
unfolding handle_init
handle_init-IsValid h channel total body v = elim (Bool-cases (lease_conflicts h channel)) [
  | inl e ↦ rw e (enqueue_error-IsValid h channel channel_busy v)
  | inr e ↦ rw e (elim (Bool-cases (busy_elsewhere h channel)) [
    | inl f ↦ rw f (enqueue_error-IsValid h channel channel_busy v)
    | inr f ↦ rw f (elim (Bool-cases (not (total == 8))) [
      | inl g ↦ rw g (init_error-IsValid h (is_some (busy_channel h)) channel invalid_length v)
      | inr g ↦ rw g (init_idle_or_owned-IsValid h channel body v)
    ])
  ])
]

cancel_processing-IsValid :
    (h : CtaphidHost) (channel : ℕ) (p : Processing)
    → IsValid h
    → IsValid (cancel_processing h channel p)
unfolding cancel_processing
cancel_processing-IsValid h channel p v =
    elim (Bool-cases (not (p.channel == channel) || not (command_eq p.command cbor))) [
      | inl e ↦ rw e v
      | inr e ↦ rw e (elim (Bool-cases (is_some p.request)) [
        | inl f ↦ rw f (enqueue_message-IsValid _ channel cbor _ v.base)
        | inr f ↦ rw f (record { base = v.base; owned = v.owned })
      ])
    ]

handle_cancel-IsValid :
    (h : CtaphidHost) (channel : ℕ) → IsValid h → IsValid (handle_cancel h channel)
unfolding handle_cancel
handle_cancel-IsValid h channel v =
    elim h.state
      as (λ s. IsValid (elim s [ State.processing p ↦ cancel_processing h channel p | _ ↦ h ])) [
        | State.processing p ↦ cancel_processing-IsValid h channel p v
        | _ ↦ v
      ]

start_message-IsValid :
    (h : CtaphidHost) (channel : ℕ) (command : Command) (total : ℕ) (body : List ℕ) (now : ℕ)
    → IsBase h
    → IsClient channel
    → total ≤ max_message_size
    → length body ≡ init_data
    → IsValid (start_message h channel command total body now)
unfolding start_message
start_message-IsValid h channel command total body now b client fits size =
    elim (Bool-cases (leb total init_data)) [
      | inl e ↦ rw e (complete_message-IsValid _ channel command now b client)
      | inr e ↦ rw e (record {
        base = b;
        owned = record {
          received = omega (arith, length-take (min total init_data) body, long total e);
          missing = omega (arith, length-take (min total init_data) body, long total e);
          fits = fits;
          client = client;
        };
      })
    ]
  where
    long : (n : ℕ) → leb n init_data ≡ false → init_data < n
    long n e = ground arith

pub short_enough :
    (command : Command) (total : ℕ) → bad_length command total ≡ false → total ≤ max_message_size
unfolding bad_length
short_enough command total e = elim (Bool-cases (ltb max_message_size total)) [
  | inl f ↦ cc (rw f at e)
  | inr f ↦ ground arith
]

accept_command-IsValid :
    (h : CtaphidHost) (channel : ℕ) (command : Option Command) (total : ℕ) (body : List ℕ) (now : ℕ)
    → IsBase h
    → IsClient channel
    → length body ≡ init_data
    → IsValid (accept_command h channel command total body now)
unfolding accept_command
accept_command-IsValid h channel none total body now b client size =
    finish_error-IsValid h channel invalid_command b
accept_command-IsValid h channel (some command) total body now b client size =
    elim (Bool-cases (bad_length command total)) [
      | inl e ↦ rw e (finish_error-IsValid h channel invalid_length b)
      | inr e ↦ rw e (
          start_message-IsValid h channel command total body now b client
            (short_enough command total e) size)
    ]

accept_request-IsValid :
    (h : CtaphidHost) (channel : ℕ) (command : Option Command) (total : ℕ) (body : List ℕ) (now : ℕ)
    → IsBase h
    → length body ≡ init_data
    → IsValid (accept_request h channel command total body now)
unfolding accept_request
accept_request-IsValid h channel command total body now b size =
    elim (Bool-cases (channel == 0 || channel == broadcast_cid)) [
      | inl e ↦ rw e (finish_error-IsValid h channel invalid_channel b)
      | inr e ↦ rw e (
          accept_command-IsValid h channel _ total body now b (IsClient-of_candidate channel e)
            size)
    ]

module _ (h : CtaphidHost) (v : IsValid h) (channel : ℕ) where
  module _ (command : Option Command) (total : ℕ) (body : List ℕ) (now : ℕ)
      (size : length body ≡ init_data) where
    handle_busy_request-IsValid :
        (busy : ℕ) → IsValid (handle_busy_request h channel command total body now busy)
    unfolding handle_busy_request
    handle_busy_request-IsValid busy =
        elim (Bool-cases (not (busy == channel) || refuses_requests h.state command)) [
          | inl e ↦ rw e (enqueue_error-IsValid h channel channel_busy v)
          | inr e ↦ rw e (elim (Bool-cases (is_receiving h.state)) [
            | inl f ↦ rw f (finish_error-IsValid h channel invalid_seq v.base)
            | inr f ↦ rw f (accept_request-IsValid h channel command total body now v.base size)
          ])
        ]

    handle_request-IsValid : IsValid (handle_request h channel command total body now)
    unfolding handle_request
    handle_request-IsValid = elim (Bool-cases (lease_conflicts h channel)) [
      | inl e ↦ rw e (enqueue_error-IsValid h channel channel_busy v)
      | inr e ↦
          rw e
            (elim (busy_channel h)
              as (λ b. IsValid (elim b [
                | none ↦ accept_request h channel command total body now
                | some busy ↦ handle_busy_request h channel command total body now busy
              ])) [
                | none ↦ accept_request-IsValid h channel command total body now v.base size
                | some busy ↦ handle_busy_request-IsValid busy
              ])
    ]

  handle_command-IsValid :
      (command : Option Command) (total : ℕ) (body : List ℕ) (now : ℕ)
      → length body ≡ init_data
      → IsValid (handle_command h channel command total body now)
  unfolding handle_command
  handle_command-IsValid (some cancel) total body now size = handle_cancel-IsValid h channel v
  handle_command-IsValid (some init) total body now size =
      handle_init-IsValid h channel total body v
  handle_command-IsValid command total body now size =
      handle_request-IsValid command total body now size

  module _ (r : Receiving) (partial : IsPartial r h.message) where
    abbrev extended : List ℕ → List ℕ
    extended body = h.message ++ take (min (r.length - length h.message) cont_data) body

    -- The arithmetic of one more packet.
    length-extended :
        (body : List ℕ)
        → length body ≡ cont_data
        → length (extended body) ≡ length h.message + min (r.length - length h.message) cont_data
    length-extended body size = omega (
      arith,
      length-append h.message (take (min (r.length - length h.message) cont_data) body),
      length-take (min (r.length - length h.message) cont_data) body,
    )

    not_complete : (m n : ℕ) → (m == n) ≡ false → m ≢ n
    not_complete m n e = ground arith

    continue_message-IsValid :
        (sequence : ℕ) (body : List ℕ) (now : ℕ)
        → length body ≡ cont_data
        → IsValid (continue_message h r sequence body now)
    unfolding continue_message
    continue_message-IsValid sequence body now size =
        elim (Bool-cases (not (sequence == r.next_sequence))) [
          | inl e ↦ rw e (finish_error-IsValid h r.channel invalid_seq v.base)
          | inr e ↦ rw e (elim (Bool-cases (length (extended body) == r.length)) [
            | inl f ↦
                rw f (complete_message-IsValid _ r.channel r.command now v.base partial.client)
            | inr f ↦ rw f (record {
              base = v.base;
              owned = record {
                received = omega (
                  arith,
                  length-extended body size,
                  not_complete (length (extended body)) r.length f,
                );
                missing = omega (
                  arith,
                  length-extended body size,
                  not_complete (length (extended body)) r.length f,
                );
                fits = partial.fits;
                client = partial.client;
              };
            })
          ])
        ]

  handle_continuation-IsValid :
      (sequence : ℕ) (body : List ℕ) (now : ℕ)
      → length body ≡ cont_data
      → IsValid (handle_continuation h channel sequence body now)
  unfolding handle_continuation
  handle_continuation-IsValid sequence body now size =
      (elim h.state
          as (λ s.
            IsOwned s h.message h.pending h.next_identification
            → IsValid (elim s [
              | receiving r ↦
                  if r.channel == channel then continue_message h r sequence body now else h
              | _ ↦ h
            ])) [
              | receiving r ↦ λ o. elim (Bool-cases (r.channel == channel)) [
                | inl e ↦ rw e (continue_message-IsValid r o sequence body now size)
                | inr e ↦ rw e v
              ]
              | _ ↦ λ o. v
            ])
        v.owned

pub expire_lease-IsValid : (h : CtaphidHost) (now : ℕ) → IsValid h → IsValid (expire_lease h now)
unfolding expire_lease
expire_lease-IsValid h now v =
    elim h.lease
      as (λ l. IsValid (elim l [
        | none ↦ h
        | some (owner, expires) ↦ if leb expires now then record h { lease = none } else h
      ])) [
        | none ↦ v
        | some (owner, expires) ↦ elim (Bool-cases (leb expires now)) [
          | inl e ↦ rw e (record { base = (v.base.0, v.base.1, tt, v.base.3); owned = v.owned })
          | inr e ↦ rw e v
        ]
      ]

-- A whole report leaves a valid host valid, whatever it holds and whenever it comes.
pub handle_frame-IsValid :
    (h : CtaphidHost) (frame : CtapHidFrame) (now : ℕ)
    → length frame ≡ 64
    → IsValid h
    → IsValid (handle_frame h frame now)
unfolding handle_frame
handle_frame-IsValid h frame now size v = elim (Bool-cases (ltb (get_or frame 4 0) 0x80)) [
  | inl e ↦ rw e (
      handle_continuation-IsValid (expire_lease h now) leased (frame_channel frame)
        (get_or frame 4 0) (drop 5 frame) now (omega (arith, length-drop 5 frame)))
  | inr e ↦ rw e (
      handle_command-IsValid _ touched (frame_channel frame) _ _ (drop 7 frame) now
        (omega (arith, length-drop 7 frame)))
]
  where
    leased : IsValid (expire_lease h now)
    leased = expire_lease-IsValid h now v

    touched : IsValid (record (expire_lease h now) {
      channels = touch (expire_lease h now).channels (frame_channel frame);
    })
    touched = record {
      base = (
        leased.base.0,
        touch-IsTable _ (frame_channel frame) leased.base.1,
        leased.base.2,
        leased.base.3,
      );
      owned = leased.owned;
    }
