-- ===== src/Hid/Arbitration.antt =====
-- Who may start a transaction (`handle_frame` of ctaphid_host.rs): busy channels and leases.
use software_authenticator.Base.{
  ℕ, ◌%◌, ◌<◌, ◌≡◌, ◌≢◌, inl, inr, ap, ◌∙◌, Bool, true, false, not, Bool-cases, Option, some, List,
  [], ◌∷◌, arith, ◌==◌, ltb, get_or, drop, if◌then◌else◌,
}
use software_authenticator.Hid.Types.{
  Command, init, cancel, error, try_from, channel_busy, error_code, CtapHidFrame, CtaphidHost,
}
use software_authenticator.Hid.Channels.{touch}
use software_authenticator.Hid.Output.Fragments.{append_frames, message_frames, enqueue_error_lem}
use software_authenticator.Hid.Transaction.{expire_lease, lease_conflicts, busy_of, busy_channel}
use software_authenticator.Hid.Input.{
  cancel_processing, handle_cancel, busy_elsewhere, handle_init, handle_request,
  handle_busy_request, handle_continuation, handle_command, frame_channel, handle_frame,
}

-- The host after it refused a channel: one ERR_CHANNEL_BUSY report more.
abbrev pub refused : CtaphidHost → ℕ → CtaphidHost
refused h channel = append_frames h (message_frames channel error (error_code channel_busy ∷ []))

-- CANCEL is never answered.
abbrev pub is_cancel : Option Command → Bool
is_cancel (some cancel) = true
is_cancel _ = false

-- The channel of a report becomes the most recently used one, if it starts a message.
abbrev pub mark_used : CtaphidHost → CtapHidFrame → ℕ → CtaphidHost
mark_used h frame now = record (expire_lease h now) {
  channels = touch (expire_lease h now).channels (frame_channel frame);
}

module _ (h : CtaphidHost) (channel busy : ℕ) (b : busy_channel h ≡ some busy)
    (other : busy ≢ channel) where
  differs : not (busy == channel) ≡ true
  differs = ground arith

  busy_elsewhere-true : busy_elsewhere h channel ≡ true
  unfolding busy_elsewhere
  busy_elsewhere-true = ground (arith, b, differs)

  handle_init-refused :
      (total : ℕ) (body : List ℕ) → handle_init h channel total body ≡ refused h channel
  unfolding handle_init
  handle_init-refused total body =
      ground (arith, busy_elsewhere-true, enqueue_error_lem h channel channel_busy)

  handle_request-refused :
      (command : Option Command) (total : ℕ) (body : List ℕ) (now : ℕ)
      → handle_request h channel command total body now ≡ refused h channel
  unfolding handle_request handle_busy_request
  handle_request-refused command total body now =
      ground (arith, b, differs, enqueue_error_lem h channel channel_busy)

  -- CANCEL and continuation packets of another channel do nothing.
  handle_cancel-ignored : handle_cancel h channel ≡ h
  unfolding handle_cancel cancel_processing busy_channel busy_of
  handle_cancel-ignored = ground arith

  handle_continuation-ignored :
      (sequence : ℕ) (body : List ℕ) (now : ℕ) → handle_continuation h channel sequence body now ≡ h
  unfolding handle_continuation busy_channel busy_of
  handle_continuation-ignored sequence body now = ground arith

  handle_command-other :
      (command : Option Command) (total : ℕ) (body : List ℕ) (now : ℕ)
      → handle_command h channel command total body now
        ≡ (if is_cancel command then h else refused h channel)
  unfolding handle_command
  handle_command-other (some cancel) total body now = handle_cancel-ignored
  handle_command-other (some init) total body now = handle_init-refused total body
  handle_command-other command total body now = handle_request-refused command total body now

module _ (h : CtaphidHost) (now : ℕ) where
  state_after_expiry : (expire_lease h now).state ≡ h.state
  unfolding expire_lease
  state_after_expiry = ground arith

  u2f_after_expiry : (expire_lease h now).u2f ≡ h.u2f
  unfolding expire_lease
  u2f_after_expiry = ground arith

  busy_after_expiry : busy_channel (expire_lease h now) ≡ busy_channel h
  unfolding busy_channel
  busy_after_expiry =
      ap (λ s. busy_of s (expire_lease h now).u2f) state_after_expiry
      ∙ ap (busy_of h.state) u2f_after_expiry

-- While a channel has a transaction or an unanswered poll, a report of any other channel leaves the
-- transaction alone: a continuation packet does nothing, CANCEL does nothing but mark the sending
-- channel as used, and any other first packet is answered by one ERR_CHANNEL_BUSY besides. (An
-- expired lease is dropped in each case.)
pub handle_frame-other_channel :
    (h : CtaphidHost) (frame : CtapHidFrame) (now busy : ℕ)
    → busy_channel h ≡ some busy
    → busy ≢ frame_channel frame
    → handle_frame h frame now ≡ (
        if ltb (get_or frame 4 0) 0x80
        then expire_lease h now
        else if is_cancel (try_from (get_or frame 4 0 % 0x80))
        then mark_used h frame now
        else refused (mark_used h frame now) (frame_channel frame))
unfolding handle_frame
handle_frame-other_channel h frame now busy b other =
    elim (Bool-cases (ltb (get_or frame 4 0) 0x80)) [
      | inl e ↦ rw e (
          handle_continuation-ignored (expire_lease h now) (frame_channel frame) busy
            (busy_after_expiry h now ∙ b) other (get_or frame 4 0) (drop 5 frame) now)
      | inr e ↦ rw e (
          handle_command-other (mark_used h frame now) (frame_channel frame) busy
            (unfold busy_channel in busy_after_expiry h now ∙ b) other _ _ (drop 7 frame) now)
    ]

lease_alive :
    (h : CtaphidHost) (now owner expires : ℕ)
    → h.lease ≡ some (owner, expires)
    → now < expires
    → expire_lease h now ≡ h
unfolding expire_lease
lease_alive h now owner expires l early = ground arith

lease_conflicts_other :
    (h : CtaphidHost) (channel owner expires : ℕ)
    → h.lease ≡ some (owner, expires)
    → owner ≢ channel
    → lease_conflicts h channel ≡ true
unfolding lease_conflicts
lease_conflicts_other h channel owner expires l other = ground arith

module _ (h : CtaphidHost) (channel : ℕ) (leased : lease_conflicts h channel ≡ true) where
  handle_command-leased :
      (command : Option Command) (total : ℕ) (body : List ℕ) (now : ℕ)
      → is_cancel command ≡ false
      → handle_command h channel command total body now ≡ refused h channel
  unfolding handle_command handle_init handle_request
  handle_command-leased (some cancel) total body now e = cc
  handle_command-leased (some init) total body now e =
      rw leased (enqueue_error_lem h channel channel_busy)
  handle_command-leased command total body now e =
      rw leased (enqueue_error_lem h channel channel_busy)

-- During a lease, every first packet of a channel that does not own it, CANCEL apart, is answered by
-- one ERR_CHANNEL_BUSY and changes nothing else but the channel's place in the table.
pub handle_frame-leased :
    (h : CtaphidHost) (frame : CtapHidFrame) (now owner expires : ℕ)
    → h.lease ≡ some (owner, expires)
    → now < expires
    → owner ≢ frame_channel frame
    → ltb (get_or frame 4 0) 0x80 ≡ false
    → is_cancel (try_from (get_or frame 4 0 % 0x80)) ≡ false
    → handle_frame h frame now
      ≡ refused
          (record h { channels = touch h.channels (frame_channel frame) })
          (frame_channel frame)
unfolding handle_frame
handle_frame-leased h frame now owner expires l early other first answered = rw first (
    rw (lease_alive h now owner expires l early) (
      handle_command-leased _ (frame_channel frame)
        (lease_conflicts_other (record h { channels = touch h.channels (frame_channel frame) })
          (frame_channel frame) owner expires l other)
        _ _ (drop 7 frame) now answered))
