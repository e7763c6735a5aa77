-- ===== src/Hid/Reassembly/RoundTrip.antt =====
-- Round trips of messages through the reports of ctaphid_host.rs.
use software_authenticator.Base.{
  ℕ, ◌^◌, ◌≤◌, ◌<◌, ◌≡◌, refl, sym, ap, ◌∙◌, true, false, ◌&&◌, some, List, ◌++◌, arith, leb,
  length,
}
use software_authenticator.Hid.Types.{Command, ping, cbor, CtaphidHost, max_message_size}
use software_authenticator.Hid.Output.Fragments.{
  packets, message_frames, label, enqueue_message_lem,
}
use software_authenticator.Hid.Transaction.{complete_message, complete_ping, begin_processing}
use software_authenticator.Hid.Input.{bad_length}
use software_authenticator.Hid.App.{take_app_request, hand_out}
use software_authenticator.Hid.Invariant.{IsClient}
use software_authenticator.Hid.Reassembly.Packets.{feed}
use software_authenticator.Hid.Reassembly.Messages.{IsOpen, open_host_lem, packets-Arrives}

ping_length : (n : ℕ) → n ≤ max_message_size → bad_length ping n ≡ false
unfolding bad_length
ping_length n h = ground arith

cbor_length : (n : ℕ) → 0 < n → n ≤ max_message_size → bad_length cbor n ≡ false
unfolding bad_length
cbor_length n p h = ground arith

message_frames-eq-packets :
    (channel : ℕ) (command : Command) (payload : List ℕ)
    → length payload ≤ max_message_size
    → message_frames channel command payload ≡ packets channel command payload
unfolding message_frames
message_frames-eq-packets channel command payload h = rw (fits (length payload) h)
  where
    fits : (n : ℕ) → n ≤ max_message_size → (leb n 65535 && leb n max_message_size) ≡ true
    fits n h = ground arith

module _ (h : CtaphidHost) (channel : ℕ) (payload : List ℕ) (clock : ℕ → ℕ) (free : IsOpen h)
    (client : IsClient channel) (word : channel < 2 ^ 32)
    (fits : length payload ≤ max_message_size) where
  -- PING echoes: an open host that receives the reports of a PING of at most 7609 bytes, at any
  -- times, queues exactly those reports, behind what was queued and under consecutive tokens.
  pub feed-ping_echoes :
      (feed h clock (packets channel ping payload)).pending
      ≡ h.pending ++ label h.next_token (packets channel ping payload)
  unfolding complete_message complete_ping
  feed-ping_echoes =
      let (state, done) =
        packets-Arrives h channel ping payload clock client word refl
          (ping_length (length payload) fits) in
      ap (λ g. (feed g clock (packets channel ping payload)).pending) (sym (open_host_lem h free))
      ∙ ap (λ g. g.pending) done
      ∙ ap (λ g. g.pending) (enqueue_message_lem _ channel ping payload)
      ∙ ap (λ fs. h.pending ++ label h.next_token fs)
          (message_frames-eq-packets channel ping payload fits)

  -- A CBOR request of one to 7609 bytes, received in reports at any times by an open host whose app
  -- is free, is handed to the app as it was sent.
  pub feed-cbor_hands_out :
      0 < length payload
      → h.app_busy ≡ false
      → (take_app_request (feed h clock (packets channel cbor payload))).1
        ≡ some (record { command = cbor; payload = payload })
  unfolding complete_message begin_processing take_app_request hand_out
  feed-cbor_hands_out some_bytes app_free =
      let (state, done) =
        packets-Arrives h channel cbor payload clock client word refl
          (cbor_length (length payload) some_bytes fits) in
      ap (λ g. (take_app_request (feed g clock (packets channel cbor payload))).1)
        (sym (open_host_lem h free))
      ∙ ap (λ g. (take_app_request g).1) done
      ∙ ground (arith, app_free)
