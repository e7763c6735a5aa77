-- ===== src/Hid/Tests.antt =====
-- Concrete runs of the CTAPHID host (ctaphid_host.rs): a channel is allocated, and a PING is received
-- on it.
use software_authenticator.Base.{
  ℕ, ◌+◌, ◌-◌, ◌≡◌, ◌<◌, ◌≤◌, refl, inl, false, some, List, [], ◌∷◌, ◌++◌, arith, length, replicate,
  bytes_eq_refl, if◌then◌else◌, All, ltb, get_or, ◌%◌,
}
use software_authenticator.Hid.Types.{
  try_from, ping, cbor, DeniedPoll, OutgoingFrame, transmitting, idle, Transmitting, Receiving,
  CtaphidHost, with_rng, max_message_size, set_version, set_capabilities,
}
use software_authenticator.Hid.Channels.{
  touch, insert, contains, remove_first, allocate_rounds, allocate_channel,
}
use software_authenticator.Hid.Output.{
  cont_packet, enqueue_error, enqueue_message, finish_error, front, head_has_token, init_packet,
  is_outgoing_current, next_outgoing_frame, outgoing_frame_written, queue_chunks, queue_frame,
  queue_message, queue_packets, release, report,
}
use software_authenticator.Hid.Transaction.{
  begin_processing, busy_channel, busy_of, complete_lock, complete_message, complete_msg,
  complete_new_msg, complete_ping, complete_polled_msg, complete_wink, expire_lease, find_denied,
  is_fresh, lease_conflicts, polling_channel, recently_denied, same_poll, touch_denied,
}
use software_authenticator.Hid.Input.{
  accept_command, accept_request, bad_length, busy_elsewhere, cancel_processing, continue_message,
  frame_channel, handle_busy_request, handle_cancel, handle_command, handle_continuation,
  handle_frame, handle_init, handle_request, init_allocated, init_error, init_idle_or_owned,
  init_response, is_unanswered, on_channel, polls_on, resynchronize, start_message,
}
use software_authenticator.Hid.App.{take_app_request}
use software_authenticator.Hid.Output.Fragments.{
  packets, message_frames, append_frames, label, IsReport, queue_message_lem,
  message_frames-IsReport,
}
use software_authenticator.Hid.Invariant.{IsValid}
use software_authenticator.Hid.Steps.{
  Call, frames, written, run, step, run-with_rng-IsValid, receiving_bounds,
}
use software_authenticator.Hid.Drain.{
  write_next, write_times, write_times_releases, write_times_final,
}
use software_authenticator.Hid.Reassembly.Packets.{feed}
use software_authenticator.Hid.Reassembly.Messages.{IsOpen}
use software_authenticator.Hid.Reassembly.RoundTrip.{feed-ping_echoes, feed-cbor_hands_out}
use software_authenticator.Hid.Arbitration.{
  is_cancel, mark_used, refused, handle_frame-other_channel, handle_frame-leased,
}
use software_authenticator.Hid.Resync.{MayResync, init_invalidates}

abbrev seven : ℕ → ℕ
seven n = 7

abbrev init_frame : List ℕ
init_frame = 255 ∷ 255 ∷ 255 ∷ 255 ∷ 0x86 ∷ 0 ∷ 8 ∷ replicate 57 1

-- The reports of a PING of `n < 58` bytes, and of the first 57 of 100 bytes.
abbrev ping_frame : List ℕ
ping_frame = 0 ∷ 0 ∷ 0 ∷ 7 ∷ 0x81 ∷ 0 ∷ 1 ∷ 9 ∷ replicate 56 0

abbrev long_ping_frame : List ℕ
long_ping_frame = 0 ∷ 0 ∷ 0 ∷ 7 ∷ 0x81 ∷ 0 ∷ 100 ∷ replicate 57 9

abbrev other_ping_frame : List ℕ
other_ping_frame = 0 ∷ 0 ∷ 0 ∷ 9 ∷ 0x81 ∷ 0 ∷ 1 ∷ 9 ∷ replicate 56 0

abbrev ping_calls : List Call
ping_calls =
    frames init_frame 0 ∷ written (record { frame = []; token = 0 }) ∷ frames ping_frame 1 ∷ []

abbrev long_ping_calls : List Call
long_ping_calls =
    frames init_frame 0 ∷ written (record { frame = []; token = 0 }) ∷ frames long_ping_frame 1 ∷ []

abbrev echoing : Transmitting
echoing = record { channel = 7; final_frame = 1 }

abbrev echo : OutgoingFrame
echo = record { frame = ping_frame; token = 1 }

abbrev ping_host : CtaphidHost
ping_host = run (with_rng seven) ping_calls

run-with_rng-IsValid_example : IsValid (run (with_rng seven) ping_calls)
run-with_rng-IsValid_example = run-with_rng-IsValid seven ping_calls (refl, (tt, (refl, tt)))

abbrev half_received : Receiving
half_received = record {
  channel = 7;
  command = ping;
  length = 100;
  next_sequence = 0;
  last_packet_at = 1;
}

receiving_bounds_example :
    (0 ≤ 127)
    × (length (run (with_rng seven) long_ping_calls).message < 100)
    × (100 ≤ max_message_size)
unfolding try_from with_rng set_version set_capabilities contains remove_first touch insert
    allocate_rounds allocate_channel report init_packet cont_packet queue_frame queue_chunks
    queue_packets queue_message enqueue_message enqueue_error finish_error front next_outgoing_frame
    head_has_token is_outgoing_current release outgoing_frame_written expire_lease lease_conflicts
    polling_channel busy_of busy_channel complete_wink complete_lock complete_ping begin_processing
    is_fresh same_poll find_denied touch_denied recently_denied complete_new_msg complete_polled_msg
    complete_msg complete_message cancel_processing handle_cancel on_channel polls_on is_unanswered
    init_response resynchronize init_error init_allocated init_idle_or_owned busy_elsewhere
    handle_init bad_length start_message accept_command accept_request handle_busy_request
    handle_request continue_message handle_continuation handle_command handle_frame step run
receiving_bounds_example =
    receiving_bounds seven long_ping_calls half_received (refl, (tt, (refl, tt))) refl

ping_host-IsValid : IsValid ping_host
ping_host-IsValid = run-with_rng-IsValid seven ping_calls (refl, (tt, (refl, tt)))

write_times_releases_example :
    ((write_times (length ping_host.pending) ping_host).state ≡ idle)
    × ((write_times (length ping_host.pending) ping_host).pending ≡ [])
unfolding try_from with_rng set_version set_capabilities contains remove_first touch insert
    allocate_rounds allocate_channel report init_packet cont_packet queue_frame queue_chunks
    queue_packets queue_message enqueue_message enqueue_error finish_error front next_outgoing_frame
    head_has_token is_outgoing_current release outgoing_frame_written expire_lease lease_conflicts
    polling_channel busy_of busy_channel complete_wink complete_lock complete_ping begin_processing
    is_fresh same_poll find_denied touch_denied recently_denied complete_new_msg complete_polled_msg
    complete_msg complete_message cancel_processing handle_cancel on_channel polls_on is_unanswered
    init_response resynchronize init_error init_allocated init_idle_or_owned busy_elsewhere
    handle_init bad_length start_message accept_command accept_request handle_busy_request
    handle_request continue_message handle_continuation handle_command handle_frame step run
write_times_releases_example = write_times_releases ping_host echoing ping_host-IsValid refl

write_times_final_example :
    ((write_times (length {A = OutgoingFrame} []) ping_host).state ≡ transmitting echoing)
    × ((write_next (write_times (length {A = OutgoingFrame} []) ping_host)).state ≡ idle)
unfolding try_from with_rng set_version set_capabilities contains remove_first touch insert
    allocate_rounds allocate_channel report init_packet cont_packet queue_frame queue_chunks
    queue_packets queue_message enqueue_message enqueue_error finish_error front next_outgoing_frame
    head_has_token is_outgoing_current release outgoing_frame_written expire_lease lease_conflicts
    polling_channel busy_of busy_channel complete_wink complete_lock complete_ping begin_processing
    is_fresh same_poll find_denied touch_denied recently_denied complete_new_msg complete_polled_msg
    complete_msg complete_message cancel_processing handle_cancel on_channel polls_on is_unanswered
    init_response resynchronize init_error init_allocated init_idle_or_owned busy_elsewhere
    handle_init bad_length start_message accept_command accept_request handle_busy_request
    handle_request continue_message handle_continuation handle_command handle_frame step run
write_times_final_example =
    write_times_final ping_host echoing [] [] echo ping_host-IsValid refl refl refl

abbrev new_host : CtaphidHost
new_host = with_rng seven

new_host-IsOpen : IsOpen new_host
unfolding with_rng
new_host-IsOpen = record { no_transaction = refl; no_lease = refl; no_poll = refl }

abbrev payload : List ℕ
payload = replicate 100 5

feed-ping_echoes_example :
    (feed new_host (λ n. n) (packets 7 ping payload)).pending
    ≡ new_host.pending ++ label new_host.next_token (packets 7 ping payload)
feed-ping_echoes_example =
    feed-ping_echoes new_host 7 payload (λ n. n) new_host-IsOpen (omega arith, omega arith)
      (omega arith) (omega arith)

feed-cbor_hands_out_example :
    (take_app_request (feed new_host (λ n. n) (packets 7 cbor payload))).1
    ≡ some (record { command = cbor; payload = payload })
unfolding with_rng
feed-cbor_hands_out_example =
    feed-cbor_hands_out new_host 7 payload (λ n. n) new_host-IsOpen (omega arith, omega arith)
      (omega arith) (omega arith) (omega arith) refl

handle_frame-other_channel_example : handle_frame ping_host other_ping_frame 2 ≡ (
    if ltb (get_or other_ping_frame 4 0) 0x80
    then expire_lease ping_host 2
    else if is_cancel (try_from (get_or other_ping_frame 4 0 % 0x80))
    then mark_used ping_host other_ping_frame 2
    else refused (mark_used ping_host other_ping_frame 2) (frame_channel other_ping_frame))
unfolding try_from with_rng set_version set_capabilities contains remove_first touch insert
    allocate_rounds allocate_channel report init_packet cont_packet queue_frame queue_chunks
    queue_packets queue_message enqueue_message enqueue_error finish_error front next_outgoing_frame
    head_has_token is_outgoing_current release outgoing_frame_written expire_lease lease_conflicts
    polling_channel busy_of busy_channel complete_wink complete_lock complete_ping begin_processing
    is_fresh same_poll find_denied touch_denied recently_denied complete_new_msg complete_polled_msg
    complete_msg complete_message cancel_processing handle_cancel on_channel polls_on is_unanswered
    init_response resynchronize init_error init_allocated init_idle_or_owned busy_elsewhere
    handle_init bad_length start_message accept_command accept_request handle_busy_request
    handle_request continue_message handle_continuation handle_command handle_frame step run
handle_frame-other_channel_example =
    handle_frame-other_channel ping_host other_ping_frame 2 7 refl (omega arith)

abbrev leased_host : CtaphidHost
leased_host = record new_host { lease = some (7, 1000) }

handle_frame-leased_example :
    handle_frame leased_host other_ping_frame 5
    ≡ refused
        (record leased_host {
          channels = touch leased_host.channels (frame_channel other_ping_frame);
        })
        (frame_channel other_ping_frame)
unfolding try_from with_rng set_version set_capabilities contains remove_first touch insert
    allocate_rounds allocate_channel report init_packet cont_packet queue_frame queue_chunks
    queue_packets queue_message enqueue_message enqueue_error finish_error front next_outgoing_frame
    head_has_token is_outgoing_current release outgoing_frame_written expire_lease lease_conflicts
    polling_channel busy_of busy_channel complete_wink complete_lock complete_ping begin_processing
    is_fresh same_poll find_denied touch_denied recently_denied complete_new_msg complete_polled_msg
    complete_msg complete_message cancel_processing handle_cancel on_channel polls_on is_unanswered
    init_response resynchronize init_error init_allocated init_idle_or_owned busy_elsewhere
    handle_init bad_length start_message accept_command accept_request handle_busy_request
    handle_request continue_message handle_continuation handle_command handle_frame step run
handle_frame-leased_example =
    handle_frame-leased leased_host other_ping_frame 5 7 1000 refl (omega arith) (omega arith) refl
      refl

ping_host-MayResync : MayResync ping_host 7
unfolding try_from with_rng set_version set_capabilities contains remove_first touch insert
    allocate_rounds allocate_channel report init_packet cont_packet queue_frame queue_chunks
    queue_packets queue_message enqueue_message enqueue_error finish_error front next_outgoing_frame
    head_has_token is_outgoing_current release outgoing_frame_written expire_lease lease_conflicts
    polling_channel busy_of busy_channel complete_wink complete_lock complete_ping begin_processing
    is_fresh same_poll find_denied touch_denied recently_denied complete_new_msg complete_polled_msg
    complete_msg complete_message cancel_processing handle_cancel on_channel polls_on is_unanswered
    init_response resynchronize init_error init_allocated init_idle_or_owned busy_elsewhere
    handle_init bad_length start_message accept_command accept_request handle_busy_request
    handle_request continue_message handle_continuation handle_command handle_frame step run
ping_host-MayResync = record {
  unleased = refl;
  not_elsewhere = refl;
  not_broadcast = omega arith;
  not_zero = omega arith;
  known = refl;
}

abbrev nonce : List ℕ
nonce = replicate 57 3

-- Channel 7 was denied presence for one request and channel 5 for another.
abbrev denied_host : CtaphidHost
denied_host = record ping_host { denied_polls = denial 5 (1 ∷ []) ∷ denial 7 (2 ∷ []) ∷ [] }
  where
    denial : ℕ → List ℕ → DeniedPoll
    denial channel request = record { channel = channel; request = request; last_poll = 0 }

init_invalidates_example : is_outgoing_current (handle_init ping_host 7 8 nonce) echo ≡ false
unfolding try_from with_rng set_version set_capabilities contains remove_first touch insert
    allocate_rounds allocate_channel report init_packet cont_packet queue_frame queue_chunks
    queue_packets queue_message enqueue_message enqueue_error finish_error front next_outgoing_frame
    head_has_token is_outgoing_current release outgoing_frame_written expire_lease lease_conflicts
    polling_channel busy_of busy_channel complete_wink complete_lock complete_ping begin_processing
    is_fresh same_poll find_denied touch_denied recently_denied complete_new_msg complete_polled_msg
    complete_msg complete_message cancel_processing handle_cancel on_channel polls_on is_unanswered
    init_response resynchronize init_error init_allocated init_idle_or_owned busy_elsewhere
    handle_init bad_length start_message accept_command accept_request handle_busy_request
    handle_request continue_message handle_continuation handle_command handle_frame step run
init_invalidates_example =
    init_invalidates ping_host 7 nonce echo ping_host-IsValid ping_host-MayResync (inl refl)
      (bytes_eq_refl (0 ∷ 0 ∷ 0 ∷ 7 ∷ []))

queue_message_lem_example : queue_message ping_host 7 ping payload ≡ (
  append_frames ping_host (message_frames 7 ping payload),
  ping_host.next_token + length (message_frames 7 ping payload) - 1,
)
queue_message_lem_example = queue_message_lem ping_host 7 ping payload

message_frames-IsReport_example : All (IsReport 7) (message_frames 7 ping payload)
message_frames-IsReport_example = message_frames-IsReport 7 ping payload
