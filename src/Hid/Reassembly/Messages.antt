-- ===== src/Hid/Reassembly/Messages.antt =====
-- A whole message, from its first report to `complete_message` of ctaphid_host.rs.
use software_authenticator.Base.{
  ℕ, suc, ◌+◌, ◌-◌, ◌%◌, ◌^◌, ◌≤◌, ◌<◌, ◌≡◌, inl, inr, refl, ap, ◌∙◌, min, true, false, ◌||◌,
  Bool-cases, none, some, List, [], ◌++◌, arith, ◌==◌, leb, ltb, leb→le, not_leb→lt, length, take,
  drop, replicate, length-take, length-drop, take-length-append, take-append-drop, take-all,
  drop-all, from_be32-be32, from_be16-be16,
}
use software_authenticator.Hid.Types.{
  Command, ping, msg, lock, init, wink, cbor, cancel, keep_alive, error, into_u8, try_from, State,
  idle, CtaphidHost, init_data, packet_size, max_message_size, broadcast_cid,
}
use software_authenticator.Hid.Channels.{touch}
use software_authenticator.Hid.Output.{report, init_packet}
use software_authenticator.Hid.Output.Fragments.{chunk_frames, packets}
use software_authenticator.Hid.Transaction.{
  expire_lease, lease_conflicts, busy_channel, complete_message,
}
use software_authenticator.Hid.Input.{
  served, bad_length, start_message, accept_command, accept_request, handle_request, handle_command,
  handle_frame,
}
use software_authenticator.Hid.Invariant.{IsClient}
use software_authenticator.Hid.Invariant.Input.{short_enough}
use software_authenticator.Hid.Reassembly.Packets.{
  feed, partly, feed-chunk_frames, chunk_frames_nil, length-chunk_frames_pos,
}

-- A host with no transaction, lease or poll.
abbrev pub open_host : CtaphidHost → CtaphidHost
open_host g = record g { state = idle; lease = none; u2f = none }

-- The command byte of an initialization packet.
command_byte :
    (command : Command)
    → (ltb (into_u8 command + 0x80) 0x80 ≡ false)
      × (try_from ((into_u8 command + 0x80) % 0x80) ≡ some command)
unfolding try_from
command_byte ping = (refl, refl)
command_byte msg = (refl, refl)
command_byte lock = (refl, refl)
command_byte init = (refl, refl)
command_byte wink = (refl, refl)
command_byte cbor = (refl, refl)
command_byte cancel = (refl, refl)
command_byte keep_alive = (refl, refl)
command_byte error = (refl, refl)

abbrev padded : List ℕ → List ℕ
padded head =
    head ++ replicate (packet_size - suc (suc (suc (suc (suc (suc (suc (length head)))))))) 0

not_reserved : (channel : ℕ) → IsClient channel → (channel == 0 || channel == broadcast_cid) ≡ false
not_reserved channel client = ground arith

module _ (g : CtaphidHost) (channel : ℕ) where
  abbrev pub touched : CtaphidHost
  touched = record (open_host g) { channels = touch g.channels channel }

  handle_frame-init_packet :
      (command : Command) (total : ℕ) (head : List ℕ) (now : ℕ)
      → channel < 2 ^ 32
      → total < 2 ^ 16
      → handle_frame (open_host g) (init_packet channel command total head) now
        ≡ handle_command touched channel (some command) total (padded head) now
  unfolding handle_frame init_packet report expire_lease
  handle_frame-init_packet command total head now c t =
      let (byte, code) = command_byte command in
      rw (byte, code, from_be32-be32 channel c, from_be16-be16 total t)

  handle_command-served :
      (h : CtaphidHost) (command : Command) (total : ℕ) (body : List ℕ) (now : ℕ)
      → served (some command) ≡ some command
      → handle_command h channel (some command) total body now
        ≡ handle_request h channel (some command) total body now
  unfolding handle_command
  handle_command-served h cancel total body now e = cc
  handle_command-served h init total body now e = cc
  handle_command-served h command total body now e = refl

  handle_request-open :
      (command : Command) (total : ℕ) (body : List ℕ) (now : ℕ)
      → IsClient channel
      → served (some command) ≡ some command
      → bad_length command total ≡ false
      → handle_request touched channel (some command) total body now
        ≡ start_message touched channel command total body now
  unfolding handle_request lease_conflicts busy_channel accept_request accept_command
  handle_request-open command total body now client s l =
      rw (not_reserved channel client) (rw s (rw l refl))

  first_bytes :
      (payload : List ℕ)
      → take (min (length payload) init_data) (padded (take init_data payload))
        ≡ take init_data payload
  first_bytes payload =
      take-length-append (min (length payload) init_data) (take init_data payload) _
        (omega (arith, length-take init_data payload))

  -- What a whole message leads to.
  abbrev pub Arrives : CtaphidHost → Command → List ℕ → ℕ → Type 0
  Arrives h command payload now =
      (s : State) × (h
        ≡ complete_message (record touched { message = payload; state = s }) channel command now)

  start_message-short :
      (command : Command) (payload : List ℕ) (now : ℕ)
      → leb (length payload) init_data ≡ true
      → start_message touched channel command (length payload) (padded (take init_data payload)) now
        ≡ complete_message (record touched { message = payload }) channel command now
  unfolding start_message
  start_message-short command payload now short = rw short (
      ap (λ m. complete_message (record touched { message = m }) channel command now)
        (first_bytes payload ∙ take-all init_data payload (leb→le _ _ short)))

  start_message-long :
      (command : Command) (payload : List ℕ) (now : ℕ)
      → leb (length payload) init_data ≡ false
      → start_message touched channel command (length payload) (padded (take init_data payload)) now
        ≡ partly touched channel command (length payload) 0 now (take init_data payload)
  unfolding start_message
  start_message-long command payload now long =
      rw long
        (ap (λ m. partly touched channel command (length payload) 0 now m) (first_bytes payload))

  started :
      (command : Command) (payload : List ℕ) (clock : ℕ → ℕ)
      → channel < 2 ^ 32
      → length payload ≤ max_message_size
      → Arrives
          (feed
            (start_message touched channel command
              (length payload)
              (padded (take init_data payload))
              (clock 0))
            (λ i. clock (suc i))
            (chunk_frames 128 channel 0 (drop init_data payload)))
          command
          payload
          (clock (length (packets channel command payload) - 1))
  unfolding packets feed
  started command payload clock c fits = elim (Bool-cases (leb (length payload) init_data)) [
    | inl short ↦
        let none_left : chunk_frames 128 channel 0 (drop init_data payload) ≡ [] =
          ap (chunk_frames 128 channel 0) (drop-all init_data payload (leb→le _ _ short))
          ∙ chunk_frames_nil 128 channel 0 in
        (idle, rw none_left (start_message-short command payload (clock 0) short))
    | inr long ↦
        let more : init_data < length payload = not_leb→lt _ _ long in
        let left = drop init_data payload in
        let fs = chunk_frames 128 channel 0 left in
        let (sequence, done) =
          feed-chunk_frames touched channel command (length payload) 128 0 (clock 0)
            (take init_data payload) left (λ i. clock (suc i)) c (omega arith)
            (omega (arith, length-take init_data payload, length-drop init_data payload))
            (omega (arith, length-drop init_data payload))
            (omega (arith, length-drop init_data payload)) in
        let last_time : suc (length fs - 1) ≡ suc (length fs) - 1 = omega (
          arith,
          length-chunk_frames_pos 128 channel 0 left (omega arith)
              (omega (arith, length-drop init_data payload)),
        ) in
        let end : CtaphidHost =
          partly touched channel command (length payload) sequence (clock (suc (length fs) - 1))
            payload in
        (
          end.state,
          ap (λ h. feed h (λ i. clock (suc i)) fs)
                (start_message-long command payload (clock 0) long)
              ∙ done
              ∙ ap
                  (λ m.
                    complete_message
                      (partly touched channel command (length payload) sequence
                        (clock (suc (length fs - 1))) m)
                      channel command (clock (suc (length fs - 1))))
                  (take-append-drop init_data payload)
              ∙ ap
                  (λ t.
                    complete_message
                      (partly touched channel command (length payload) sequence (clock t) payload)
                      channel command (clock t))
                  last_time,
        )
  ]

  pub packets-Arrives :
      (command : Command) (payload : List ℕ) (clock : ℕ → ℕ)
      → IsClient channel
      → channel < 2 ^ 32
      → served (some command) ≡ some command
      → bad_length command (length payload) ≡ false
      → Arrives
          (feed (open_host g) clock (packets channel command payload))
          command
          payload
          (clock (length (packets channel command payload) - 1))
  unfolding packets feed
  packets-Arrives command payload clock client c s l =
      let fits : length payload ≤ max_message_size = short_enough command (length payload) l in
      let (state, done) = started command payload clock c fits in
      (
        state,
        ap (λ h. feed h (λ i. clock (suc i)) (chunk_frames 128 channel 0 (drop init_data payload)))
              (handle_frame-init_packet command (length payload) (take init_data payload) (clock 0)
                  c (omega arith)
                ∙ handle_command-served touched command (length payload) _ (clock 0) s
                ∙ handle_request-open command (length payload) _ (clock 0) client s l)
            ∙ done,
      )

-- A host with no transaction, lease or poll, in its own words.
pub record IsOpen (h : CtaphidHost) : Type 0 where
  pub no_transaction : h.state ≡ idle
  pub no_lease : h.lease ≡ none
  pub no_poll : h.u2f ≡ none

pub open_host_lem : (h : CtaphidHost) → IsOpen h → open_host h ≡ h
open_host_lem h o = ground (arith, o.no_transaction, o.no_lease, o.no_poll)
