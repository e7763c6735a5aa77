-- ===== src/Hid/Output/Fragments.antt =====
-- The reports of a message, without the host: what `queue_message` of ctaphid_host.rs appends.
use software_authenticator.Base.{
  ℕ, zero, suc, ◌+◌, ◌-◌, ◌≤◌, ◌≡◌, refl, ◌&&◌, List, [], ◌∷◌, ◌++◌, append-nil, append_assoc,
  arith, leb, inl, inr, Bool-cases, if◌then◌else◌, length, take, drop, All, length-append,
  length-take, length-replicate, replicate, be32,
}
use software_authenticator.Hid.Types.{
  Command, error, ErrorCode, other, error_code, CtapHidFrame, OutgoingFrame, CtaphidHost,
  packet_size, init_data, cont_data, max_message_size, transmitting,
}
use software_authenticator.Hid.Output.{
  report, init_packet, cont_packet, queue_frame, queue_chunks, queue_packets, queue_message,
  enqueue_message, enqueue_error,
}

unfoldable pub chunk_frames : ℕ → ℕ → ℕ → List ℕ → List CtapHidFrame
chunk_frames zero channel sequence rest = []
chunk_frames (suc n) channel sequence [] = []
chunk_frames (suc n) channel sequence (b ∷ rest) =
    cont_packet channel sequence (take cont_data (b ∷ rest))
    ∷ chunk_frames n channel (sequence + 1) (drop cont_data (b ∷ rest))

unfoldable pub packets : ℕ → Command → List ℕ → List CtapHidFrame
packets channel command payload =
    init_packet channel command (length payload) (take init_data payload)
    ∷ chunk_frames 128 channel 0 (drop init_data payload)

-- The reports of a message; one that is too long is replaced by ERR_OTHER.
unfoldable pub message_frames : ℕ → Command → List ℕ → List CtapHidFrame
message_frames channel command payload =
    if leb (length payload) 65535 && leb (length payload) max_message_size
    then packets channel command payload
    else packets channel error (error_code other ∷ [])

-- Reports under consecutive tokens.
abbrev pub label : ℕ → List CtapHidFrame → List OutgoingFrame
label n [] = []
label n (f ∷ fs) = record { frame = f; token = n } ∷ label (n + 1) fs

abbrev pub append_frames : CtaphidHost → List CtapHidFrame → CtaphidHost
append_frames h fs = record h {
  pending = h.pending ++ label h.next_token fs;
  next_token = h.next_token + length fs;
}

append_frames_cons :
    (h : CtaphidHost) (f : CtapHidFrame) (fs : List CtapHidFrame)
    → append_frames (queue_frame h f).0 fs ≡ append_frames h (f ∷ fs)
unfolding queue_frame
append_frames_cons h f fs = ground (
  arith,
  append_assoc h.pending (record { frame = f; token = h.next_token } ∷ [])
      (label (h.next_token + 1) fs),
)

queue_chunks_lem :
    (n : ℕ) (h : CtaphidHost) (channel sequence : ℕ) (rest : List ℕ) (last : ℕ)
    → h.next_token ≡ last + 1
    → queue_chunks n h channel sequence rest last ≡ (
      append_frames h (chunk_frames n channel sequence rest),
      last + length (chunk_frames n channel sequence rest),
    )
unfolding queue_chunks chunk_frames
queue_chunks_lem zero h channel sequence rest last e = ground (arith, append-nil h.pending)
queue_chunks_lem (suc n) h channel sequence [] last e = ground (arith, append-nil h.pending)
queue_chunks_lem (suc n) h channel sequence (b ∷ rest) last e =
    let frame = cont_packet channel sequence (take cont_data (b ∷ rest)) in
    let fs = chunk_frames n channel (sequence + 1) (drop cont_data (b ∷ rest)) in
    ground (
      arith,
      append_frames_cons h frame fs,
      queue_chunks_lem n (queue_frame h frame).0 channel (sequence + 1) (drop cont_data (b ∷ rest))
          h.next_token refl,
    )

queue_packets_lem :
    (h : CtaphidHost) (channel : ℕ) (command : Command) (payload : List ℕ)
    → queue_packets h channel command payload ≡ (
      append_frames h (packets channel command payload),
      h.next_token + length (packets channel command payload) - 1,
    )
unfolding queue_packets packets
queue_packets_lem h channel command payload =
    let frame = init_packet channel command (length payload) (take init_data payload) in
    let fs = chunk_frames 128 channel 0 (drop init_data payload) in
    ground (
      arith,
      append_frames_cons h frame fs,
      queue_chunks_lem 128 (queue_frame h frame).0 channel 0 (drop init_data payload) h.next_token
          refl,
    )

-- A message is appended whole, behind what is queued, under consecutive tokens; the token returned
-- is the last report's, and nothing else of the host changes.
pub queue_message_lem :
    (h : CtaphidHost) (channel : ℕ) (command : Command) (payload : List ℕ)
    → queue_message h channel command payload ≡ (
      append_frames h (message_frames channel command payload),
      h.next_token + length (message_frames channel command payload) - 1,
    )
unfolding queue_message message_frames
queue_message_lem h channel command payload =
    elim (Bool-cases (leb (length payload) 65535 && leb (length payload) max_message_size)) [
      | inl fits ↦ rw fits (queue_packets_lem h channel command payload)
      | inr long ↦ rw long (queue_packets_lem h channel error (error_code other ∷ []))
    ]

abbrev last_token : CtaphidHost → ℕ → Command → List ℕ → ℕ
last_token h channel command payload =
    h.next_token + length (message_frames channel command payload) - 1

pub enqueue_message_lem :
    (h : CtaphidHost) (channel : ℕ) (command : Command) (payload : List ℕ)
    → enqueue_message h channel command payload
      ≡ record (append_frames h (message_frames channel command payload)) {
        state =
            transmitting
              (record { channel = channel; final_frame = last_token h channel command payload });
      }
unfolding enqueue_message
enqueue_message_lem h channel command payload =
    ground (arith, queue_message_lem h channel command payload)

pub enqueue_error_lem :
    (h : CtaphidHost) (channel : ℕ) (code : ErrorCode)
    → enqueue_error h channel code
      ≡ append_frames h (message_frames channel error (error_code code ∷ []))
unfolding enqueue_error
enqueue_error_lem h channel code =
    ground (arith, queue_message_lem h channel error (error_code code ∷ []))

chunk_frames-length-le :
    (n channel sequence : ℕ) (rest : List ℕ) → length (chunk_frames n channel sequence rest) ≤ n
unfolding chunk_frames
chunk_frames-length-le zero channel sequence rest = omega arith
chunk_frames-length-le (suc n) channel sequence [] = omega arith
chunk_frames-length-le (suc n) channel sequence (b ∷ rest) =
    omega (arith, chunk_frames-length-le n channel (sequence + 1) (drop cont_data (b ∷ rest)))

length-packets_bounds :
    (channel : ℕ) (command : Command) (payload : List ℕ)
    → (1 ≤ length (packets channel command payload))
      × (length (packets channel command payload) ≤ 129)
unfolding packets
length-packets_bounds channel command payload =
    omega (arith, chunk_frames-length-le 128 channel 0 (drop init_data payload))

-- A message is one report at least and 129 at most.
pub length-message_frames_bounds :
    (channel : ℕ) (command : Command) (payload : List ℕ)
    → (1 ≤ length (message_frames channel command payload))
      × (length (message_frames channel command payload) ≤ 129)
unfolding message_frames
length-message_frames_bounds channel command payload =
    elim (Bool-cases (leb (length payload) 65535 && leb (length payload) max_message_size)) [
      | inl fits ↦ rw fits (length-packets_bounds channel command payload)
      | inr long ↦ rw long (length-packets_bounds channel error (error_code other ∷ []))
    ]

length-report : (bytes : List ℕ) → length bytes ≤ packet_size → length (report bytes) ≡ packet_size
unfolding report
length-report bytes h = omega (
  arith,
  length-append bytes (replicate (packet_size - length bytes) 0),
  length-replicate {A = ℕ} (packet_size - length bytes) 0,
)

-- A whole report, on the channel.
abbrev pub IsReport : ℕ → CtapHidFrame → Type 0
IsReport channel f = (length f ≡ packet_size) × (take 4 f ≡ be32 channel)

init_packet-IsReport :
    (channel : ℕ) (command : Command) (total : ℕ) (head : List ℕ)
    → length head ≤ init_data
    → IsReport channel (init_packet channel command total head)
unfolding init_packet
init_packet-IsReport channel command total head h =
    (length-report _ (omega arith), unfold report in refl)

cont_packet-IsReport :
    (channel sequence : ℕ) (chunk : List ℕ)
    → length chunk ≤ cont_data
    → IsReport channel (cont_packet channel sequence chunk)
unfolding cont_packet
cont_packet-IsReport channel sequence chunk h =
    (length-report _ (omega arith), unfold report in refl)

chunk_frames-IsReport :
    (n channel sequence : ℕ) (rest : List ℕ)
    → All (IsReport channel) (chunk_frames n channel sequence rest)
unfolding chunk_frames
chunk_frames-IsReport zero channel sequence rest = tt
chunk_frames-IsReport (suc n) channel sequence [] = tt
chunk_frames-IsReport (suc n) channel sequence (b ∷ rest) = (
  cont_packet-IsReport channel sequence (take cont_data (b ∷ rest))
      (omega (arith, length-take cont_data (b ∷ rest))),
  chunk_frames-IsReport n channel (sequence + 1) (drop cont_data (b ∷ rest)),
)

packets-IsReport :
    (channel : ℕ) (command : Command) (payload : List ℕ)
    → All (IsReport channel) (packets channel command payload)
unfolding packets
packets-IsReport channel command payload = (
  init_packet-IsReport channel command (length payload) (take init_data payload)
      (omega (arith, length-take init_data payload)),
  chunk_frames-IsReport 128 channel 0 (drop init_data payload),
)

-- Every report of a message has 64 bytes and carries the message's channel.
pub message_frames-IsReport :
    (channel : ℕ) (command : Command) (payload : List ℕ)
    → All (IsReport channel) (message_frames channel command payload)
unfolding message_frames
message_frames-IsReport channel command payload =
    elim (Bool-cases (leb (length payload) 65535 && leb (length payload) max_message_size)) [
      | inl fits ↦ rw fits (packets-IsReport channel command payload)
      | inr long ↦ rw long (packets-IsReport channel error (error_code other ∷ []))
    ]
