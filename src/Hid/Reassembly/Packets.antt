-- ===== src/Hid/Reassembly/Packets.antt =====
-- One report after another: what `handle_frame` of ctaphid_host.rs makes of a message's reports.
use software_authenticator.Base.{
  ℕ, zero, suc, ◌+◌, ◌-◌, ◌*◌, ◌^◌, ◌≤◌, ◌<◌, ◌≡◌, inl, inr, refl, ap, ◌∙◌, min, Bool-cases, ==_iff,
  ==_refl, none, List, [], ◌∷◌, ◌++◌, append_assoc, arith, ◌==◌, leb, length, take, drop, replicate,
  length-append, length-take, length-drop, take-length-append, take-append-drop, take-all, drop-all,
  leb→le, not_leb→lt, from_be32-be32, if◌then◌else◌,
}
use software_authenticator.Hid.Types.{
  Command, CtapHidFrame, receiving, CtaphidHost, cont_data, packet_size,
}
use software_authenticator.Hid.Output.{report, cont_packet}
use software_authenticator.Hid.Output.Fragments.{chunk_frames}
use software_authenticator.Hid.Transaction.{expire_lease, complete_message}
use software_authenticator.Hid.Input.{continue_message, handle_continuation, handle_frame}

-- Reports come in one by one, the i-th at time `clock i`.
unfoldable pub feed : CtaphidHost → (ℕ → ℕ) → List CtapHidFrame → CtaphidHost
feed h clock [] = h
feed h clock (f ∷ fs) = feed (handle_frame h f (clock 0)) (λ i. clock (suc i)) fs

abbrev padded : List ℕ → List ℕ
padded chunk = chunk ++ replicate (packet_size - suc (suc (suc (suc (suc (length chunk)))))) 0

pub chunk_frames_nil : (n channel sequence : ℕ) → chunk_frames n channel sequence [] ≡ []
unfolding chunk_frames
chunk_frames_nil zero channel sequence = refl
chunk_frames_nil (suc n) channel sequence = refl

pub length-chunk_frames_pos :
    (n channel sequence : ℕ) (rest : List ℕ)
    → 0 < n
    → 0 < length rest
    → 0 < length (chunk_frames n channel sequence rest)
unfolding chunk_frames
length-chunk_frames_pos zero channel sequence rest h k = absurd (omega arith)
length-chunk_frames_pos (suc n) channel sequence [] h k = absurd (omega arith)
length-chunk_frames_pos (suc n) channel sequence (b ∷ rest) h k = omega arith

module _ (g : CtaphidHost) (channel : ℕ) (command : Command) (total : ℕ) where
  -- A host in the middle of a message.
  abbrev pub partly : ℕ → ℕ → List ℕ → CtaphidHost
  partly sequence at message = record g {
    lease = none;
    message = message;
    state = receiving (record {
      channel = channel;
      command = command;
      length = total;
      next_sequence = sequence;
      last_packet_at = at;
    });
  }

  handle_frame-cont_packet :
      (sequence at : ℕ) (message chunk : List ℕ) (now : ℕ)
      → channel < 2 ^ 32
      → sequence < 128
      → handle_frame (partly sequence at message) (cont_packet channel sequence chunk) now
        ≡ handle_continuation (partly sequence at message) channel sequence (padded chunk) now
  unfolding handle_frame cont_packet report expire_lease
  handle_frame-cont_packet sequence at message chunk now c s =
      ground (arith, from_be32-be32 channel c)

  abbrev next_bytes : List ℕ → List ℕ → List ℕ
  next_bytes message body = message ++ take (min (total - length message) cont_data) body

  handle_continuation_lem :
      (sequence at : ℕ) (message body : List ℕ) (now : ℕ)
      → handle_continuation (partly sequence at message) channel sequence body now ≡ (
          if length (next_bytes message body) == total
          then complete_message
              (partly (sequence + 1) now (next_bytes message body))
              channel
              command
              now
          else partly (sequence + 1) now (next_bytes message body))
  unfolding handle_continuation continue_message
  handle_continuation_lem sequence at message body now =
      rw (==_refl channel) (rw (==_refl sequence) refl)

  next_bytes-padded :
      (message rest : List ℕ)
      → length message + length rest ≡ total
      → next_bytes message (padded (take cont_data rest)) ≡ message ++ take cont_data rest
  next_bytes-padded message rest e = ap (◌++◌ message) (
      take-length-append (min (total - length message) cont_data) (take cont_data rest) _
        (omega (arith, length-take cont_data rest)))

  -- The message after a packet, which completes it or not.
  received : ℕ → List ℕ → ℕ → CtaphidHost
  received sequence message now =
      if length message == total
      then complete_message (partly sequence now message) channel command now
      else partly sequence now message

  one_packet :
      (sequence at : ℕ) (message rest : List ℕ) (now : ℕ)
      → channel < 2 ^ 32
      → sequence < 128
      → length message + length rest ≡ total
      → handle_frame
          (partly sequence at message)
          (cont_packet channel sequence (take cont_data rest))
          now
        ≡ received (sequence + 1) (message ++ take cont_data rest) now
  unfolding received
  one_packet sequence at message rest now c s e =
      handle_frame-cont_packet sequence at message (take cont_data rest) now c s
      ∙ handle_continuation_lem sequence at message (padded (take cont_data rest)) now
      ∙ ap (λ m. received (sequence + 1) m now) (next_bytes-padded message rest e)

  last_packet :
      (message : List ℕ) (sequence now : ℕ)
      → length message ≡ total
      → received sequence message now
        ≡ complete_message (partly sequence now message) channel command now
  unfolding received
  last_packet message sequence now e = rw ((==_iff (length message) total).1 e)

  further_packet :
      (message : List ℕ) (sequence now : ℕ)
      → length message < total
      → received sequence message now ≡ partly sequence now message
  unfolding received
  further_packet message sequence now e = elim (Bool-cases (length message == total)) [
    | inl p ↦ absurd (omega (arith, (==_iff (length message) total).0 p))
    | inr p ↦ rw p
  ]

  -- What the reports of the rest of a message lead to.
  abbrev Completes : CtaphidHost → List ℕ → ℕ → Type 0
  Completes h message now =
      (sequence : ℕ) × (h ≡ complete_message (partly sequence now message) channel command now)

  pub feed-chunk_frames :
      (n sequence at : ℕ) (message rest : List ℕ) (clock : ℕ → ℕ)
      → channel < 2 ^ 32
      → sequence + n ≤ 128
      → length message + length rest ≡ total
      → 0 < length rest
      → length rest ≤ cont_data * n
      → Completes
          (feed (partly sequence at message) clock (chunk_frames n channel sequence rest))
          (message ++ rest)
          (clock (length (chunk_frames n channel sequence rest) - 1))
  unfolding feed chunk_frames
  feed-chunk_frames zero sequence at message rest clock c s e some_left room = absurd (omega arith)
  feed-chunk_frames (suc n) sequence at message [] clock c s e some_left room = absurd (omega arith)
  feed-chunk_frames (suc n) sequence at message (b ∷ rest) clock c s e some_left room =
      elim (Bool-cases (leb (length (b ∷ rest)) cont_data)) [
        | inl last ↦
            let fits : length (b ∷ rest) ≤ cont_data = leb→le _ _ last in
            let none_left : chunk_frames n channel (sequence + 1) (drop cont_data (b ∷ rest)) ≡ [] =
              ap (chunk_frames n channel (sequence + 1)) (drop-all cont_data (b ∷ rest) fits)
              ∙ chunk_frames_nil n channel (sequence + 1) in
            (
              sequence + 1,
              rw none_left (
                  first
                  ∙ ap (λ m. received (sequence + 1) (message ++ m) (clock 0))
                      (take-all cont_data (b ∷ rest) fits)
                  ∙ last_packet (message ++ b ∷ rest) (sequence + 1) (clock 0)
                      (length-append message (b ∷ rest) ∙ e)),
            )
        | inr more ↦
            let long : cont_data < length (b ∷ rest) = not_leb→lt _ _ more in
            let head = take cont_data (b ∷ rest) in
            let left = drop cont_data (b ∷ rest) in
            let fs = chunk_frames n channel (sequence + 1) left in
            let (x, done) =
              feed-chunk_frames n (sequence + 1) (clock 0) (message ++ head) left
                (λ i. clock (suc i)) c (omega arith)
                (omega (
                  arith,
                  length-append message head,
                  length-take cont_data (b ∷ rest),
                  length-drop cont_data (b ∷ rest),
                ))
                (omega (arith, length-drop cont_data (b ∷ rest)))
                (omega (arith, length-drop cont_data (b ∷ rest))) in
            let whole : (message ++ head) ++ left ≡ message ++ b ∷ rest =
              append_assoc message head left
              ∙ ap (◌++◌ message) (take-append-drop cont_data (b ∷ rest)) in
            let last_time : suc (length fs - 1) ≡ suc (length fs) - 1 = omega (
              arith,
              length-chunk_frames_pos n channel (sequence + 1) left (omega arith)
                  (omega (arith, length-drop cont_data (b ∷ rest))),
            ) in
            (
              x,
              ap (λ h. feed h (λ i. clock (suc i)) fs)
                    (first
                      ∙ further_packet (message ++ head) (sequence + 1) (clock 0) (
                          omega
                            (arith, length-append message head, length-take cont_data (b ∷ rest))))
                  ∙ done
                  ∙ ap
                      (λ m.
                        complete_message (partly x (clock (suc (length fs - 1))) m) channel command
                          (clock (suc (length fs - 1))))
                      whole
                  ∙ ap
                      (λ t.
                        complete_message (partly x (clock t) (message ++ b ∷ rest)) channel command
                          (clock t))
                      last_time,
            )
      ]
    where
      first :
          handle_frame
            (partly sequence at message)
            (cont_packet channel sequence (take cont_data (b ∷ rest)))
            (clock 0)
          ≡ received (sequence + 1) (message ++ take cont_data (b ∷ rest)) (clock 0)
      first = one_packet sequence at message (b ∷ rest) (clock 0) c (omega arith) e
