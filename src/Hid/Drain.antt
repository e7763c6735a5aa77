-- ===== src/Hid/Drain.antt =====
-- Writing the queued reports (`next_outgoing_frame`, `outgoing_frame_written` of ctaphid_host.rs).
use software_authenticator.Base.{
  ℕ, zero, suc, ◌≡◌, inl, inr, refl, sym, ap, ◌∙◌, subst, ◌++◌, ◌<◌, append-nil, Bool-cases,
  ==_refl, none, some, List, [], ◌∷◌, arith, ◌==◌, length, All,
}
use software_authenticator.Hid.Types.{
  OutgoingFrame, Transmitting, State, idle, transmitting, CtaphidHost,
}
use software_authenticator.Hid.Output.{
  front, next_outgoing_frame, is_outgoing_current, head_has_token, release, outgoing_frame_written,
}
use software_authenticator.Hid.Invariant.{Ordered, HasToken, IsOwned, IsValid}

-- One round of the transport: select the next report and write it.
pub write_next : CtaphidHost → CtaphidHost
write_next h = elim (next_outgoing_frame h) [ none ↦ h | some f ↦ (outgoing_frame_written h f).0 ]

pub write_times : ℕ → CtaphidHost → CtaphidHost
write_times zero h = h
write_times (suc n) h = write_times n (write_next h)

release_all : List OutgoingFrame → State → State
release_all [] s = s
release_all (f ∷ fs) s = release_all fs (release s f.token)

write_next_lem :
    (h : CtaphidHost) (f : OutgoingFrame) (fs : List OutgoingFrame)
    → h.pending ≡ f ∷ fs
    → write_next h ≡ record h { pending = fs; state = release h.state f.token }
unfolding write_next next_outgoing_frame outgoing_frame_written is_outgoing_current head_has_token
    front
write_next_lem h f fs e = ground (arith, ==_refl f.token)

-- Writing the first reports of the queue leaves the others.
write_times_lem :
    (h : CtaphidHost) (fs gs : List OutgoingFrame)
    → h.pending ≡ fs ++ gs
    → write_times (length fs) h ≡ record h { pending = gs; state = release_all fs h.state }
unfolding write_times release_all
write_times_lem h [] gs e = ground arith
write_times_lem h (f ∷ fs) gs e =
    rw (write_next_lem h f (fs ++ gs) e, write_times)
      (write_times_lem (record h { pending = fs ++ gs; state = release h.state f.token }) fs gs
        refl)

release_all_idle : (fs : List OutgoingFrame) → release_all fs idle ≡ idle
unfolding release_all release
release_all_idle [] = refl
release_all_idle (f ∷ fs) = release_all_idle fs

release_all_final :
    (fs : List OutgoingFrame) (t : Transmitting)
    → HasToken t.final_frame fs
    → release_all fs (transmitting t) ≡ idle
unfolding release_all release
release_all_final [] t h = absurd h
release_all_final (f ∷ fs) t h = elim (Bool-cases (t.final_frame == f.token)) [
  | inl e ↦ rw e (release_all_idle fs)
  | inr e ↦ rw e (release_all_final fs t (ground arith))
]

-- Reports with smaller tokens do not release.
release_all_below :
    (fs : List OutgoingFrame) (t : Transmitting)
    → All (λ g. g.token < t.final_frame) fs
    → release_all fs (transmitting t) ≡ transmitting t
unfolding release_all release
release_all_below [] t a = refl
release_all_below (f ∷ fs) t a = ground (arith, release_all_below fs t a.1)

below_of_Ordered :
    (fs gs : List OutgoingFrame) (f : OutgoingFrame) (n : ℕ)
    → Ordered (fs ++ f ∷ gs) n
    → All (λ g. g.token < f.token) fs
below_of_Ordered [] gs f n o = tt
below_of_Ordered (g ∷ fs) gs f n o = (above fs o.1, below_of_Ordered fs gs f n o.2)
  where
    above :
        (hs : List OutgoingFrame) → All (λ k. g.token < k.token) (hs ++ f ∷ gs) → g.token < f.token
    above [] a = a.0
    above (k ∷ hs) a = above hs a.1

-- A host that transmits a response becomes idle, with an empty queue, once every report that is
-- queued has been written.
pub write_times_releases :
    (h : CtaphidHost) (t : Transmitting)
    → IsValid h
    → h.state ≡ transmitting t
    → ((write_times (length h.pending) h).state ≡ idle)
      × ((write_times (length h.pending) h).pending ≡ [])
write_times_releases h t v e =
    let all : write_times (length h.pending) h
        ≡ record h { pending = []; state = release_all h.pending h.state } =
      write_times_lem h h.pending [] (sym (append-nil h.pending)) in
    let final : HasToken t.final_frame h.pending =
      subst (λ s. IsOwned s h.message h.pending h.next_identification) e v.owned in
    (
      ap (λ k. k.state) all ∙ ap (release_all h.pending) e ∙ release_all_final h.pending t final,
      ap (λ k. k.pending) all,
    )

-- The response's final report, and none before it, ends the transaction when it is written.
pub write_times_final :
    (h : CtaphidHost) (t : Transmitting) (before after : List OutgoingFrame) (f : OutgoingFrame)
    → IsValid h
    → h.state ≡ transmitting t
    → h.pending ≡ before ++ f ∷ after
    → f.token ≡ t.final_frame
    → ((write_times (length before) h).state ≡ transmitting t)
      × ((write_next (write_times (length before) h)).state ≡ idle)
unfolding release
write_times_final h t before after f v e p final =
    let earlier : write_times (length before) h
        ≡ record h { pending = f ∷ after; state = release_all before h.state } =
      write_times_lem h before (f ∷ after) p in
    let below : All (λ g. g.token < t.final_frame) before =
      subst (λ n. All (λ g. g.token < n) before) final
        (below_of_Ordered before after f h.next_token
          (subst (λ fs. Ordered fs h.next_token) p v.base.0)) in
    let kept : release_all before h.state ≡ transmitting t =
      ap (release_all before) e ∙ release_all_below before t below in
    (
      ap (λ k. k.state) earlier ∙ kept,
      ap (λ k. (write_next k).state) earlier
          ∙ ap (λ k. k.state)
              (write_next_lem (record h { pending = f ∷ after; state = release_all before h.state })
                f after refl)
          ∙ ap (λ s. release s f.token) kept
          ∙ ground (arith, final),
    )
