-- ===== src/Hid/Resync.antt =====
-- CTAPHID_INIT on a channel (`handle_init` of ctaphid_host.rs): what it discards.
use software_authenticator.Base.{
  ℕ, ◌<◌, ◌≡◌, ◌≢◌, ◌⊎◌, inl, inr, refl, ap, ◌∙◌, subst, Bool, true, false, ◌||◌, not, List, [],
  ◌∷◌, ◌++◌, arith, retain, All,
}
use software_authenticator.Hid.Types.{init, CtapHidFrame, OutgoingFrame, CtaphidHost, broadcast_cid}
use software_authenticator.Hid.Channels.{contains}
use software_authenticator.Hid.Output.{is_outgoing_current, head_has_token}
use software_authenticator.Hid.Output.Fragments.{label, message_frames, enqueue_message_lem}
use software_authenticator.Hid.Transaction.{lease_conflicts}
use software_authenticator.Hid.Input.{
  on_channel, is_idle, init_response, resynchronize, init_idle_or_owned, busy_elsewhere,
  handle_init,
}
use software_authenticator.Hid.Invariant.{Ordered, IsValid}

-- The report is queued.
abbrev pub IsQueued : OutgoingFrame → List OutgoingFrame → Type 0
IsQueued f [] = ⊥
IsQueued f (g ∷ gs) = (g ≡ f) ⊎ IsQueued f gs

above_of_queued :
    (f : OutgoingFrame) (m : ℕ) (fs : List OutgoingFrame)
    → All (λ g. m < g.token) fs
    → IsQueued f fs
    → m < f.token
above_of_queued f m [] a q = absurd q
above_of_queued f m (g ∷ gs) a (inl e) = subst (λ (k : OutgoingFrame). m < k.token) e a.0
above_of_queued f m (g ∷ gs) a (inr q) = above_of_queued f m gs a.1 q

below_of_queued :
    (f : OutgoingFrame) (n : ℕ) (fs : List OutgoingFrame)
    → Ordered fs n
    → IsQueued f fs
    → f.token < n
below_of_queued f n [] o q = absurd q
below_of_queued f n (g ∷ gs) o (inl e) = subst (λ (k : OutgoingFrame). k.token < n) e o.0
below_of_queued f n (g ∷ gs) o (inr q) = below_of_queued f n gs o.2 q

-- The head of what is kept, or of new reports behind it, is none with a smaller token.
head_above :
    (keep : OutgoingFrame → Bool) (token n : ℕ) (fs : List OutgoingFrame) (gs : List CtapHidFrame)
    → All (λ g. token < g.token) fs
    → token < n
    → head_has_token (retain keep fs ++ label n gs) token ≡ false
unfolding head_has_token
head_above keep token n [] [] a h = refl
head_above keep token n [] (g ∷ gs) a h = ground arith
head_above keep token n (f ∷ fs) gs a h =
    elim (keep f)
      as (λ b.
        head_has_token (elim b [ true ↦ f ∷ retain keep fs | false ↦ retain keep fs ] ++ label n gs)
          token
        ≡ false) [ true ↦ ground (arith, a.0) | false ↦ head_above keep token n fs gs a.1 h ]

retain_dropped :
    (keep : OutgoingFrame → Bool) (f : OutgoingFrame) (fs : List OutgoingFrame)
    → keep f ≡ false
    → retain keep (f ∷ fs) ≡ retain keep fs
retain_dropped keep f fs e = ground (arith, e)

dropped_not_head :
    (keep : OutgoingFrame → Bool) (f : OutgoingFrame) (n : ℕ) (fs : List OutgoingFrame)
    (gs : List CtapHidFrame)
    → Ordered fs n
    → IsQueued f fs
    → keep f ≡ false
    → head_has_token (retain keep fs ++ label n gs) f.token ≡ false
unfolding head_has_token
dropped_not_head keep f n [] gs o q e = absurd q
dropped_not_head keep f n (g ∷ fs) gs o (inl p) e =
    ap (λ r. head_has_token (r ++ label n gs) f.token) (retain_dropped keep g fs (ap keep p ∙ e))
    ∙ head_above keep f.token n fs gs
        (subst (λ (k : OutgoingFrame). All (λ h. k.token < h.token) fs) p o.1)
        (subst (λ (k : OutgoingFrame). k.token < n) p o.0)
dropped_not_head keep f n (g ∷ fs) gs o (inr q) e =
    elim (keep g)
      as (λ b.
        head_has_token (elim b [ true ↦ g ∷ retain keep fs | false ↦ retain keep fs ] ++ label n gs)
          f.token
        ≡ false) [
          | true ↦ ground (arith, above_of_queued f g.token fs o.1 q)
          | false ↦ dropped_not_head keep f n fs gs o.2 q e
        ]

-- The reports of other channels.
abbrev pub others : ℕ → CtaphidHost → List OutgoingFrame
others channel h = retain (λ f. not (on_channel channel f)) h.pending

-- INIT may resynchronize the channel: no other channel leases the host or has a transaction, and the
-- channel owns the transaction under way or is allocated.
pub record MayResync (h : CtaphidHost) (channel : ℕ) : Type 0 where
  pub unleased : lease_conflicts h channel ≡ false
  pub not_elsewhere : busy_elsewhere h channel ≡ false
  pub not_broadcast : channel ≢ broadcast_cid
  pub not_zero : channel ≢ 0
  pub known : (not (is_idle h.state) || contains h.channels channel) ≡ true

abbrev pub init_reply : CtaphidHost → ℕ → List ℕ → List CtapHidFrame
init_reply h channel body = message_frames channel init (init_response h body channel)

pub handle_init-resynchronize :
    (h : CtaphidHost) (channel : ℕ) (body : List ℕ)
    → MayResync h channel
    → handle_init h channel 8 body ≡ resynchronize h channel channel body
unfolding handle_init init_idle_or_owned
handle_init-resynchronize h channel body m =
    ground (arith, m.unleased, m.not_elsewhere, m.not_broadcast, m.not_zero, m.known)

resynchronize-pending :
    (h : CtaphidHost) (channel : ℕ) (body : List ℕ)
    → (resynchronize h channel channel body).pending
      ≡ others channel h ++ label h.next_token (init_reply h channel body)
unfolding resynchronize
resynchronize-pending h channel body =
    ap (λ k. k.pending) (enqueue_message_lem _ channel init (init_response h body channel))

-- A report of the channel that was queued, and perhaps selected, before a valid INIT on that channel
-- is not current afterwards, so the transport does not write it.
pub init_invalidates :
    (h : CtaphidHost) (channel : ℕ) (body : List ℕ) (f : OutgoingFrame)
    → IsValid h
    → MayResync h channel
    → IsQueued f h.pending
    → on_channel channel f ≡ true
    → is_outgoing_current (handle_init h channel 8 body) f ≡ false
unfolding is_outgoing_current
init_invalidates h channel body f v m q e =
    ap (λ k. head_has_token k.pending f.token) (handle_init-resynchronize h channel body m)
    ∙ ap (λ fs. head_has_token fs f.token) (resynchronize-pending h channel body)
    ∙ dropped_not_head (λ g. not (on_channel channel g)) f h.next_token h.pending
        (init_reply h channel body) v.base.0 q (ap not e)
