-- ===== src/Hid/Invariant/Queue.antt =====
-- The output operations of ctaphid_host.rs keep the queue ordered and the response owned.
use software_authenticator.Base.{
  ℕ, suc, ◌+◌, ◌≤◌, ◌<◌, ◌≡◌, inl, inr, refl, subst, ==_iff, Bool, true, false, Bool-cases, List,
  [], ◌∷◌, ◌++◌, arith, length, All, All-append, retain, drop, ◌==◌,
}
use software_authenticator.Hid.Types.{
  OutgoingFrame, CtapHidFrame, Command, error, ErrorCode, State, idle, receiving, identifying,
  transmitting, CtaphidHost,
}
use software_authenticator.Hid.Output.{
  enqueue_message, enqueue_error, finish_error, is_outgoing_current, head_has_token, release,
  outgoing_frame_written,
}
use software_authenticator.Hid.Output.Fragments.{
  label, append_frames, message_frames, enqueue_message_lem, enqueue_error_lem,
  length-message_frames_bounds,
}
use software_authenticator.Hid.Invariant.{Ordered, HasToken, IsBase, IsOwned, IsValid}

All-above_mono :
    (m n : ℕ) (fs : List OutgoingFrame)
    → m ≤ n
    → All (λ g. n ≤ g.token) fs
    → All (λ g. m ≤ g.token) fs
All-above_mono m n [] h a = tt
All-above_mono m n (f ∷ fs) h a = (omega arith, All-above_mono m n fs h a.1)

label-above : (n : ℕ) (fs : List CtapHidFrame) → All (λ g. n ≤ g.token) (label n fs)
label-above n [] = tt
label-above n (f ∷ fs) = (
  omega arith,
  All-above_mono n (n + 1) (label (n + 1) fs) (omega arith) (label-above (n + 1) fs),
)

label-Ordered : (n m : ℕ) (fs : List CtapHidFrame) → m ≡ n + length fs → Ordered (label n fs) m
label-Ordered n m [] e = tt
label-Ordered n m (f ∷ fs) e = (
  omega arith,
  All-above_mono (suc n) (n + 1) (label (n + 1) fs) (omega arith) (label-above (n + 1) fs),
  label-Ordered (n + 1) m fs (omega arith),
)

Ordered-append-label :
    (fs : List OutgoingFrame) (n m : ℕ) (gs : List CtapHidFrame)
    → m ≡ n + length gs
    → Ordered fs n
    → Ordered (fs ++ label n gs) m
Ordered-append-label [] n m gs e o = label-Ordered n m gs e
Ordered-append-label (f ∷ fs) n m gs e o = (
  omega arith,
  All-append (λ g. f.token < g.token) fs (label n gs) o.1
      (All-above_mono (suc f.token) n (label n gs) o.0 (label-above n gs)),
  Ordered-append-label fs n m gs e o.2,
)

All-retain {κ} :
    (P : OutgoingFrame → Type κ) (keep : OutgoingFrame → Bool) (fs : List OutgoingFrame)
    → All P fs
    → All P (retain keep fs)
All-retain P keep [] a = tt
All-retain P keep (f ∷ fs) a =
    elim (keep f) as (λ b. All P (elim b [ true ↦ f ∷ retain keep fs | false ↦ retain keep fs ])) [
      | true ↦ (a.0, All-retain P keep fs a.1)
      | false ↦ All-retain P keep fs a.1
    ]

pub retain-Ordered :
    (keep : OutgoingFrame → Bool) (fs : List OutgoingFrame) (n : ℕ)
    → Ordered fs n
    → Ordered (retain keep fs) n
retain-Ordered keep [] n o = tt
retain-Ordered keep (f ∷ fs) n o =
    elim (keep f)
      as (λ b. Ordered (elim b [ true ↦ f ∷ retain keep fs | false ↦ retain keep fs ]) n) [
        | true ↦
            (o.0, All-retain (λ g. f.token < g.token) keep fs o.1, retain-Ordered keep fs n o.2)
        | false ↦ retain-Ordered keep fs n o.2
      ]

HasToken-append_left : (t : ℕ) (fs gs : List OutgoingFrame) → HasToken t fs → HasToken t (fs ++ gs)
HasToken-append_left t [] gs h = absurd h
HasToken-append_left t (f ∷ fs) gs (inl e) = inl e
HasToken-append_left t (f ∷ fs) gs (inr h) = inr (HasToken-append_left t fs gs h)

HasToken-append_right : (t : ℕ) (fs gs : List OutgoingFrame) → HasToken t gs → HasToken t (fs ++ gs)
HasToken-append_right t [] gs h = h
HasToken-append_right t (f ∷ fs) gs h = inr (HasToken-append_right t fs gs h)

HasToken-label :
    (t n : ℕ) (fs : List CtapHidFrame) → n ≤ t → t < n + length fs → HasToken t (label n fs)
HasToken-label t n [] h l = absurd (omega arith)
HasToken-label t n (f ∷ fs) h l = elim (Bool-cases (n == t)) [
  | inl e ↦ inl (ground arith)
  | inr e ↦ inr (HasToken-label t (n + 1) fs (ground arith) (omega arith))
]

append_frames-IsBase :
    (h : CtaphidHost) (fs : List CtapHidFrame) → IsBase h → IsBase (append_frames h fs)
append_frames-IsBase h fs (o, table, lease, app) =
    (Ordered-append-label h.pending h.next_token _ fs refl o, table, lease, app)

IsOwned-append :
    (state : State) (message : List ℕ) (fs gs : List OutgoingFrame) (n : ℕ)
    → IsOwned state message fs n
    → IsOwned state message (fs ++ gs) n
IsOwned-append idle message fs gs n o = o
IsOwned-append (receiving r) message fs gs n o = o
IsOwned-append (State.processing p) message fs gs n o = o
IsOwned-append (identifying i) message fs gs n o = o
IsOwned-append (transmitting t) message fs gs n o = HasToken-append_left t.final_frame fs gs o

-- Whatever the state was, a response owns the channel until its last report.
pub enqueue_message-IsValid :
    (h : CtaphidHost) (channel : ℕ) (command : Command) (payload : List ℕ)
    → IsBase h
    → IsValid (enqueue_message h channel command payload)
enqueue_message-IsValid h channel command payload b =
    let fs = message_frames channel command payload in
    rw (enqueue_message_lem h channel command payload) (record {
      base = append_frames-IsBase h fs b;
      owned = HasToken-append_right _ h.pending (label h.next_token fs) (
          HasToken-label _ h.next_token fs
            (omega (arith, length-message_frames_bounds channel command payload))
            (omega (arith, length-message_frames_bounds channel command payload)));
    })

pub finish_error-IsValid :
    (h : CtaphidHost) (channel : ℕ) (code : ErrorCode)
    → IsBase h
    → IsValid (finish_error h channel code)
unfolding finish_error
finish_error-IsValid h channel code b = enqueue_message-IsValid h channel error _ b

pub append_frames-IsValid :
    (h : CtaphidHost) (fs : List CtapHidFrame) → IsValid h → IsValid (append_frames h fs)
append_frames-IsValid h fs v = record {
  base = append_frames-IsBase h fs v.base;
  owned =
      IsOwned-append h.state h.message h.pending (label h.next_token fs) h.next_identification
        v.owned;
}

pub enqueue_error-IsValid :
    (h : CtaphidHost) (channel : ℕ) (code : ErrorCode)
    → IsValid h
    → IsValid (enqueue_error h channel code)
enqueue_error-IsValid h channel code v =
    rw (enqueue_error_lem h channel code) (append_frames-IsValid h _ v)

release-IsOwned :
    (state : State) (message : List ℕ) (f : OutgoingFrame) (fs : List OutgoingFrame) (n : ℕ)
    → IsOwned state message (f ∷ fs) n
    → IsOwned (release state f.token) message fs n
unfolding release
release-IsOwned idle message f fs n o = o
release-IsOwned (receiving r) message f fs n o = o
release-IsOwned (State.processing p) message f fs n o = o
release-IsOwned (identifying i) message f fs n o = o
release-IsOwned (transmitting t) message f fs n (inl e) = ground arith
release-IsOwned (transmitting t) message f fs n (inr o) =
    elim (Bool-cases (t.final_frame == f.token)) [ inl e ↦ rw e tt | inr e ↦ rw e o ]

drop-Ordered : (fs : List OutgoingFrame) (n : ℕ) → Ordered fs n → Ordered (drop 1 fs) n
drop-Ordered [] n o = tt
drop-Ordered (f ∷ fs) n o = o.2

drop-IsOwned :
    (state : State) (message : List ℕ) (fs : List OutgoingFrame) (token n : ℕ)
    → head_has_token fs token ≡ true
    → IsOwned state message fs n
    → IsOwned (release state token) message (drop 1 fs) n
unfolding head_has_token
drop-IsOwned state message [] token n e o = cc
drop-IsOwned state message (f ∷ fs) token n e o =
    subst (λ t. IsOwned (release state t) message fs n) ((==_iff f.token token).0 e)
      (release-IsOwned state message f fs n o)

pub outgoing_frame_written-IsValid :
    (h : CtaphidHost) (frame : OutgoingFrame)
    → IsValid h
    → IsValid (outgoing_frame_written h frame).0
unfolding outgoing_frame_written is_outgoing_current
outgoing_frame_written-IsValid h frame v =
    elim (Bool-cases (head_has_token h.pending frame.token)) [
      | inr stale ↦ rw stale v
      | inl current ↦ rw current (record {
        base = (drop-Ordered h.pending h.next_token v.base.0, v.base.1, v.base.2, v.base.3);
        owned =
            drop-IsOwned h.state h.message h.pending frame.token h.next_identification current
              v.owned;
      })
    ]
