-- ===== src/Hid/Forgotten.antt =====
-- What CTAPHID_INIT on a channel makes the host forget of its U2F polls and of the request that is with
-- the application: `handle_init` of ctaphid_host.rs.
use software_authenticator.Base.{
  ℕ, ◌≡◌, ◌⊎◌, Bool, true, false, ◌&&◌, not, Option, none, List, ◌==◌, if◌then◌else◌,
}
use software_authenticator.Hid.Types.{DeniedPoll, U2fPoll, CtaphidHost}
use software_authenticator.Hid.Transaction.{find_denied}
use software_authenticator.Hid.Input.{in_app, polls_on, is_unanswered}
use software_authenticator.Hid.App.{take_interrupt}

-- No request of the channel counts as denied any more and no poll of it is live. What was denied to the
-- other channel, and its live poll, are as before. The application is told to stop if it had the request
-- of the transaction under way, or the unanswered one of the channel's poll.
abbrev pub IsForgotten : CtaphidHost → ℕ → ℕ → List ℕ → CtaphidHost → Type 0
IsForgotten h channel other request h' =
    (find_denied channel request h'.denied_polls ≡ none)
    × (find_denied other request h'.denied_polls ≡ find_denied other request h.denied_polls)
    × (polls_on channel h'.u2f ≡ false)
    × (polls_on other h'.u2f ≡ polls_on other h.u2f)
    × ((in_app h.state ≡ false) ⊎ ((take_interrupt h').1 ≡ true))
    × (((polls_on channel h.u2f && is_unanswered h.u2f) ≡ false) ⊎ ((take_interrupt h').1 ≡ true))

abbrev elsewhere : ℕ → DeniedPoll → Bool
elsewhere channel poll = not (poll.channel == channel)

-- What INIT leaves of the live poll.
abbrev kept_poll : ℕ → Option U2fPoll → Option U2fPoll
kept_poll channel poll = if polls_on channel poll then none else poll
