-- ===== src/Hid/Invariant.antt =====
-- The well-formedness of a `CtaphidHost` (ctaphid_host.rs).
pub mod Queue
pub mod Messages
pub mod Table
pub mod Input
pub mod Others
use software_authenticator.Base.{
  ℕ, ◌+◌, ◌*◌, ◌≤◌, ◌<◌, ◌≡◌, ◌≢◌, ◌⊎◌, Bool, Option, none, some, List, [], ◌∷◌, is_some, length,
  All,
}
use software_authenticator.Hid.Types.{
  OutgoingFrame, Command, Receiving, State, idle, receiving, identifying, transmitting, CtaphidHost,
  init_data, cont_data, max_message_size, max_channels, broadcast_cid,
}

-- Tokens rise along the queue and stay below the next one.
abbrev pub Ordered : List OutgoingFrame → ℕ → Type 0
Ordered [] next = Unit {0}
Ordered (f ∷ fs) next = (f.token < next) × All (λ g. f.token < g.token) fs × Ordered fs next

-- Some queued report has the token.
abbrev pub HasToken : ℕ → List OutgoingFrame → Type 0
HasToken token [] = ⊥
HasToken token (f ∷ fs) = (f.token ≡ token) ⊎ HasToken token fs

-- A channel that may own a transaction.
abbrev pub IsClient : ℕ → Type 0
IsClient channel = (channel ≢ 0) × (channel ≢ broadcast_cid)

abbrev pub IsDistinct : List ℕ → Type 0
IsDistinct [] = Unit {0}
IsDistinct (id ∷ ids) = All (λ other. other ≢ id) ids × IsDistinct ids

abbrev pub IsTable : List ℕ → Type 0
IsTable ids = (length ids ≤ max_channels) × IsDistinct ids × All IsClient ids

abbrev pub IsLease : Option (ℕ × ℕ) → Type 0
IsLease none = Unit {0}
IsLease (some (owner, expires)) = IsClient owner

-- What holds whatever transaction is under way.
abbrev pub IsBase : CtaphidHost → Type 0
IsBase h =
    Ordered h.pending h.next_token
    × IsTable h.channels
    × IsLease h.lease
    × (h.app_busy ≡ is_some h.app_command)

-- A half-received message: so many packets have come, and more are to come.
pub record IsPartial (r : Receiving) (message : List ℕ) : Type 0 where
  pub received : length message ≡ init_data + cont_data * r.next_sequence
  pub missing : length message < r.length
  pub fits : r.length ≤ max_message_size
  pub client : IsClient r.channel

-- What the state asks of the message and the queue.
abbrev pub IsOwned : State → List ℕ → List OutgoingFrame → ℕ → Type 0
IsOwned idle message pending identification = Unit {0}
IsOwned (receiving r) message pending identification = IsPartial r message
IsOwned (State.processing p) message pending identification = Unit {0}
IsOwned (identifying i) message pending identification = i.request.token < identification
IsOwned (transmitting t) message pending identification = HasToken t.final_frame pending

pub record IsValid (h : CtaphidHost) : Type 0 where
  pub base : IsBase h
  pub owned : IsOwned h.state h.message h.pending h.next_identification
