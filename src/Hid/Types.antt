-- ===== src/Hid/Types.antt =====
-- The data of ctaphid_host.rs: constants, enums, and the record of `CtaphidHost`.
use software_authenticator.Base.{
  ℕ, ◌+◌, ◌*◌, Bool, false, Option, none, some, List, [], ◌==◌, if◌then◌else◌,
}

abbrev pub u2f_response_wait_ms : ℕ
u2f_response_wait_ms = 100

abbrev pub u2f_poll_timeout_ms : ℕ
u2f_poll_timeout_ms = 3000

abbrev pub u2f_approval_ms : ℕ
u2f_approval_ms = 10000

abbrev pub packet_size : ℕ
packet_size = 64

abbrev pub init_data : ℕ
init_data = 57

abbrev pub cont_data : ℕ
cont_data = 59

-- 57 + 128 * 59 = 7609.
abbrev pub max_message_size : ℕ
max_message_size = init_data + 128 * cont_data

abbrev pub broadcast_cid : ℕ
broadcast_cid = 0xffff_ffff

abbrev pub continuation_timeout_ms : ℕ
continuation_timeout_ms = 550

abbrev pub keepalive_interval_ms : ℕ
keepalive_interval_ms = 50

abbrev pub identification_timeout_ms : ℕ
identification_timeout_ms = 500

abbrev pub max_channels : ℕ
max_channels = 256

abbrev pub channel_generation_retry_limit : ℕ
channel_generation_retry_limit = 64

abbrev pub sw_conditions_not_satisfied : ℕ
sw_conditions_not_satisfied = 0x6985

abbrev pub ctap2_err_keepalive_cancel : ℕ
ctap2_err_keepalive_cancel = 0x2D

pub data Command : Type 0 where
  ping msg lock init wink cbor cancel keep_alive error : Command

abbrev pub into_u8 : Command → ℕ
into_u8 ping = 0x01
into_u8 msg = 0x03
into_u8 lock = 0x04
into_u8 init = 0x06
into_u8 wink = 0x08
into_u8 cbor = 0x10
into_u8 cancel = 0x11
into_u8 keep_alive = 0x3B
into_u8 error = 0x3F

-- `Command::try_from`, whose error (the code itself) every caller drops.
unfoldable pub try_from : ℕ → Option Command
try_from code =
    if code == 0x01
    then some ping
    else if code == 0x03
    then some msg
    else if code == 0x04
    then some lock
    else if code == 0x06
    then some init
    else if code == 0x08
    then some wink
    else if code == 0x10
    then some cbor
    else if code == 0x11
    then some cancel
    else if code == 0x3B
    then some keep_alive
    else if code == 0x3F
    then some error
    else none

-- The derived `PartialEq`, on the discriminants.
abbrev pub command_eq : Command → Command → Bool
command_eq a b = into_u8 a == into_u8 b

pub record Version : Type 0 where
  pub major : ℕ
  pub minor : ℕ
  pub build : ℕ

pub data ErrorCode : Type 0 where
  invalid_command invalid_parameter invalid_length invalid_seq timeout channel_busy : ErrorCode
  invalid_channel other : ErrorCode

abbrev pub error_code : ErrorCode → ℕ
error_code invalid_command = 0x01
error_code invalid_parameter = 0x02
error_code invalid_length = 0x03
error_code invalid_seq = 0x04
error_code timeout = 0x05
error_code channel_busy = 0x06
error_code invalid_channel = 0x0B
error_code other = 0x7F

pub data KeepaliveStatus : Type 0 where
  processing up_needed : KeepaliveStatus

abbrev pub status_code : KeepaliveStatus → ℕ
status_code processing = 1
status_code up_needed = 2

-- A report of `packet_size` bytes.
abbrev pub CtapHidFrame : Type 0
CtapHidFrame = List ℕ

pub record OutgoingFrame : Type 0 where
  pub frame : CtapHidFrame
  pub token : ℕ

pub record AppRequest : Type 0 where
  pub command : Command
  pub payload : List ℕ

pub record IdentificationRequest : Type 0 where
  pub token : ℕ
  pub deadline : ℕ

pub record U2fPoll : Type 0 where
  pub channel : ℕ
  pub request : List ℕ
  pub last_poll : ℕ
  pub started : ℕ
  pub presence_started : Bool
  pub presence_finished : Option ℕ
  pub answer : Option (List ℕ × ℕ)

pub record DeniedPoll : Type 0 where
  pub channel : ℕ
  pub request : List ℕ
  pub last_poll : ℕ

pub record Processing : Type 0 where
  pub channel : ℕ
  pub command : Command
  pub started : ℕ
  pub request : Option (List ℕ)
  pub keepalive_at : ℕ
  pub keepalive_status : KeepaliveStatus

pub record Receiving : Type 0 where
  pub channel : ℕ
  pub command : Command
  pub length : ℕ
  pub next_sequence : ℕ
  pub last_packet_at : ℕ

pub record Identifying : Type 0 where
  pub channel : ℕ
  pub request : IdentificationRequest
  pub submitted : Bool

pub record Transmitting : Type 0 where
  pub channel : ℕ
  pub final_frame : ℕ

pub data State : Type 0 where
  idle : State
  receiving : Receiving → State
  processing : Processing → State
  identifying : Identifying → State
  transmitting : Transmitting → State

-- `rng` is the sequence of values that the generator has yet to return.
pub record CtaphidHost : Type 0 where
  pub state : State
  pub lease : Option (ℕ × ℕ)
  pub message : List ℕ
  pub pending : List OutgoingFrame
  pub next_token : ℕ
  pub next_identification : ℕ
  pub channels : List ℕ
  pub rng : ℕ → ℕ
  pub capabilities : ℕ
  pub version : Version
  pub app_busy : Bool
  pub interrupt_app : Bool
  pub app_command : Option Command
  pub u2f : Option U2fPoll
  pub denied_polls : List DeniedPoll

unfoldable pub with_rng : (ℕ → ℕ) → CtaphidHost
with_rng rng = record {
  state = idle;
  lease = none;
  message = [];
  pending = [];
  next_token = 0;
  next_identification = 0;
  channels = [];
  rng = rng;
  capabilities = 0;
  version = record { major = 0; minor = 0; build = 0 };
  app_busy = false;
  interrupt_app = false;
  app_command = none;
  u2f = none;
  denied_polls = [];
}

unfoldable pub set_version : CtaphidHost → Version → CtaphidHost
set_version h version = record h { version = version }

unfoldable pub set_capabilities : CtaphidHost → ℕ → CtaphidHost
set_capabilities h capabilities = record h { capabilities = capabilities }
