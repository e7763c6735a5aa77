-- ===== src/Pin/Types.antt =====
-- The state of the PIN component: `PersistentPinState`, `PinRetryState`, the token, the store's answers
-- and the part of `CtapApp` that the PIN commands read and write.
use software_authenticator.Base.{ℕ, Bool, false, Option, none, List, []}

-- A result whose error is a CTAP status.
pub data Result {ℓ} (A : Type ℓ) : Type ℓ where
  ok : A → Result A
  err : ℕ → Result A

-- constants.rs
abbrev pub ctap1_err_invalid_parameter : ℕ
ctap1_err_invalid_parameter = 0x02

abbrev pub ctap2_err_cbor_unexpected_type : ℕ
ctap2_err_cbor_unexpected_type = 0x11

abbrev pub ctap2_err_missing_parameter : ℕ
ctap2_err_missing_parameter = 0x14

abbrev pub ctap2_err_processing : ℕ
ctap2_err_processing = 0x21

abbrev pub ctap2_err_key_store_full : ℕ
ctap2_err_key_store_full = 0x28

abbrev pub ctap2_err_not_allowed : ℕ
ctap2_err_not_allowed = 0x30

abbrev pub ctap2_err_pin_invalid : ℕ
ctap2_err_pin_invalid = 0x31

abbrev pub ctap2_err_pin_blocked : ℕ
ctap2_err_pin_blocked = 0x32

abbrev pub ctap2_err_pin_auth_invalid : ℕ
ctap2_err_pin_auth_invalid = 0x33

abbrev pub ctap2_err_pin_auth_blocked : ℕ
ctap2_err_pin_auth_blocked = 0x34

abbrev pub ctap2_err_pin_not_set : ℕ
ctap2_err_pin_not_set = 0x35

abbrev pub ctap2_err_pin_policy_violation : ℕ
ctap2_err_pin_policy_violation = 0x37

abbrev pub ctap2_err_unauthorized_permission : ℕ
ctap2_err_unauthorized_permission = 0x40

abbrev pub max_pin_retries : ℕ
max_pin_retries = 8

abbrev pub max_consecutive_pin_mismatches : ℕ
max_consecutive_pin_mismatches = 3

-- store/record.rs
abbrev pub default_min_pin_length : ℕ
default_min_pin_length = 4

abbrev pub max_pin_length : ℕ
max_pin_length = 63

abbrev pub max_min_pin_length_rp_ids : ℕ
max_min_pin_length_rp_ids = 8

abbrev pub max_rp_id_length : ℕ
max_rp_id_length = 253

-- A token that survives a restart: its 32 bytes and whether pcmr was granted on it.
pub record PersistentTokenRecord : Type 0 where
  pub secret : List ℕ
  pub granted : Bool

-- `persistent_tokens` is the array of the authorities of protocols one and two.
pub record PersistentPinState : Type 0 where
  pub pin_hash : Option (List ℕ)
  pub pin_retries : ℕ
  pub min_pin_length : ℕ
  pub min_pin_length_rp_ids : List (List ℕ)
  pub force_pin_change : Bool
  pub pin_code_point_length : ℕ
  pub always_uv : Bool
  pub pin_complexity_policy : Bool
  pub token_one : Option PersistentTokenRecord
  pub token_two : Option PersistentTokenRecord

abbrev pub default_pin_state : PersistentPinState
default_pin_state = record {
  pin_hash = none;
  pin_retries = max_pin_retries;
  min_pin_length = default_min_pin_length;
  min_pin_length_rp_ids = [];
  force_pin_change = false;
  pin_code_point_length = default_min_pin_length;
  always_uv = false;
  pin_complexity_policy = false;
  token_one = none;
  token_two = none;
}

pub record PinRetryState : Type 0 where
  pub persistent : PersistentPinState
  pub consecutive_mismatches : ℕ

pub data PinProtocol : Type 0 where
  v1 : PinProtocol
  v2 : PinProtocol

pub data TokenOrigin : Type 0 where
  legacy_get_pin_token : TokenOrigin
  permission_bearing : TokenOrigin

pub record TokenGrant : Type 0 where
  pub origin : TokenOrigin
  pub permissions : ℕ
  pub rp_id : Option (List ℕ)

-- Times are in milliseconds.
pub record InUseToken : Type 0 where
  pub value : List ℕ
  pub protocol : PinProtocol
  pub origin : Option TokenOrigin
  pub permissions : ℕ
  pub permissions_rp_id : Option (List ℕ)
  pub started_at : ℕ
  pub id : ℕ
  pub used : Bool
  pub user_present : Bool
  pub user_verified : Bool

pub record PinUvAuthTokenState : Type 0 where
  pub in_use : Option InUseToken
  pub issued : ℕ

pub record KeyAgreementKeys : Type 0 where
  pub protocol_one : Option (List ℕ)
  pub protocol_two : Option (List ℕ)

pub data StoredPinState : Type 0 where
  read : StoredPinState
  unread : StoredPinState
  unreadable : StoredPinState

pub data StoreError : Type 0 where
  credential_set_unavailable : StoreError
  io : StoreError
  corrupt : StoreError
  key_unavailable : StoreError
  full : StoreError
  invalid_record : StoreError
  random : StoreError

pub data CommitDurability : Type 0 where
  flushed : CommitDurability
  unconfirmed : CommitDurability
  volatile : CommitDurability

pub data DirectoryFlush : Type 0 where
  supported : DirectoryFlush
  unsupported : DirectoryFlush
  flush_failed : DirectoryFlush

-- What the store answers to a read and to a write of the PIN state.
pub data Loaded : Type 0 where
  found : Option PersistentPinState → Loaded
  lost : StoreError → Loaded

pub data Saved : Type 0 where
  published : CommitDurability → Saved
  refused : StoreError → Saved

-- The answer of the store to a reset. One that fails tells nothing of whether the default state was
-- published before it failed; the flag is what the store knows of that.
pub data Cleared : Type 0 where
  erased : CommitDurability → Cleared
  not_erased : Bool → StoreError → Cleared

-- The credential store as the PIN commands see it: the answers that it has yet to give, in order, and
-- the PIN state that the last published write put there.
pub record CredentialStore : Type 0 where
  pub loads : ℕ → Loaded
  pub saves : ℕ → Saved
  pub clears : ℕ → Cleared
  pub flushes : ℕ → DirectoryFlush
  pub stored : Option PersistentPinState

-- The fields of `CtapApp` and of its `PinState` that the PIN commands use. The random secrets are the
-- sequence that the generator has yet to return, and the state of an enumeration by credential
-- management is known only by whether there is one.
pub record CtapApp : Type 0 where
  pub pin : PinRetryState
  pub key_agreement : KeyAgreementKeys
  pub token : PinUvAuthTokenState
  pub persistent_generation : ℕ
  pub stored_pin_state : StoredPinState
  pub directory_flush : Option DirectoryFlush
  pub enumerating : Bool
  pub store : CredentialStore
  pub rng : ℕ → List ℕ
  pub now : ℕ

-- What a call leaves behind, and what it returns.
pub data Outcome {ℓ} (A : Type ℓ) : Type ℓ where
  done : CtapApp → A → Outcome A
  failed : CtapApp → ℕ → Outcome A

-- `f(…)?` with the rest of the function.
infixl 5 ◌>>=◌
abbrev pub ◌>>=◌ {ℓ κ} :
    {A : Type ℓ} {B : Type κ} → Outcome A → (CtapApp → A → Outcome B) → Outcome B
done app a >>= f = f app a
failed app e >>= f = failed app e

abbrev pub lift {ℓ} : {A : Type ℓ} → CtapApp → Result A → Outcome A
lift app (ok a) = done app a
lift app (err e) = failed app e

abbrev pub after {ℓ} : {A : Type ℓ} → Outcome A → CtapApp
after (done app a) = app
after (failed app e) = app

abbrev pub succeeds {ℓ} : {A : Type ℓ} → Outcome A → Bool
succeeds (done app a) = Bool.true
succeeds (failed app e) = false
