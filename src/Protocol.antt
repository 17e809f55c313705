-- ===== src/Protocol.antt =====
-- internal/protocol: the messages between the cloud and the agent. A time is the number of
-- nanoseconds since Go's zero time, a duration a number of nanoseconds, and the constants of a
-- string type are the constructors of a data type.
pub mod Json
pub mod Ws
use mgate_agent.Base.{ℕ, ◌*◌, Bool, Option}
use mgate_agent.Base.Int.{ℤ}
use mgate_agent.Base.Text.{Text}
use Json.{Fields}

pub data CommandState : Type 0 where
  queued running succeeded failed timed_out rejected cancelled : CommandState

-- the error codes that the agent itself sets; `no_error` is the empty string
pub data ErrorCode : Type 0 where
  no_error invalid_command_id duplicate_command unknown_action action_not_allowed : ErrorCode
  invalid_args timeout_exceeded invalid_action_spec timeout process_failed : ErrorCode
  invalid_payload invalid_version invalid_type device_mismatch queue_full : ErrorCode
  send_failed outbox_limit corrupted_record : ErrorCode

-- `other` is any string that is no constant of the program
pub data MessageType : Type 0 where
  hello hello_ack heartbeat command ack result status error : MessageType
  other : Text → MessageType

pub record CommandPayload : Type 0 where
  pub command_id : Text
  pub action : Text
  pub args : Option Fields
  pub timeout_sec : Option ℤ
  pub async : Bool
  pub requested_by : Text
  pub issued_at : ℕ

pub record AckPayload : Type 0 where
  pub command_id : Text
  pub action : Text
  pub state : CommandState
  pub accepted : Bool
  pub error_code : ErrorCode

pub record ResultPayload : Type 0 where
  pub command_id : Text
  pub action : Text
  pub state : CommandState
  pub exit_code : ℤ
  pub stdout : Text
  pub stderr : Text
  pub output_truncated : Bool
  pub started_at : ℕ
  pub ended_at : ℕ
  pub duration_ms : ℕ
  pub error_code : ErrorCode

pub record Envelope : Type 0 where
  pub version : Text
  pub type : MessageType
  pub message_id : Text
  pub correlation_id : Text
  pub device_id : Text
  pub timestamp : ℕ
  pub payload : Text

-- time.Second
abbrev pub second : ℕ
second = 1_000_000_000
