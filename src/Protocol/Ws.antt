-- ===== src/Protocol/Ws.antt =====
-- internal/protocol/ws.go: the payloads of the WebSocket messages.
use mgate_agent.Base.{ℕ, Bool, List, Option}
use mgate_agent.Base.Text.{Text}
use mgate_agent.Protocol.{CommandState, ErrorCode}
use mgate_agent.Mgate.{MgateStatusSummary}

pub record HelloCapabilities : Type 0 where
  pub actions : List Text
  pub async : Bool
  pub web_socket : Bool
  pub pull_fallback : Bool
  pub outbox : Bool

pub record HelloConfigSnapshot : Type 0 where
  pub max_parallel_jobs : ℕ
  pub max_output_bytes : ℕ

pub record HelloPayload : Type 0 where
  pub agent_version : Text
  pub device_id : Text
  pub tenant_id : Text
  pub device_name : Text
  pub capabilities : HelloCapabilities
  pub config : HelloConfigSnapshot

pub record HelloAckPayload : Type 0 where
  pub accepted : Bool
  pub server_time : ℕ
  pub message : Text

-- `last_command_state` is `none` while it is the empty string
pub record HeartbeatPayload : Type 0 where
  pub agent_version : Text
  pub device_id : Text
  pub uptime_sec : ℕ
  pub active_jobs : ℕ
  pub last_command_id : Text
  pub last_command_state : Option CommandState
  pub outbox_pending : ℕ
  pub mgate : Option MgateStatusSummary

pub record ErrorPayload : Type 0 where
  pub error_code : ErrorCode
  pub message : Text
