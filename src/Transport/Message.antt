-- ===== src/Transport/Message.antt =====
-- internal/transport/ws_message.go and pull_message.go: envelopes, and the payloads of a pull. The
-- JSON of a payload is the argument `raw`, which is `none` when json.Marshal fails.
use mgate_agent.Base.{ℕ, false, Option, none, some, List, [], ◌++◌}
use mgate_agent.Base.Int.{negsuc}
use mgate_agent.Base.Text.{Text, codes}
use mgate_agent.Protocol.{CommandState, rejected, ErrorCode, MessageType, Envelope, ResultPayload}
use mgate_agent.Mgate.{MgateStatusSummary}
use mgate_agent.Auth.{hex}

-- what the random source and the clock answer while an envelope is made: 12 random bytes, the
-- decimal of UnixNano, the time
pub record Stamp : Type 0 where
  pub bytes : Option Text
  pub unix_nano : Text
  pub now : ℕ

abbrev pub envelope_version : Text
envelope_version = codes "1"

-- newMessageID
unfoldable pub new_message_id : Stamp → Text
unfolding hex
new_message_id stamp = elim stamp.bytes [
  | none ↦ codes "msg_" ++ stamp.unix_nano
  | some b ↦ codes "msg_" ++ hex b
]

-- makeEnvelope
unfoldable pub make_envelope : MessageType → Text → Text → Option Text → Stamp → Option Envelope
unfolding new_message_id
make_envelope type device_id correlation_id none stamp = none
make_envelope type device_id correlation_id (some raw) stamp = some (record {
  version = envelope_version;
  type = type;
  message_id = new_message_id stamp;
  correlation_id = correlation_id;
  device_id = device_id;
  timestamp = stamp.now;
  payload = raw;
})

-- `last_command_state` is `none` while it is the empty string
pub record PullRequestPayload : Type 0 where
  pub agent_version : Text
  pub device_id : Text
  pub tenant_id : Text
  pub device_name : Text
  pub last_command_id : Text
  pub last_command_state : Option CommandState
  pub active_jobs : ℕ
  pub transport : Text
  pub mgate : Option MgateStatusSummary

pub record PullResponsePayload : Type 0 where
  pub server_time : ℕ
  pub commands : List Envelope

-- rejectedResult
unfoldable pub rejected_result : ℕ → Text → Text → ErrorCode → Text → ResultPayload
rejected_result now command_id action code message = record {
  command_id = command_id;
  action = action;
  state = rejected;
  exit_code = negsuc 0;
  stdout = [];
  stderr = message;
  output_truncated = false;
  started_at = now;
  ended_at = now;
  duration_ms = 0;
  error_code = code;
}
