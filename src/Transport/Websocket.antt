-- ===== src/Transport/Websocket.antt =====
-- internal/transport/ws_client.go: one connection to the cloud, from the hello on.
--
-- A limit of 0 in `WsOptions` stands for one that is not positive. `Wire` is the JSON of the payloads.
-- The goroutines of runOnce take turns by the steps of Session. A `Connection` holds the two channels
-- `jobs` and `outbound`, the message that readLoop waits to put into `outbound`, what each worker
-- handles, what was written to the socket, and the envelopes that Dispatcher.Enqueue was called with
-- for the commands of this connection. runOnce does not wait for its workers, so that `lingering`
-- holds the commands that those of earlier connections still handle.
pub mod Session
pub mod Bounds
pub mod Answers
pub mod Greeting
pub mod Reconnect
use mgate_agent.Base.{
  ℕ, zero, suc, ◌*◌, ◌-◌, Bool, true, false, not, Option, none, some, List, [], ◌∷◌, ◌++◌, ◌&&◌,
  ltb, length, if◌then◌else◌, Result, ok, err,
}
use mgate_agent.Base.Text.{Text, codes, text_eq}
use mgate_agent.Protocol.{
  second, CommandPayload, ResultPayload, AckPayload, CommandState, ErrorCode, MessageType, Envelope,
  command, hello, hello_ack, heartbeat, ack, result, error, queued, no_error, invalid_payload,
  invalid_version, device_mismatch, queue_full,
}
use mgate_agent.Protocol.Ws.{HelloPayload, HelloAckPayload, HeartbeatPayload, ErrorPayload}
use mgate_agent.Mgate.{MgateStatusSummary}
use mgate_agent.Commands.Handler.{World}
use mgate_agent.Transport.Message.{Stamp, envelope_version, make_envelope, rejected_result}
use mgate_agent.Transport.Address.{Header, Crypto, signed_header}
use mgate_agent.Transport.Pull.{or_default, default_max_message_bytes}

pub record WsOptions : Type 0 where
  pub base_url : Text
  pub ws_path : Text
  pub request_timeout : ℕ
  pub heartbeat_interval : ℕ
  pub max_message_bytes : ℕ
  pub command_queue_size : ℕ
  pub outbound_size : ℕ
  pub max_parallel_jobs : ℕ
  pub max_output_bytes : ℕ
  pub device_id : Text
  pub tenant_id : Text
  pub device_secret : Text
  pub agent_version : Text
  pub device_name : Text
  pub allowed_actions : List Text
  pub pull_fallback : Bool

pub record Wire : Type 0 where
  pub decode_command : Text → Option CommandPayload
  pub decode_hello_ack : Text → Option HelloAckPayload
  pub encode_result : ResultPayload → Option Text
  pub encode_ack : AckPayload → Option Text
  pub encode_error : ErrorPayload → Option Text
  pub encode_hello : HelloPayload → Option Text
  pub encode_heartbeat : HeartbeatPayload → Option Text

abbrev pub default_command_queue_size : ℕ
default_command_queue_size = 16

abbrev pub default_outbound_size : ℕ
default_outbound_size = 32

-- the defaults of NewWSClient
unfoldable pub with_defaults : WsOptions → WsOptions
with_defaults o = record o {
  request_timeout = or_default (15 * second) o.request_timeout;
  heartbeat_interval = or_default (30 * second) o.heartbeat_interval;
  max_message_bytes = or_default default_max_message_bytes o.max_message_bytes;
  command_queue_size = or_default default_command_queue_size o.command_queue_size;
  outbound_size = or_default default_outbound_size o.outbound_size;
  max_parallel_jobs = or_default 1 o.max_parallel_jobs;
}

-- (*WSClient).HandshakeHeader
unfoldable pub handshake_header : Crypto → WsOptions → Text → Option Text → Option Header
unfolding signed_header
handshake_header crypto o timestamp nonce =
    signed_header crypto o.device_secret o.device_id o.tenant_id o.agent_version (codes "GET")
      o.ws_path [] timestamp nonce

-- what of a WSClient outlives a connection; activeJobs is the number of the lingering commands
pub record WsClient : Type 0 where
  pub lingering : List CommandPayload
  pub last_command_id : Text
  pub last_command_state : Option CommandState

pub record Connection : Type 0 where
  pub jobs : List CommandPayload
  pub workers : List (Option CommandPayload)
  pub lingering : List CommandPayload
  pub active_jobs : ℕ
  pub outbound : List Envelope
  pub pending : Option Envelope
  pub written : List Envelope
  pub handed : List Envelope
  pub last_command_id : Text
  pub last_command_state : Option CommandState
  pub greeted : Bool
  pub reading : Bool
  pub world : World

-- what handleCommandEnvelope ends with: sendOutbound, Dispatcher.Enqueue, or an error
pub data Move : Type 0 where
  push hand : Envelope → Move
  fault : Move

unfoldable pub to_move : (Envelope → Move) → Option Envelope → Move
to_move move none = fault
to_move move (some env) = move env

unfoldable pub is_hello_ack : MessageType → Bool
is_hello_ack hello_ack = true
is_hello_ack _ = false

module _ (wire : Wire) (o : WsOptions) where
  -- the envelope of sendHello
  unfoldable pub hello_envelope : Stamp → Option Envelope
  unfolding make_envelope
  hello_envelope = make_envelope hello o.device_id [] (
      wire.encode_hello (record {
        agent_version = o.agent_version;
        device_id = o.device_id;
        tenant_id = o.tenant_id;
        device_name = o.device_name;
        capabilities = record {
          actions = o.allowed_actions;
          async = true;
          web_socket = true;
          pull_fallback = o.pull_fallback;
          outbox = true;
        };
        config = record {
          max_parallel_jobs = o.max_parallel_jobs;
          max_output_bytes = o.max_output_bytes;
        };
      }))

  -- whether waitHelloAck takes an envelope
  unfoldable pub accepts : Envelope → Bool
  unfolding is_hello_ack
  accepts env =
      text_eq env.version envelope_version
      && is_hello_ack env.type
      && elim (wire.decode_hello_ack env.payload) [ none ↦ false | some a ↦ a.accepted ]

  -- the envelope of sendError
  unfoldable pub error_envelope : Stamp → Text → ErrorCode → Text → Option Envelope
  unfolding make_envelope
  error_envelope stamp correlation_id code message =
      make_envelope error o.device_id correlation_id
        (wire.encode_error (record { error_code = code; message = message })) stamp

  -- the envelope of sendRejectedResult
  unfoldable pub rejected_envelope : ℕ → Stamp → CommandPayload → ErrorCode → Text → Option Envelope
  unfolding make_envelope rejected_result
  rejected_envelope now stamp cmd code message =
      make_envelope result o.device_id cmd.command_id
        (wire.encode_result (rejected_result now cmd.command_id cmd.action code message)) stamp

  -- the envelope of an ack
  unfoldable pub ack_envelope : Stamp → CommandPayload → Option Envelope
  unfolding make_envelope
  ack_envelope stamp cmd =
      make_envelope ack o.device_id cmd.command_id
        (wire.encode_ack (record {
          command_id = cmd.command_id;
          action = cmd.action;
          state = queued;
          accepted = true;
          error_code = no_error;
        }))
        stamp

  -- handleCommandEnvelope: the jobs after it, and how it ends
  unfoldable pub handle_command_envelope :
      ℕ → Stamp → Envelope → List CommandPayload → List CommandPayload × Move
  unfolding to_move error_envelope rejected_envelope ack_envelope
  handle_command_envelope now stamp env jobs =
      if not (text_eq env.version envelope_version)
      then (
        jobs,
        to_move push (
            error_envelope stamp env.correlation_id invalid_version
              (codes "unsupported envelope version")),
      )
      else elim (wire.decode_command env.payload) [
        | none ↦ (
          jobs,
          to_move push (
              error_envelope stamp env.correlation_id invalid_payload
                (codes "invalid command payload")),
        )
        | some cmd ↦
            if not (text_eq env.device_id o.device_id)
            then (
              jobs,
              to_move hand (
                  rejected_envelope now stamp cmd device_mismatch
                    (codes "command device_id does not match this device")),
            )
            else if ltb (length jobs) o.command_queue_size
            then (jobs ++ cmd ∷ [], to_move push (ack_envelope stamp cmd))
            else (
              jobs,
              to_move hand
                  (rejected_envelope now stamp cmd queue_full (codes "command queue is full")),
            )
      ]

  -- readLoop after a move; `enqueued` says that Dispatcher.Enqueue returns no error
  unfoldable pub after_move : Bool → List CommandPayload × Move → Connection → Connection
  after_move enqueued (jobs, push env) c = record c { jobs = jobs; pending = some env }
  after_move enqueued (jobs, hand env) c = record c {
    jobs = jobs;
    handed = c.handed ++ env ∷ [];
    reading = enqueued;
  }
  after_move enqueued (jobs, fault) c = record c { jobs = jobs; reading = false }

  -- the body of heartbeatLoop
  unfoldable pub heartbeat_envelope :
      Stamp → ℕ → ℕ → Option MgateStatusSummary → Connection → Option Envelope
  unfolding make_envelope
  heartbeat_envelope stamp uptime_sec outbox_pending mgate c =
      make_envelope heartbeat o.device_id []
        (wire.encode_heartbeat (record {
          agent_version = o.agent_version;
          device_id = o.device_id;
          uptime_sec = uptime_sec;
          active_jobs = c.active_jobs;
          last_command_id = c.last_command_id;
          last_command_state = c.last_command_state;
          outbox_pending = outbox_pending;
          mgate = mgate;
        }))
        stamp

  -- what worker makes of the result of a command
  unfoldable pub finish : Stamp → World × ResultPayload → Connection → Connection
  unfolding make_envelope
  finish stamp (w, answer) c = record c {
    active_jobs = c.active_jobs - 1;
    last_command_id = answer.command_id;
    last_command_state = some answer.state;
    world = w;
    handed =
        elim (make_envelope result o.device_id answer.command_id (wire.encode_result answer)
          stamp) [ none ↦ c.handed | some env ↦ c.handed ++ env ∷ [] ];
  }

-- what worker does to the client when a command of an earlier connection has its result; that goes
-- to the dispatcher as well
unfoldable pub finish_late : World × ResultPayload → Connection → Connection
finish_late (w, answer) c = record c {
  active_jobs = c.active_jobs - 1;
  last_command_id = answer.command_id;
  last_command_state = some answer.state;
  world = w;
}

-- workers that wait
unfoldable pub idle_workers : ℕ → List (Option CommandPayload)
idle_workers zero = []
idle_workers (suc n) = none ∷ idle_workers n
