-- ===== src/Transport/Pull.antt =====
-- internal/transport/pull_client.go: the agent asks the cloud for commands and handles them.
--
-- A `Turn` is what the clock, the random source and the operating system answer while one command of
-- a batch is handled. internal/app/app.go gives the handler and the dispatcher one audit file; each
-- has its own log here. The mgate summary of a request is the argument `mgate`.
mod Exchange
pub mod Handled
pub mod Outcome
pub mod Ends
unfoldable pub use Exchange.*
use mgate_agent.Base.{
  ℕ, suc, ◌*◌, Bool, true, false, not, Option, none, some, List, [], ◌∷◌, ◌||◌, ltb, leb, length,
  if◌then◌else◌, Result, ok, err, ◌>>=◌, ◌>>◌,
}
use mgate_agent.Base.Text.{Text, codes, text_eq}
use mgate_agent.Protocol.{
  second, CommandPayload, ResultPayload, CommandState, MessageType, Envelope, command, result,
  invalid_payload, invalid_version, invalid_type, device_mismatch,
}
use mgate_agent.Mgate.{MgateStatusSummary}
use mgate_agent.Outbox.Store.Operations.{enough_rounds}
use mgate_agent.Outbox.{Record, Codec}
use mgate_agent.Outbox.Store.{Os, StoreError}
use mgate_agent.Commands.Handler.{Handler, World, Rejection, handle}
use mgate_agent.Runner.{Request}
use mgate_agent.Transport.Dispatcher.{ResultDispatcher, Sender, Moment, enqueue, set_pull_sender}
use mgate_agent.Transport.Message.{
  Stamp, envelope_version, make_envelope, PullRequestPayload, PullResponsePayload, rejected_result,
}
use mgate_agent.Transport.Address.{
  Location, AddressError, build_http_url, Header, Crypto, signed_header,
}

-- what one command of a batch is handled with
pub record Turn : Type 0 where
  pub clock : ℕ → ℕ
  pub now : ℕ
  pub stamp : Stamp
  pub os : Os
  pub at : ℕ → Moment

-- the state that a pull client changes
pub record Agent : Type 0 where
  pub world : World
  pub dispatcher : ResultDispatcher
  pub last_command_id : Text
  pub last_command_state : Option CommandState

-- env.Type == protocol.MessageTypeCommand
unfoldable pub is_command : MessageType → Bool
is_command command = true
is_command _ = false

module _ (net : Network) where
  -- the json of the request of PollOnce
  unfoldable pub pull_request : PullOptions → Option MgateStatusSummary → Agent → Option Text
  pull_request o mgate a = net.encode_request (record {
    agent_version = o.agent_version;
    device_id = o.device_id;
    tenant_id = o.tenant_id;
    device_name = o.device_name;
    last_command_id = a.last_command_id;
    last_command_state = a.last_command_state;
    active_jobs = 0;
    transport = codes "pull";
    mgate = mgate;
  })

  module _ (codec : Codec) (describe : Rejection → Text) (runner : Request → ResultPayload)
      (h : Handler) (o : PullOptions) where
    -- (*PullClient).handleEnvelope
    unfoldable pub handle_envelope : Turn → Envelope → World → World × ResultPayload
    unfolding rejected_result is_command handle
    handle_envelope turn env w = elim (net.decode_command env.payload) [
      | none ↦ (w, rejected_result turn.now [] [] invalid_payload (codes "invalid command payload"))
      | some cmd ↦
          if not (text_eq env.version envelope_version)
          then (
            w,
            rejected_result turn.now cmd.command_id cmd.action invalid_version
                (codes "unsupported envelope version"),
          )
          else if not (is_command env.type)
          then (
            w,
            rejected_result turn.now cmd.command_id cmd.action invalid_type
                (codes "pull response item is not command"),
          )
          else if not (text_eq env.device_id o.device_id)
          then (
            w,
            rejected_result turn.now cmd.command_id cmd.action device_mismatch
                (codes "command device_id does not match this device"),
          )
          else handle describe runner h cmd turn.clock w
    ]

    -- the result of a command goes to the dispatcher, unless it has no command id: `none` when the
    -- rounds of the outbox's limits run out
    unfoldable pub keep_result :
        Turn → World × ResultPayload → Agent → Option (Agent × Result PullError (Unit {0}))
    unfolding make_envelope enqueue enough_rounds
    keep_result turn (w, answer) a = elim (text_eq answer.command_id []) [
      | true ↦ some (record a { world = w }, ok tt)
      | false ↦
          elim (make_envelope result o.device_id answer.command_id (net.encode_result answer)
            turn.stamp) [
              | none ↦ some (record a { world = w }, err not_encoded)
              | some out ↦
                  elim (enqueue codec (enough_rounds a.dispatcher.store) turn.now turn.os turn.at
                    out a.dispatcher) [
                      | none ↦ none
                      | some (d, err e) ↦
                          some (record a { world = w; dispatcher = d }, err (outbox_failed e))
                      | some (d, ok _) ↦ some (
                        record {
                          world = w;
                          dispatcher = d;
                          last_command_id = answer.command_id;
                          last_command_state = some answer.state;
                        },
                        ok tt,
                      )
                    ]
            ]
    ]

    -- one command of the batch
    unfoldable pub take_command :
        Turn → Envelope → Agent → Option (Agent × Result PullError (Unit {0}))
    unfolding handle_envelope keep_result
    take_command turn env a = keep_result turn (handle_envelope turn env a.world) a

    -- the loop of PollOnce
    unfoldable pub take_commands :
        (ℕ → Turn) → ℕ → List Envelope → Agent → Option (Agent × Result PullError (Unit {0}))
    unfolding take_command
    take_commands turns i [] a = some (a, ok tt)
    take_commands turns i (env ∷ envs) a = elim (take_command (turns i) env a) [
      | none ↦ none
      | some (b, err e) ↦ some (b, err e)
      | some (b, ok _) ↦ take_commands turns (suc i) envs b
    ]

    -- PollOnce
    unfoldable pub poll_once :
        (ℕ → Turn)
        → ℕ
        → Option Text
        → Option MgateStatusSummary
        → Agent
        → Option (Agent × Result PullError (Unit {0}))
    unfolding exchange pull_request batch_of take_commands
    poll_once turns now nonce mgate a =
        elim (exchange net o now nonce o.pull_path (pull_request o mgate a) >>= batch_of net o) [
          | err e ↦ some (a, err e)
          | ok envs ↦ take_commands turns 0 envs a
        ]
