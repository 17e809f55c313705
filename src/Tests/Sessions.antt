-- ===== src/Tests/Sessions.antt =====
-- A poll, a connection and the manager on the device of the handler's tests.
use mgate_agent.Base.{
  ℕ, ◌≡◌, ◌⊎◌, refl, true, false, not, ◌||◌, Option, none, some, List, [], ◌∷◌, arith, Result, err,
}
use mgate_agent.Base.Text.{codes, text_eq}
use mgate_agent.Protocol.{Envelope, command, hello_ack}
use mgate_agent.Commands.Handler.{handle}
use mgate_agent.Outbox.Store.Limits.{IsNamed}
use mgate_agent.Transport.Pull.Ends.{poll_once-Ends}
use mgate_agent.Transport.Dispatcher.{ResultDispatcher}
use mgate_agent.Transport.Message.{Stamp}
use mgate_agent.Transport.Pull.{is_command, PullOptions, PullError, Network, Turn, Agent, poll_once}
use mgate_agent.Transport.Pull.Outcome.{IsVain, IsPolled, poll_once-IsPolled}
use mgate_agent.Transport.Address.{Location}
use mgate_agent.Transport.Websocket.{
  WsOptions, Wire, WsClient, Connection, accepts, handle_command_envelope, after_move, is_hello_ack,
  idle_workers, finish_late,
}
use mgate_agent.Transport.Websocket.Session.{greet, read, take, Reach, start, later, fresh, owed}
use mgate_agent.Transport.Websocket.Bounds.{IsBounded, Reach-IsBounded}
use mgate_agent.Transport.Websocket.Answers.{total, Reach-total}
use mgate_agent.Transport.Manager.{
  Event, Manager, connected, disconnected, reported, taken, run_events, should_poll, last_report,
  has_room,
}
use mgate_agent.Transport.Manager.Health.{should_poll-last_report}
use mgate_agent.Tests.Commands.{device, idle, silent, answer, start_command, clock_at}
use mgate_agent.Tests.Outbox.{by_id-KeepsId, outbox-IsNamed, by_id, healthy, outbox, envelope}

abbrev dispatcher : ResultDispatcher
dispatcher = record { store = outbox; ws_sender = none; pull_sender = none; sending = false }

abbrev cloud : Location
cloud = record {
  scheme = codes "https";
  host = codes "cloud.example";
  path = [];
  raw_query = [];
  fragment = [];
  rest = [];
}

abbrev command_envelope : Envelope
command_envelope = record envelope { version = codes "1"; type = command }

abbrev network : Network
network = record {
  parse_url = λ raw. some cloud;
  print_url = λ l. l.path;
  crypto = record { sha256 = λ s. s; hmac = λ key s. s; base64 = λ s. s };
  rfc3339 = λ now. codes "2026-01-01T00:00:00Z";
  encode_request = λ p. some p.device_id;
  encode_envelope = λ env. some env.payload;
  encode_result = λ r. some r.command_id;
  decode_response = λ data'. some (record { server_time = 1; commands = command_envelope ∷ [] });
  decode_command = λ data'. some start_command;
  send = λ now req.
      some (record { status_code = 200; body = record { bytes = codes "{}"; breaks = false } });
}

abbrev options : PullOptions
options = record {
  base_url = codes "https://cloud.example";
  pull_path = codes "/pull";
  result_path = codes "/result";
  request_timeout = 15;
  pull_interval = 10;
  max_response_bytes = 100;
  max_commands = 16;
  device_id = codes "pi";
  tenant_id = codes "home";
  device_secret = codes "secret";
  agent_version = codes "1";
  device_name = codes "pi";
}

abbrev agent : Agent
agent = record {
  world = idle;
  dispatcher = dispatcher;
  last_command_id = [];
  last_command_state = none;
}

abbrev stamp : Stamp
stamp = record { bytes = none; unix_nano = codes "7"; now = 7 }

abbrev turn_at : ℕ → Turn
turn_at i = record {
  clock = clock_at i;
  now = 7;
  stamp = stamp;
  os = healthy;
  at = λ pass. record { now = 7; cancelled = false; os = healthy; draw = none; others = λ d. d };
}

abbrev poll : Option (Agent × Result PullError (Unit {0}))
poll = poll_once network by_id silent answer device options turn_at 7 (some (codes "n1")) none agent

unfoldable outcome : Agent × Result PullError (Unit {0})
outcome = elim poll [ some p ↦ p | none ↦ (agent, err PullError.no_answer) ]

polls : poll ≡ some (outcome.0, outcome.1)
unfolding outcome poll_once text_eq
polls = refl

poll_once-IsPolled_example :
    IsVain network by_id silent answer device options turn_at 7
      (some (codes "n1"))
      none
      agent
      outcome.0
      outcome.1
    ⊎ IsPolled network by_id silent answer device options turn_at 7
        (some (codes "n1"))
        none
        agent
        outcome.0
        outcome.1
poll_once-IsPolled_example =
    poll_once-IsPolled network by_id silent answer device options turn_at 7 (some (codes "n1")) none
      agent outcome.0 outcome.1 polls

abbrev wire : Wire
wire = record {
  decode_command = λ data'. some start_command;
  decode_hello_ack = λ data'. some (record { accepted = true; server_time = 1; message = [] });
  encode_result = λ r. some r.command_id;
  encode_ack = λ a. some a.command_id;
  encode_error = λ e. some e.message;
  encode_hello = λ p. some p.device_id;
  encode_heartbeat = λ p. some p.device_id;
}

abbrev socket : WsOptions
socket = record {
  base_url = codes "https://cloud.example";
  ws_path = codes "/ws";
  request_timeout = 15;
  heartbeat_interval = 30;
  max_message_bytes = 65536;
  command_queue_size = 16;
  outbound_size = 32;
  max_parallel_jobs = 1;
  max_output_bytes = 32768;
  device_id = codes "pi";
  tenant_id = codes "home";
  device_secret = codes "secret";
  agent_version = codes "1";
  device_name = codes "pi";
  allowed_actions = codes "gateway.start" ∷ [];
  pull_fallback = true;
}

abbrev hello_ack_envelope : Envelope
hello_ack_envelope = record command_envelope { type = hello_ack }

-- a client whose earlier connection has left a command with its worker
abbrev reconnected : WsClient
reconnected = record {
  lingering = start_command ∷ [];
  last_command_id = [];
  last_command_state = none;
}

-- the connection before the greeting, after it, with a command in the queue, and at work
abbrev new_connection : Connection
new_connection = fresh socket envelope reconnected idle

abbrev open_connection : Connection
open_connection = record new_connection { greeted = true; reading = true }

abbrev queued_connection : Connection
queued_connection =
    after_move wire socket true
      (handle_command_envelope wire socket 7 stamp command_envelope open_connection.jobs)
      open_connection

abbrev busy_connection : Connection
busy_connection = record queued_connection {
  jobs = [];
  workers = some start_command ∷ [];
  active_jobs = 2;
}

session : Reach wire socket silent answer device envelope reconnected idle 1 busy_connection
unfolding accepts owed handle_command_envelope after_move text_eq is_command is_hello_ack
    idle_workers
session =
    later {n = 1} {k = 0} {c = queued_connection}
      (later {n = 0} {k = 1} {c = open_connection}
        (later {n = 0} {k = 0} {c = new_connection} start (greet hello_ack_envelope refl refl))
        (read command_envelope 7 stamp true refl refl refl))
      (take start_command [] [] [] refl refl)

Reach-IsBounded_example : IsBounded socket busy_connection
Reach-IsBounded_example = Reach-IsBounded wire socket silent answer device (omega arith) session

Reach-total_example : 1 ≡ total busy_connection
Reach-total_example = Reach-total wire socket silent answer device (λ r. refl) session

-- the connection before the greeting, when the command of the earlier one has its result
abbrev relieved_connection : Connection
relieved_connection =
    finish_late (handle silent answer device start_command (clock_at 0) idle)
      (record new_connection { lingering = [] })

abbrev manager : Manager
manager = record {
  ws_enabled = true;
  pull_enabled = true;
  dispatcher = dispatcher;
  events = [];
  ws_healthy = false;
}

abbrev reports : List Event
reports = reported connected ∷ taken ∷ reported disconnected ∷ taken ∷ []

should_poll-last_report_example :
    should_poll (run_events reports manager)
    ≡ (not manager.ws_enabled || not (last_report reports false))
unfolding run_events has_room
should_poll-last_report_example = should_poll-last_report reports manager refl refl refl refl

poll_once-Ends_example :
    (b : Agent) × (r : Result PullError (Unit {0})) × (poll_once network by_id silent answer device
        options turn_at 7
        (some (codes "n1"))
        none
        agent
      ≡ some (b, r))
    × IsNamed by_id b.dispatcher.store
poll_once-Ends_example =
    poll_once-Ends network by_id by_id-KeepsId silent answer device options turn_at 7
      (some (codes "n1")) none agent (λ j k e named. named) outbox-IsNamed
