-- ===== src/Lib.antt =====
-- mgate-agent: the agent that receives commands for a gateway, runs the ones the device allows, and
-- sends the results back.
--
-- A command comes in as a `CommandPayload`. The handler logs it, checks its id, refuses a
-- duplicate, looks the action up in the registry and in the local list of allowed actions,
-- validates the arguments and the time limit, and only then gives a request to the runner, which
-- starts one process without a shell and keeps its output within a limit, redacted. The result goes
-- into the outbox, a folder with one file per record, and the dispatcher sends what is due from
-- there and deletes what a sender has taken. Commands come over a WebSocket, whose client has a
-- reader, some workers and a writer around two bounded queues, or else from the pull client, which
-- asks for them; the manager lets the pull client poll when the WebSocket is not healthy. At its
-- start the agent reads a configuration and the device's credentials, and it reports the status of
-- mgate.sh.
--
-- Base and its children hold what the components share: lists and integers over native numbers,
-- texts as lists of bytes, results with an error, and Go maps as association lists.
--
--   Protocol, Protocol/Json          internal/protocol/command.go, envelope.go; decoded JSON values
--   Audit, Audit/Redact              internal/audit/audit.go, redact.go
--   Actions                          internal/actions/specs.go
--   Actions/Registry                 internal/actions/registry.go
--   Actions/Validators               internal/actions/validators.go
--   Commands/Dedupe                  internal/commands/dedupe.go
--   Commands/Handler                 internal/commands/handler.go
--   Runner, Runner/Output            internal/runner/runner.go, output.go
--   Outbox, Outbox/Retry             internal/outbox/record.go, the delays of store.go
--   Outbox/Store, .../Operations     internal/outbox/store.go
--   Transport/Dispatcher             internal/transport/result_dispatcher.go
--   Transport/Backoff                internal/transport/backoff.go
--   Transport/Message                internal/transport/ws_message.go, pull_message.go
--   Transport/Address                internal/transport/http_auth.go, the addresses of ws_client.go
--   Transport/Pull, .../Exchange     internal/transport/pull_client.go
--   Transport/Websocket, .../Session internal/transport/ws_client.go
--   Transport/Manager                internal/transport/manager.go
--   Transport/Loops                  the loops of Run in pull_client.go and ws_client.go
--   Protocol/Ws                      internal/protocol/ws.go
--   Auth                             internal/auth/hmac.go
--   App                              internal/app/app.go, version.go
--   App/Diagnostics                  internal/app/diagnostics.go
--   Config                           internal/config/config.go, load.go
--   Identity                         internal/identity/credentials.go
--   Mgate                            internal/mgate/client.go
--
-- A definition has the name of the Go function in small letters: Reserve is `reserve`, and
-- `reserve_in` is it on a store that is not nil; Handle is `handle`, whose parts `admit`, `reject`,
-- `execute`, `dispatch` and `receive` are the stretches of its body; writeRecordAtomic is
-- `write_record_atomic`, enforceLimitsLocked is `enforce_limits`, DispatchOnce is `dispatch_once`.
-- The other modules of a folder prove things of the module above them. Tests holds concrete runs.
--
-- State is passed on: `World` is what the handler changes (the duplicate window, the audit file,
-- the requests given to the runner), `Store` is the outbox with its folder, `ResultDispatcher` has
-- the outbox and the senders. A lock makes one operation one step; where DispatchOnce holds none,
-- while a sender has a record, `others` is what other goroutines do to the dispatcher and its
-- outbox. Times are natural numbers of nanoseconds, read from a clock that is a parameter. A time
-- limit is a 64-bit integer, and its product with a second wraps around as in Go.
--
-- Parameters stand for code outside the repository: `exec` for os/exec in Runner, `Codec` for
-- encoding/json in Outbox, `Os` for the calls on the folder of the outbox (a fault may hit every
-- step of a write, and a file may be unreadable), the draw of crypto/rand in Outbox/Retry, and
-- `describe` for the texts of errors in the handler. A regular expression is a repetition of a byte
-- class, which all those of the program are.
--
-- Most loops are structural. trimLocked of the duplicate window runs on the length of its list,
-- since each round takes one entry away. enforceLimitsLocked runs on rounds: `none` says they did
-- not suffice, and one more than the number of files is enough when every record lies in the file
-- of its own id. A poll takes rounds by the size of the outbox, which are enough for what Save
-- adds.
--
-- A WebSocket connection is a step relation: a step is one turn of one goroutine, and a call of the
-- handler is one step. `WsClient` is what a connection finds of earlier ones, whose workers may
-- still handle commands. `Network` and `Wire` hold what the clients use of net/http, net/url, JSON
-- and cryptography. app.go gives the handler and the outbox one audit file; each has its own log
-- here.
--
-- Not modelled: the dial and the end of a WebSocket connection, the start and the end of the
-- manager's goroutines, and how Run of app.go waits for them; the printing of the
-- self-test, the logger, the command line, scripts and packaging, which print and read flags.
pub mod Base
pub mod Protocol
pub mod Audit
pub mod Actions
pub mod Commands
pub mod Runner
mod Tests
pub mod Outbox
pub mod Transport
pub mod App
pub mod Config
pub mod Auth
pub mod Mgate
pub mod Identity
