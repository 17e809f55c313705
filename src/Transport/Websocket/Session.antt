-- ===== src/Transport/Websocket/Session.antt =====
-- internal/transport/ws_client.go: the turns that the goroutines of runOnce take.
use mgate_agent.Base.{
  ℕ, suc, ◌+◌, ◌<◌, ◌≡◌, Bool, true, false, Option, none, some, List, [], ◌∷◌, ◌++◌, ◌&&◌, length,
  is_some,
}
use mgate_agent.Base.Text.{Text, text_eq}
use mgate_agent.Protocol.{CommandPayload, ResultPayload, Envelope}
use mgate_agent.Mgate.{MgateStatusSummary}
use mgate_agent.Commands.Handler.{Handler, World, Rejection, handle}
use mgate_agent.Runner.{Request}
use mgate_agent.Transport.Message.{Stamp, envelope_version}
use mgate_agent.Transport.Pull.{is_command}
use mgate_agent.Transport.Websocket.{
  WsOptions, Wire, WsClient, Connection, accepts, handle_command_envelope, after_move,
  heartbeat_envelope, finish, finish_late, idle_workers,
}

-- the connection when sendHello has put the hello into `outbound`
abbrev pub fresh : WsOptions → Envelope → WsClient → World → Connection
fresh o hello client w = record {
  jobs = [];
  workers = idle_workers o.max_parallel_jobs;
  lingering = client.lingering;
  active_jobs = length client.lingering;
  outbound = hello ∷ [];
  pending = none;
  written = [];
  handed = [];
  last_command_id = client.last_command_id;
  last_command_state = client.last_command_state;
  greeted = false;
  reading = false;
  world = w;
}

-- the commands that workers handle
unfoldable pub at_work : List (Option CommandPayload) → List CommandPayload
at_work [] = []
at_work (none ∷ ws) = at_work ws
at_work (some cmd ∷ ws) = cmd ∷ at_work ws

-- the client when a connection has ended: no worker is waited for, and the queues are dropped
unfoldable pub left_over : Connection → WsClient
unfolding at_work
left_over c = record {
  lingering = c.lingering ++ at_work c.workers;
  last_command_id = c.last_command_id;
  last_command_state = c.last_command_state;
}

-- how many results an envelope that readLoop gets is to have: one, if it is a command that the
-- agent can read
unfoldable pub owed : Wire → Envelope → ℕ
unfolding is_command
owed wire env =
    elim (is_command env.type
      && text_eq env.version envelope_version
      && is_some (wire.decode_command env.payload)) [ true ↦ 1 | false ↦ 0 ]

module _ (wire : Wire) (o : WsOptions) (describe : Rejection → Text)
    (runner : Request → ResultPayload) (h : Handler) where
  -- one turn, with the number of results that it makes the agent owe
  pub data Step (c : Connection) : ℕ → Connection → Type 0 where
    -- waitHelloAck, and the start of the other goroutines
    greet :
        (env : Envelope)
        → c.greeted ≡ false
        → accepts wire o env ≡ true
        → Step c 0 (record c { greeted = true; reading = true })
    -- readLoop with a command
    read :
        (env : Envelope) (now : ℕ) (stamp : Stamp) (enqueued : Bool)
        → c.reading ≡ true
        → c.pending ≡ none
        → is_command env.type ≡ true
        → Step c
            (owed wire env)
            (after_move wire o enqueued (handle_command_envelope wire o now stamp env c.jobs) c)
    -- readLoop with another message
    ignore :
        (env : Envelope)
        → c.reading ≡ true
        → c.pending ≡ none
        → is_command env.type ≡ false
        → Step c (owed wire env) c
    -- readEnvelope fails
    hang_up : c.reading ≡ true → c.pending ≡ none → Step c 0 (record c { reading = false })
    -- sendOutbound of readLoop, which waits for room
    send :
        (env : Envelope)
        → c.pending ≡ some env
        → length c.outbound < o.outbound_size
        → Step c 0 (record c { pending = none; outbound = c.outbound ++ env ∷ [] })
    -- a worker takes a job
    take :
        (cmd : CommandPayload) (rest : List CommandPayload)
        (front back : List (Option CommandPayload))
        → c.jobs ≡ cmd ∷ rest
        → c.workers ≡ front ++ none ∷ back
        → Step c 0 (record c {
          jobs = rest;
          workers = front ++ some cmd ∷ back;
          active_jobs = suc c.active_jobs;
        })
    -- a worker ends with its job
    complete :
        (cmd : CommandPayload) (front back : List (Option CommandPayload)) (clock : ℕ → ℕ)
        (stamp : Stamp)
        → c.workers ≡ front ++ some cmd ∷ back
        → Step c 0 (
            finish wire o stamp
              (handle describe runner h cmd clock c.world)
              (record c { workers = front ++ none ∷ back }))
    -- a worker of an earlier connection ends with its job
    linger :
        (cmd : CommandPayload) (front back : List CommandPayload) (clock : ℕ → ℕ)
        → c.lingering ≡ front ++ cmd ∷ back
        → Step c 0 (
            finish_late
              (handle describe runner h cmd clock c.world)
              (record c { lingering = front ++ back }))
    -- heartbeatLoop
    beat :
        (stamp : Stamp) (uptime_sec outbox_pending : ℕ) (mgate : Option MgateStatusSummary)
        (env : Envelope)
        → c.greeted ≡ true
        → heartbeat_envelope wire o stamp uptime_sec outbox_pending mgate c ≡ some env
        → length c.outbound < o.outbound_size
        → Step c 0 (record c { outbound = c.outbound ++ env ∷ [] })
    -- the dispatcher's sender puts the envelope of a record into `outbound`
    offer :
        (env : Envelope)
        → c.greeted ≡ true
        → length c.outbound < o.outbound_size
        → Step c 0 (record c { outbound = c.outbound ++ env ∷ [] })
    -- writeLoop
    write :
        (env : Envelope) (rest : List Envelope)
        → c.outbound ≡ env ∷ rest
        → Step c 0 (record c { outbound = rest; written = c.written ++ env ∷ [] })

  -- the connections that turns lead to, with the number of results that they owe
  pub data Reach (hello : Envelope) (client : WsClient) (w : World) : ℕ → Connection → Type 0 where
    start : Reach hello client w 0 (fresh o hello client w)
    later :
        {n k : ℕ} {c d : Connection}
        → Reach hello client w n c
        → Step c k d
        → Reach hello client w (n + k) d
