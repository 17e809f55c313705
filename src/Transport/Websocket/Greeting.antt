-- ===== src/Transport/Websocket/Greeting.antt =====
-- internal/transport/ws_client.go: what a connection does before the cloud accepts its hello, and
-- what it may do after.
use mgate_agent.Base.{ℕ, ◌≡◌, refl, sym, subst, Bool, false, none, List, [], ◌∷◌, ◌++◌, All}
use mgate_agent.Base.Text.{Text}
use mgate_agent.Protocol.{CommandPayload, ResultPayload, Envelope}
use mgate_agent.Commands.Handler.{Handler, World, Rejection, handle}
use mgate_agent.Commands.Handler.Safety.{IsAuthorised, handle-IsAuthorised}
use mgate_agent.Runner.{Request}
use mgate_agent.Transport.Websocket.{
  WsOptions, Wire, WsClient, Connection, Move, push, hand, fault, handle_command_envelope,
  after_move, finish, finish_late,
}
use mgate_agent.Transport.Websocket.Session.{
  Step, greet, read, ignore, hang_up, send, take, complete, linger, beat, offer, write, Reach,
  start, later,
}
use mgate_agent.Transport.Websocket.Bounds.{busy}

-- the world, and the commands of earlier connections that remain, when their workers have ended
-- with some of them
pub data Late (describe : Rejection → Text) (runner : Request → ResultPayload) (h : Handler)
    (cmds : List CommandPayload) (w : World) : List CommandPayload → World → Type 0 where
  nobody : Late describe runner h cmds w cmds w
  one :
      {rest : List CommandPayload} {u : World} (cmd : CommandPayload)
      (front back : List CommandPayload) (clock : ℕ → ℕ)
      → rest ≡ front ++ cmd ∷ back
      → Late describe runner h cmds w rest u
      → Late describe runner h cmds w (front ++ back) (handle describe runner h cmd clock u).0

-- nothing has been received, and nothing but the hello sent; only workers of earlier connections
-- have handled a command
pub record IsQuiet (describe : Rejection → Text) (runner : Request → ResultPayload) (h : Handler)
    (hello : Envelope) (client : WsClient) (w : World) (c : Connection) : Type 0 where
  pub deaf : c.reading ≡ false
  pub empty : c.jobs ≡ []
  pub idle : busy c.workers ≡ 0
  pub nothing_pending : c.pending ≡ none
  pub nothing_handed : c.handed ≡ []
  pub late : Late describe runner h client.lingering w c.lingering c.world
  pub untouched : client.lingering ≡ [] → c.world ≡ w
  pub only_hello : c.written ++ c.outbound ≡ hello ∷ []

-- a move of readLoop keeps the greeting and the world
after_move_same :
    (wire : Wire) (o : WsOptions) (enqueued : Bool) (p : List CommandPayload × Move)
    (c : Connection)
    → ((after_move wire o enqueued p c).greeted ≡ c.greeted)
      × ((after_move wire o enqueued p c).world ≡ c.world)
unfolding after_move
after_move_same wire o enqueued (jobs, push env) c = (refl, refl)
after_move_same wire o enqueued (jobs, hand env) c = (refl, refl)
after_move_same wire o enqueued (jobs, fault) c = (refl, refl)

module _ (wire : Wire) (o : WsOptions) (describe : Rejection → Text)
    (runner : Request → ResultPayload) (h : Handler) where
  Step-IsAuthorised :
      {k : ℕ} {c d : Connection}
      → Step wire o describe runner h c k d
      → All (IsAuthorised h) c.world.executed
      → All (IsAuthorised h) d.world.executed
  unfolding finish finish_late
  Step-IsAuthorised (greet env e a) all = all
  Step-IsAuthorised {c} (read env now stamp enqueued e p type) all =
      let same =
        after_move_same wire o enqueued (handle_command_envelope wire o now stamp env c.jobs) c in
      subst (λ w. All (IsAuthorised h) w.executed) (sym same.1) all
  Step-IsAuthorised (ignore env e p type) all = all
  Step-IsAuthorised (hang_up e p) all = all
  Step-IsAuthorised (send env e room) all = all
  Step-IsAuthorised (take cmd rest front back e f) all = all
  Step-IsAuthorised {c} (complete cmd front back clock stamp e) all =
      handle-IsAuthorised describe runner h cmd clock c.world all
  Step-IsAuthorised {c} (linger cmd front back clock e) all =
      handle-IsAuthorised describe runner h cmd clock c.world all
  Step-IsAuthorised (beat stamp u p m env g e room) all = all
  Step-IsAuthorised (offer env g room) all = all
  Step-IsAuthorised (write env rest e) all = all

  -- Whatever the cloud sends on a connection and in whatever order its goroutines take their turns,
  -- every request that reached the runner is authorised, if those before the connection were.
  pub Reach-IsAuthorised :
      {hello : Envelope} {client : WsClient} {w : World} {n : ℕ} {c : Connection}
      → All (IsAuthorised h) w.executed
      → Reach wire o describe runner h hello client w n c
      → All (IsAuthorised h) c.world.executed
  Reach-IsAuthorised all start = all
  Reach-IsAuthorised all (later r s) = Step-IsAuthorised s (Reach-IsAuthorised all r)
