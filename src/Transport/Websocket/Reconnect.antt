-- ===== src/Transport/Websocket/Reconnect.antt =====
-- internal/transport/ws_client.go: what goes on from one connection to the next.
use mgate_agent.Base.{
  ℕ, ◌<◌, ◌≡◌, refl, Option, none, some, List, [], ◌∷◌, length, length-append, arith,
}
use mgate_agent.Base.Text.{Text}
use mgate_agent.Protocol.{CommandPayload, ResultPayload, Envelope}
use mgate_agent.Commands.Handler.{Handler, World, Rejection}
use mgate_agent.Runner.{Request}
use mgate_agent.Transport.Websocket.{WsOptions, Wire, WsClient, Connection}
use mgate_agent.Transport.Websocket.Session.{Reach, fresh, left_over, at_work}
use mgate_agent.Transport.Websocket.Bounds.{busy, Reach-IsBounded}

length-at_work : (ws : List (Option CommandPayload)) → length (at_work ws) ≡ busy ws
unfolding busy at_work
length-at_work [] = refl
length-at_work (none ∷ ws) = length-at_work ws
length-at_work (some x ∷ ws) = omega (arith, length-at_work ws)

-- the count of the active jobs is the same when the client has connected again
reconnected-active_jobs :
    (wire : Wire) (o : WsOptions) (describe : Rejection → Text) (runner : Request → ResultPayload)
    (h : Handler) {hello : Envelope} {client : WsClient} {w : World} {n : ℕ} {c : Connection}
    (hello' : Envelope) (w' : World)
    → 0 < o.outbound_size
    → Reach wire o describe runner h hello client w n c
    → (fresh o hello' (left_over c) w').active_jobs ≡ c.active_jobs
unfolding left_over
reconnected-active_jobs wire o describe runner h {c} hello' w' room r = omega (
  arith,
  (Reach-IsBounded wire o describe runner h room r).active,
  length-at_work c.workers,
  length-append c.lingering (at_work c.workers),
)
