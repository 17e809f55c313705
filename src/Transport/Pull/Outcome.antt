-- ===== src/Transport/Pull/Outcome.antt =====
-- internal/transport/pull_client.go: how a poll ends.
use mgate_agent.Base.{
  ℕ, ◌≡◌, ◌≤◌, sym, ◌∙◌, subst, ap, ◌⊎◌, inl, inr, false, Option, some, List, Bool-cases,
  Option-cases, arith, All, Result, ok, err, Result-cases, ltb, length,
}
use mgate_agent.Base.Text.{Text}
use mgate_agent.Protocol.{ResultPayload, Envelope}
use mgate_agent.Mgate.{MgateStatusSummary}
use mgate_agent.Outbox.{Codec}
use mgate_agent.Commands.Handler.{Handler, Rejection}
use mgate_agent.Commands.Handler.Safety.{handle_all-IsAuthorised, IsAuthorised}
use mgate_agent.Runner.{Request}
use mgate_agent.Transport.Message.{PullResponsePayload}
use mgate_agent.Transport.Pull.{
  PullOptions, PullError, Network, Turn, Agent, Body, read_limited, batch_of, exchange,
  pull_request, poll_once,
}
use mgate_agent.Transport.Pull.Handled.{Progress, take_commands-Progress, accepted}

-- a body within the limit, read to its end, whose response holds no more commands than the limit
pub record IsBatch (net : Network) (o : PullOptions) (body : Body) (envs : List Envelope)
    : Type 0 where
  pub small : length body.bytes ≤ o.max_response_bytes
  pub unbroken : body.breaks ≡ false
  pub decoded :
      (p : PullResponsePayload) × (net.decode_response body.bytes ≡ some p) × (p.commands ≡ envs)
  pub few : length envs ≤ o.max_commands

read_limited-small :
    (body : Body) (n : ℕ) (data' : Text)
    → read_limited body n ≡ ok data'
    → (length body.bytes ≤ n) × (body.breaks ≡ false) × (data' ≡ body.bytes)
unfolding read_limited
read_limited-small body n data' e = elim (Bool-cases (ltb n (length body.bytes))) [
  | inl f ↦ absurd (ground (arith, e, f))
  | inr f ↦ elim (Bool-cases body.breaks) [
    | inl g ↦ absurd (ground (arith, e, f, g))
    | inr g ↦ ground (arith, e, f, g)
  ]
]

batch_of-IsBatch :
    (net : Network) (o : PullOptions) (body : Body) (envs : List Envelope)
    → batch_of net o body ≡ ok envs
    → IsBatch net o body envs
unfolding batch_of
batch_of-IsBatch net o body envs e = elim (Result-cases (read_limited body o.max_response_bytes)) [
  | inr (x, f) ↦ absurd (ground (arith, e, f))
  | inl (data', f) ↦
      let (small, unbroken, same) = read_limited-small body o.max_response_bytes data' f in
      elim (Option-cases (net.decode_response data')) [
        | inl g ↦ absurd (ground (arith, e, f, g))
        | inr (p, g) ↦ elim (Bool-cases (ltb o.max_commands (length p.commands))) [
          | inl q ↦ absurd (ground (arith, e, f, g, q))
          | inr q ↦
              let these : p.commands ≡ envs = ground (arith, e, f, g, q) in
              record {
                small = small;
                unbroken = unbroken;
                decoded = (p, ap net.decode_response (sym same) ∙ g, these);
                few = ground (arith, q, these);
              }
        ]
      ]
]

module _ (net : Network) (codec : Codec) (describe : Rejection → Text)
    (runner : Request → ResultPayload) (h : Handler) (o : PullOptions) (turns : ℕ → Turn) (now : ℕ)
    (nonce : Option Text) (mgate : Option MgateStatusSummary) where
  -- the answer of the server
  abbrev pub answer : Agent → Result PullError Body
  answer a = exchange net o now nonce o.pull_path (pull_request net o mgate a)

  -- a poll that got no batch: an error, and nothing changed
  abbrev pub IsVain : Agent → Agent → Result PullError (Unit {0}) → Type 0
  IsVain a b r = (b ≡ a) × ((e : PullError) × (r ≡ err e))

  -- a poll that got a batch, and how far it came in it
  abbrev pub IsPolled : Agent → Agent → Result PullError (Unit {0}) → Type 0
  IsPolled a b r =
      (body : Body) × (envs : List Envelope) × (answer a ≡ ok body)
      × IsBatch net o body envs
      × Progress net codec describe runner h o turns 0 envs a b r

  -- A poll that ends has either failed and changed nothing, or it got a response within the limits
  -- on its size and on its number of commands, and the handler's world is that after handling, in
  -- their order, the accepted commands of the response up to an envelope: up to the last one, when
  -- the poll reports no error.
  pub poll_once-IsPolled :
      (a b : Agent) (r : Result PullError (Unit {0}))
      → poll_once net codec describe runner h o turns now nonce mgate a ≡ some (b, r)
      → IsVain a b r ⊎ IsPolled a b r
  unfolding poll_once
  poll_once-IsPolled a b r e = elim (Result-cases (answer a)) [
    | inr (x, f) ↦ inl (ground (arith, e, f), (x, ground (arith, e, f)))
    | inl (body, f) ↦ elim (Result-cases (batch_of net o body)) [
      | inr (x, g) ↦ inl (ground (arith, e, f, g), (x, ground (arith, e, f, g)))
      | inl (envs, g) ↦ inr (
        body,
        envs,
        f,
        batch_of-IsBatch net o body envs g,
        take_commands-Progress net codec describe runner h o turns 0 envs a b r
            (ground (arith, e, f, g)),
      )
    ]
  ]

  -- After a poll, whatever the server sent, every request that reached the runner is authorised if
  -- those before the poll were.
  pub poll_once-IsAuthorised :
      (a b : Agent) (r : Result PullError (Unit {0}))
      → poll_once net codec describe runner h o turns now nonce mgate a ≡ some (b, r)
      → All (IsAuthorised h) a.world.executed
      → All (IsAuthorised h) b.world.executed
  poll_once-IsAuthorised a b r e all = elim (poll_once-IsPolled a b r e) [
    | inl (same, _) ↦ subst (λ c. All (IsAuthorised h) c.world.executed) (sym same) all
    | inr (_, envs, _, _, p) ↦
        subst (λ w. All (IsAuthorised h) w.executed) (sym p.world)
          (handle_all-IsAuthorised describe runner h (accepted net o turns 0 p.handled) a.world all)
  ]
