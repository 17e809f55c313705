-- ===== src/Transport/Pull/Handled.antt =====
-- internal/transport/pull_client.go: what a poll does to the handler.
use mgate_agent.Base.{
  ◌⊎◌, ℕ, suc, ◌≡◌, refl, sym, ◌∙◌, ap, inl, inr, true, false, Option, none, some, List, [], ◌∷◌,
  ◌++◌, ◌&&◌, Bool-cases, Option-cases, arith, Result, ok, err,
}
use mgate_agent.Base.Text.{Text, text_eq}
use mgate_agent.Protocol.{CommandPayload, ResultPayload, Envelope, result}
use mgate_agent.Outbox.Store.Operations.{enough_rounds}
use mgate_agent.Outbox.{Codec}
use mgate_agent.Commands.Handler.{Handler, World, Rejection, handle}
use mgate_agent.Commands.Handler.Safety.{handle_all}
use mgate_agent.Runner.{Request}
use mgate_agent.Transport.Dispatcher.{enqueue}
use mgate_agent.Transport.Message.{envelope_version, make_envelope}
use mgate_agent.Transport.Pull.{
  PullOptions, PullError, Network, Turn, Agent, is_command, handle_envelope, take_command,
  take_commands, keep_result,
}

-- the command of an envelope of the agent's version, for this device
unfoldable pub accept : Network → PullOptions → Envelope → Option CommandPayload
unfolding is_command text_eq
accept net o env = elim (net.decode_command env.payload) [
  | none ↦ none
  | some cmd ↦
      elim (text_eq env.version envelope_version
        && is_command env.type
        && text_eq env.device_id o.device_id) [ true ↦ some cmd | false ↦ none ]
]

-- the commands of a batch that the agent accepts, each with the clock of its turn
unfoldable pub accepted :
    Network → PullOptions → (ℕ → Turn) → ℕ → List Envelope → List (CommandPayload × (ℕ → ℕ))
unfolding accept
accepted net o turns i [] = []
accepted net o turns i (env ∷ envs) = elim (accept net o env) [
  | none ↦ accepted net o turns (suc i) envs
  | some cmd ↦ (cmd, (turns i).clock) ∷ accepted net o turns (suc i) envs
]

module _ (net : Network) (codec : Codec) (describe : Rejection → Text)
    (runner : Request → ResultPayload) (h : Handler) (o : PullOptions) where
  -- the world after an envelope
  abbrev settled : Option CommandPayload → Turn → World → World
  settled none turn w = w
  settled (some cmd) turn w = (handle describe runner h cmd turn.clock w).0

  handle_envelope-eq-settled :
      (turn : Turn) (env : Envelope) (w : World)
      → (handle_envelope net codec describe runner h o turn env w).0
        ≡ settled (accept net o env) turn w
  unfolding handle_envelope accept
  handle_envelope-eq-settled turn env w = elim (Option-cases (net.decode_command env.payload)) [
    | inl e ↦ rw (handle_envelope, accept, e) refl
    | inr (cmd, e) ↦ elim (Bool-cases (text_eq env.version envelope_version)) [
      | inr f ↦ rw (handle_envelope, accept, e, f) refl
      | inl f ↦ elim (Bool-cases (is_command env.type)) [
        | inr g ↦ rw (handle_envelope, accept, e, f, g) refl
        | inl g ↦ elim (Bool-cases (text_eq env.device_id o.device_id)) [
          | inr d ↦ rw (handle_envelope, accept, e, f, g, d) refl
          | inl d ↦ rw (handle_envelope, accept, e, f, g, d) refl
        ]
      ]
    ]
  ]

  keep_result-world :
      (turn : Turn) (w : World) (answer : ResultPayload) (a b : Agent)
      (r : Result PullError (Unit {0}))
      → keep_result net codec describe runner h o turn (w, answer) a ≡ some (b, r)
      → b.world ≡ w
  unfolding keep_result
  keep_result-world turn w answer a b r e = elim (Bool-cases (text_eq answer.command_id [])) [
    | inl f ↦ ground (arith, e, f)
    | inr f ↦
        elim (Option-cases (
          make_envelope result o.device_id answer.command_id (net.encode_result answer)
            turn.stamp)) [
              | inl g ↦ ground (arith, e, f, g)
              | inr (out, g) ↦
                  elim (Option-cases (
                    enqueue codec (enough_rounds a.dispatcher.store) turn.now turn.os turn.at out
                      a.dispatcher)) [
                        | inl q ↦ absurd (ground (arith, e, f, g, q))
                        | inr ((d, err x), q) ↦ ground (arith, e, f, g, q)
                        | inr ((d, ok x), q) ↦ ground (arith, e, f, g, q)
                      ]
            ]
  ]

  take_command-world :
      (turn : Turn) (env : Envelope) (a b : Agent) (r : Result PullError (Unit {0}))
      → take_command net codec describe runner h o turn env a ≡ some (b, r)
      → b.world ≡ settled (accept net o env) turn a.world
  unfolding take_command
  take_command-world turn env a b r e =
      let out = handle_envelope net codec describe runner h o turn env a.world in
      keep_result-world turn out.0 out.1 a b r e ∙ handle_envelope-eq-settled turn env a.world

  handle_all-accepted :
      (turns : ℕ → Turn) (i : ℕ) (env : Envelope) (envs : List Envelope) (w : World)
      → handle_all describe runner h (accepted net o turns i (env ∷ envs)) w
        ≡ handle_all describe runner h
            (accepted net o turns (suc i) envs)
            (settled (accept net o env) (turns i) w)
  unfolding handle_all accepted
  handle_all-accepted turns i env envs w = elim (Option-cases (accept net o env)) [
    | inl e ↦ rw (accepted, e) refl
    | inr (cmd, e) ↦ rw (accepted, e) refl
  ]

  -- the envelopes of which a batch handled the commands, and those that an error left
  pub record Progress (turns : ℕ → Turn) (i : ℕ) (envs : List Envelope) (a b : Agent)
      (r : Result PullError (Unit {0})) : Type 0 where
    pub handled : List Envelope
    pub left : List Envelope
    pub parts : handled ++ left ≡ envs
    pub world : b.world ≡ handle_all describe runner h (accepted net o turns i handled) a.world
    pub whole : (left ≡ []) ⊎ ((e : PullError) × (r ≡ err e))

  pub take_commands-Progress :
      (turns : ℕ → Turn) (i : ℕ) (envs : List Envelope) (a b : Agent)
      (r : Result PullError (Unit {0}))
      → take_commands net codec describe runner h o turns i envs a ≡ some (b, r)
      → Progress turns i envs a b r
  unfolding take_commands handle_all accepted
  take_commands-Progress turns i [] a b r e = record {
    handled = [];
    left = [];
    parts = refl;
    world = ground (arith, e);
    whole = inl refl;
  }
  take_commands-Progress turns i (env ∷ envs) a b r e =
      elim (Option-cases (take_command net codec describe runner h o (turns i) env a)) [
        | inl f ↦ absurd (ground (arith, e, f))
        | inr ((c, err x), f) ↦ record {
          handled = env ∷ [];
          left = envs;
          parts = refl;
          world =
              ap (λ u. u.world) (sym (took c x f))
              ∙ take_command-world (turns i) env a c (err x) f
              ∙ sym (handle_all-accepted turns i env [] a.world);
          whole = inr (x, ground (arith, e, f));
        }
        | inr ((c, ok x), f) ↦
            let rest = take_commands-Progress turns (suc i) envs c b r (ground (arith, e, f)) in
            record {
              handled = env ∷ rest.handled;
              left = rest.left;
              parts = ap (λ es. env ∷ es) rest.parts;
              world =
                  rest.world
                  ∙ ap (handle_all describe runner h (accepted net o turns (suc i) rest.handled))
                      (take_command-world (turns i) env a c (ok x) f)
                  ∙ sym (handle_all-accepted turns i env rest.handled a.world);
              whole = rest.whole;
            }
      ]
    where
      took :
          (c : Agent) (x : PullError)
          → take_command net codec describe runner h o (turns i) env a ≡ some (c, err x)
          → c ≡ b
      took c x f = ground (arith, e, f)
