-- ===== src/Transport/Pull/Ends.antt =====
-- internal/transport/pull_client.go: a poll ends.
use mgate_agent.Base.{
  ℕ, suc, ◌≡◌, refl, ap, ◌∙◌, false, Option, some, List, [], ◌∷◌, Bool-cases, Option-cases,
  Result-cases, Result, ok, err, inl, inr, ◌>>=◌,
}
use mgate_agent.Base.Text.{Text, text_eq}
use mgate_agent.Protocol.{ResultPayload, Envelope, result}
use mgate_agent.Mgate.{MgateStatusSummary}
use mgate_agent.Outbox.{Codec}
use mgate_agent.Outbox.Store.{StoreError}
use mgate_agent.Outbox.Store.Operations.{enough_rounds}
use mgate_agent.Outbox.Store.Limits.{IsNamed}
use mgate_agent.Outbox.Store.Named.{KeepsId}
use mgate_agent.Commands.Handler.{Handler, World, Rejection}
use mgate_agent.Runner.{Request}
use mgate_agent.Transport.Dispatcher.{ResultDispatcher, enqueue}
use mgate_agent.Transport.Dispatcher.Named.{OthersName, enqueue-Ends}
use mgate_agent.Transport.Message.{make_envelope}
use mgate_agent.Transport.Pull.{
  PullOptions, PullError, Network, Turn, Agent, batch_of, exchange, pull_request, poll_once,
  take_commands, take_command, keep_result, handle_envelope, not_encoded, outbox_failed,
}

module _ (net : Network) (codec : Codec) (keeps : KeepsId codec) (describe : Rejection → Text)
    (runner : Request → ResultPayload) (h : Handler) (o : PullOptions) where
  -- there is an answer, and after it every record lies in the file of its own id
  abbrev Ends : Option (Agent × Result PullError (Unit {0})) → Type 0
  Ends p =
      (b : Agent) × (r : Result PullError (Unit {0})) × (p ≡ some (b, r))
      × IsNamed codec b.dispatcher.store

  keep_result-Ends :
      (turn : Turn) (w : World) (answer : ResultPayload) (a : Agent)
      → OthersName codec turn.at
      → IsNamed codec a.dispatcher.store
      → Ends (keep_result net codec describe runner h o turn (w, answer) a)
  unfolding keep_result
  keep_result-Ends turn w answer a rely named = elim (Bool-cases (text_eq answer.command_id [])) [
    | inl f ↦ (record a { world = w }, ok tt, rw (keep_result, f) refl, named)
    | inr f ↦
        elim (Option-cases (
          make_envelope result o.device_id answer.command_id (net.encode_result answer)
            turn.stamp)) [
              | inl g ↦
                  (record a { world = w }, err not_encoded, rw (keep_result, f, g) refl, named)
              | inr (out, g) ↦
                  let (d, r, e, kept) =
                    enqueue-Ends codec keeps turn.now turn.os turn.at out a.dispatcher rely named in
                  kept_answer out d r f g e kept
            ]
  ]
    where
      kept_answer :
          (out : Envelope) (d : ResultDispatcher) (r : Result StoreError (Unit {0}))
          → text_eq answer.command_id [] ≡ false
          → make_envelope result o.device_id answer.command_id (net.encode_result answer) turn.stamp
            ≡ some out
          → enqueue codec
              (enough_rounds a.dispatcher.store)
              turn.now
              turn.os
              turn.at
              out
              a.dispatcher
            ≡ some (d, r)
          → IsNamed codec d.store
          → Ends (keep_result net codec describe runner h o turn (w, answer) a)
      kept_answer out d (err x) f g e kept = (
        record a { world = w; dispatcher = d },
        err (outbox_failed x),
        rw (keep_result, f, g, e) refl,
        kept,
      )
      kept_answer out d (ok x) f g e kept = (
        record {
          world = w;
          dispatcher = d;
          last_command_id = answer.command_id;
          last_command_state = some answer.state;
        },
        ok tt,
        rw (keep_result, f, g, e) refl,
        kept,
      )

  take_commands_next :
      (turns : ℕ → Turn) (i : ℕ) (env : Envelope) (envs : List Envelope) (a b : Agent)
      → take_command net codec describe runner h o (turns i) env a ≡ some (b, ok tt)
      → take_commands net codec describe runner h o turns i (env ∷ envs) a
        ≡ take_commands net codec describe runner h o turns (suc i) envs b
  unfolding take_commands
  take_commands_next turns i env envs a b e = rw (take_commands, e) refl

  take_commands-Ends :
      (turns : ℕ → Turn) (i : ℕ) (envs : List Envelope) (a : Agent)
      → ((j : ℕ) → OthersName codec (turns j).at)
      → IsNamed codec a.dispatcher.store
      → Ends (take_commands net codec describe runner h o turns i envs a)
  unfolding take_commands take_command
  take_commands-Ends turns i [] a rely named = (a, ok tt, refl, named)
  take_commands-Ends turns i (env ∷ envs) a rely named =
      let out = handle_envelope net codec describe runner h o (turns i) env a.world in
      let (b, r, e, kept) = keep_result-Ends (turns i) out.0 out.1 a (rely i) named in
      elim (Result-cases r) [
        | inr (x, f) ↦ (b, err x, rw (take_commands, e, f) refl, kept)
        | inl (x, f) ↦
            let (c, q, g, fine) = take_commands-Ends turns (suc i) envs b rely kept in
            (c, q, take_commands_next turns i env envs a b (e ∙ ap (λ z. some (b, z)) f) ∙ g, fine)
      ]

  -- Where the JSON of a record keeps its id, every record in the outbox lies in the file of its own
  -- id and what other goroutines do while a result is sent leaves that so, a poll ends, whatever the
  -- server sends and whatever the operating system refuses, and the records still lie in the files of
  -- their ids.
  pub poll_once-Ends :
      (turns : ℕ → Turn) (now : ℕ) (nonce : Option Text) (mgate : Option MgateStatusSummary)
      (a : Agent)
      → ((j : ℕ) → OthersName codec (turns j).at)
      → IsNamed codec a.dispatcher.store
      → (b : Agent) × (r : Result PullError (Unit {0})) × (poll_once net codec describe runner h o
            turns now nonce mgate a
          ≡ some (b, r))
        × IsNamed codec b.dispatcher.store
  unfolding poll_once
  poll_once-Ends turns now nonce mgate a rely named =
      elim (Result-cases
        (exchange net o now nonce o.pull_path (pull_request net o mgate a) >>= batch_of net o)) [
          | inr (x, f) ↦ (a, err x, rw (poll_once, f) refl, named)
          | inl (envs, f) ↦
              let (b, r, e, kept) = take_commands-Ends turns 0 envs a rely named in
              (b, r, rw (poll_once, f) e, kept)
        ]
