-- ===== src/Transport/Websocket/Answers.antt =====
-- internal/transport/ws_client.go: every command is answered once, and none before the greeting.
use mgate_agent.Base.{
  ℕ, suc, ◌+◌, ◌≡◌, refl, sym, ◌∙◌, inl, inr, Bool, true, false, Option, none, some, List, [], ◌∷◌,
  ◌++◌, length, length-append, Bool-cases, Option-cases, arith, ltb, is_some,
}
use mgate_agent.Base.Text.{Text, text_eq, codes}
use mgate_agent.Protocol.{
  CommandPayload, ResultPayload, Envelope, result, device_mismatch, queue_full, invalid_version,
  invalid_payload, ErrorCode,
}
use mgate_agent.Commands.Handler.{Handler, World, Rejection, handle}
use mgate_agent.Runner.{Request}
use mgate_agent.Transport.Message.{Stamp, envelope_version, make_envelope, rejected_result}
use mgate_agent.Transport.Pull.{is_command}
use mgate_agent.Transport.Websocket.{
  WsOptions, Wire, WsClient, Connection, push, hand, to_move, handle_command_envelope, after_move,
  finish, finish_late, error_envelope, rejected_envelope, ack_envelope,
}
use mgate_agent.Transport.Websocket.Session.{
  Step, greet, read, ignore, hang_up, send, take, complete, linger, beat, offer, write, Reach,
  start, later, owed,
}
use mgate_agent.Transport.Websocket.Bounds.{busy, busy-some, busy-idle_workers}

-- the commands that wait, those that a worker handles, and the results
abbrev pub total : Connection → ℕ
total c = length c.jobs + busy c.workers + length c.handed

-- the JSON of a result never fails
abbrev pub Encodes : Wire → Type 0
Encodes wire = (r : ResultPayload) → is_some (wire.encode_result r) ≡ true

made :
    (wire : Wire) (o : WsOptions) (id : Text) (r : ResultPayload) (stamp : Stamp)
    → Encodes wire
    → (env : Envelope) × (make_envelope result o.device_id id (wire.encode_result r) stamp
        ≡ some env)
unfolding make_envelope
made wire o id r stamp encodes = elim (Option-cases (wire.encode_result r)) [
  | inl e ↦ absurd (ground (arith, e, encodes r))
  | inr (raw, e) ↦ rw e (_, refl)
]

push-total :
    (wire : Wire) (o : WsOptions) (enqueued : Bool) (out : Option Envelope) (c : Connection)
    (jobs : List CommandPayload)
    → total (after_move wire o enqueued (jobs, to_move push out) c)
      ≡ length jobs + busy c.workers + length c.handed
unfolding after_move to_move
push-total wire o enqueued none c jobs = refl
push-total wire o enqueued (some env) c jobs = refl

reject-total :
    (wire : Wire) (o : WsOptions) (enqueued : Bool) (now : ℕ) (stamp : Stamp) (cmd : CommandPayload)
    (code : ErrorCode) (text : Text) (c : Connection)
    → Encodes wire
    → total (
        after_move wire o enqueued
          (c.jobs, to_move hand (rejected_envelope wire o now stamp cmd code text))
          c)
      ≡ suc (total c)
unfolding after_move to_move rejected_envelope
reject-total wire o enqueued now stamp cmd code text c encodes =
    let (env, e) =
      made wire o cmd.command_id (rejected_result now cmd.command_id cmd.action code text) stamp
        encodes in
    rw (after_move, to_move, rejected_envelope, e)
      (omega (arith, length-append c.handed (env ∷ [])))

read-total :
    (wire : Wire) (o : WsOptions) (env : Envelope) (now : ℕ) (stamp : Stamp) (enqueued : Bool)
    (c : Connection)
    → Encodes wire
    → is_command env.type ≡ true
    → total (after_move wire o enqueued (handle_command_envelope wire o now stamp env c.jobs) c)
      ≡ total c + owed wire env
unfolding handle_command_envelope owed
read-total wire o env now stamp enqueued c encodes type =
    elim (Bool-cases (text_eq env.version envelope_version)) [
      | inr e ↦
          rw (handle_command_envelope, owed, type, e)
            (said (
              error_envelope wire o stamp env.correlation_id invalid_version
                (codes "unsupported envelope version")))
      | inl e ↦ elim (Option-cases (wire.decode_command env.payload)) [
        | inl f ↦
            rw (handle_command_envelope, owed, type, e, f)
              (said (
                error_envelope wire o stamp env.correlation_id invalid_payload
                  (codes "invalid command payload")))
        | inr (cmd, f) ↦ elim (Bool-cases (text_eq env.device_id o.device_id)) [
          | inr g ↦
              rw (handle_command_envelope, owed, type, e, f, g)
                (reject-total wire o enqueued now stamp cmd device_mismatch
                    (codes "command device_id does not match this device") c encodes
                  ∙ omega arith)
          | inl g ↦ elim (Bool-cases (ltb (length c.jobs) o.command_queue_size)) [
            | inr q ↦
                rw (handle_command_envelope, owed, type, e, f, g, q)
                  (reject-total wire o enqueued now stamp cmd queue_full
                      (codes "command queue is full") c encodes
                    ∙ omega arith)
            | inl q ↦
                rw (handle_command_envelope, owed, type, e, f, g, q)
                  (push-total wire o enqueued (ack_envelope wire o stamp cmd) c (c.jobs ++ cmd ∷ [])
                    ∙ omega (arith, length-append c.jobs (cmd ∷ [])))
          ]
        ]
      ]
    ]
  where
    said :
        (out : Option Envelope)
        → total (after_move wire o enqueued (c.jobs, to_move push out) c) ≡ total c + 0
    said out = push-total wire o enqueued out c c.jobs ∙ omega arith

ignored-owes : (wire : Wire) (env : Envelope) → is_command env.type ≡ false → owed wire env ≡ 0
unfolding owed
ignored-owes wire env type = rw (owed, type) refl

module _ (wire : Wire) (o : WsOptions) (describe : Rejection → Text)
    (runner : Request → ResultPayload) (h : Handler) where
  finish-total :
      (cmd : CommandPayload) (front back : List (Option CommandPayload)) (stamp : Stamp) (w : World)
      (answer : ResultPayload) (c : Connection)
      → Encodes wire
      → c.workers ≡ front ++ some cmd ∷ back
      → total (finish wire o stamp (w, answer) (record c { workers = front ++ none ∷ back }))
        ≡ total c
  unfolding finish
  finish-total cmd front back stamp w answer c encodes e =
      let (env, f) = made wire o answer.command_id answer stamp encodes in
      let same : busy c.workers ≡ busy (front ++ some cmd ∷ back) = rw e refl in
      rw (finish, f)
        (omega (arith, same, busy-some cmd front back, length-append c.handed (env ∷ [])))

  Step-total :
      {k : ℕ} {c d : Connection}
      → Encodes wire
      → Step wire o describe runner h c k d
      → total d ≡ total c + k
  unfolding finish_late
  Step-total encodes (greet env e a) = omega arith
  Step-total {c} encodes (read env now stamp enqueued e p type) =
      read-total wire o env now stamp enqueued c encodes type
  Step-total encodes (ignore env e p type) = omega (arith, ignored-owes wire env type)
  Step-total encodes (hang_up e p) = omega arith
  Step-total encodes (send env e room) = omega arith
  Step-total {c} encodes (take cmd rest front back e f) =
      let same : busy c.workers ≡ busy (front ++ none ∷ back) = rw f refl in
      let line : length c.jobs ≡ suc (length rest) = rw e refl in
      omega (arith, same, line, busy-some cmd front back)
  Step-total {c} encodes (complete cmd front back clock stamp e) =
      let out = handle describe runner h cmd clock c.world in
      finish-total cmd front back stamp out.0 out.1 c encodes e ∙ omega arith
  Step-total encodes (linger cmd front back clock e) = omega arith
  Step-total encodes (beat stamp u p m env g e room) = omega arith
  Step-total encodes (offer env g room) = omega arith
  Step-total encodes (write env rest e) = omega arith

  -- Where the JSON of a result never fails, the readable commands that a connection has received are
  -- exactly as many as those in its queue, those in the hands of one of its workers and the results
  -- that it has given to the dispatcher together.
  pub Reach-total :
      {hello : Envelope} {client : WsClient} {w : World} {n : ℕ} {c : Connection}
      → Encodes wire
      → Reach wire o describe runner h hello client w n c
      → n ≡ total c
  Reach-total encodes start = sym (busy-idle_workers o.max_parallel_jobs) ∙ omega arith
  Reach-total {c} encodes (later {n} {k} {c = b} r s) =
      omega (arith, Step-total encodes s, Reach-total encodes r)
