-- ===== src/Transport/Websocket/Bounds.antt =====
-- internal/transport/ws_client.go: the sizes of a connection's queues, and who works.
use mgate_agent.Base.{
  ℕ, zero, suc, ◌+◌, ◌≤◌, ◌<◌, ◌≡◌, refl, inl, inr, Bool, Option, none, some, List, [], ◌∷◌, ◌++◌,
  length, length-append, Bool-cases, Option-cases, arith, ltb,
}
use mgate_agent.Base.Text.{Text, text_eq}
use mgate_agent.Protocol.{CommandPayload, ResultPayload, Envelope}
use mgate_agent.Commands.Handler.{Handler, World, Rejection, handle}
use mgate_agent.Runner.{Request}
use mgate_agent.Transport.Message.{Stamp, envelope_version}
use mgate_agent.Transport.Websocket.{
  WsOptions, Wire, WsClient, Connection, Move, push, hand, fault, handle_command_envelope,
  after_move, finish, finish_late, idle_workers,
}
use mgate_agent.Transport.Websocket.Session.{
  Step, greet, read, ignore, hang_up, send, take, complete, linger, beat, offer, write, Reach,
  start, later,
}

-- how many workers handle a command
unfoldable pub busy : List (Option CommandPayload) → ℕ
busy [] = 0
busy (none ∷ ws) = busy ws
busy (some _ ∷ ws) = suc (busy ws)

pub busy-some :
    (cmd : CommandPayload) (front back : List (Option CommandPayload))
    → busy (front ++ some cmd ∷ back) ≡ suc (busy (front ++ none ∷ back))
unfolding busy
busy-some cmd [] back = refl
busy-some cmd (none ∷ front) back = busy-some cmd front back
busy-some cmd (some x ∷ front) back = omega (arith, busy-some cmd front back)

busy_le : (ws : List (Option CommandPayload)) → busy ws ≤ length ws
unfolding busy
busy_le [] = omega arith
busy_le (none ∷ ws) = omega (arith, busy_le ws)
busy_le (some x ∷ ws) = omega (arith, busy_le ws)

length_same :
    (x y : Option CommandPayload) (front back : List (Option CommandPayload))
    → length (front ++ x ∷ back) ≡ length (front ++ y ∷ back)
length_same x y [] back = refl
length_same x y (w ∷ front) back = omega (arith, length_same x y front back)

pub busy-idle_workers : (n : ℕ) → busy (idle_workers n) ≡ 0
unfolding busy idle_workers
busy-idle_workers zero = refl
busy-idle_workers (suc n) = busy-idle_workers n

length-idle_workers : (n : ℕ) → length (idle_workers n) ≡ n
unfolding idle_workers
length-idle_workers zero = refl
length-idle_workers (suc n) = omega (arith, length-idle_workers n)

-- the queues, the workers and the count of the active jobs
pub record AreBounded (o : WsOptions) (jobs : List CommandPayload) (outbound : List Envelope)
    (workers : List (Option CommandPayload)) (lingering : List CommandPayload) (active_jobs : ℕ)
    : Type 0 where
  pub queued : length jobs ≤ o.command_queue_size
  pub waiting : length outbound ≤ o.outbound_size
  pub staffed : length workers ≡ o.max_parallel_jobs
  pub active : active_jobs ≡ busy workers + length lingering
  pub parallel : busy workers ≤ o.max_parallel_jobs

abbrev pub IsBounded : WsOptions → Connection → Type 0
IsBounded o c = AreBounded o c.jobs c.outbound c.workers c.lingering c.active_jobs

-- one message more in `outbound`
queue_message :
    (o : WsOptions) (env : Envelope) (c : Connection)
    → length c.outbound < o.outbound_size
    → IsBounded o c
    → AreBounded o c.jobs (c.outbound ++ env ∷ []) c.workers c.lingering c.active_jobs
queue_message o env c room b = record {
  queued = b.queued;
  waiting = omega (arith, room, length-append c.outbound (env ∷ []));
  staffed = b.staffed;
  active = b.active;
  parallel = b.parallel;
}

requeue :
    (o : WsOptions) (jobs : List CommandPayload) (c : Connection)
    → length jobs ≤ o.command_queue_size
    → IsBounded o c
    → AreBounded o jobs c.outbound c.workers c.lingering c.active_jobs
requeue o jobs c few b = record {
  queued = few;
  waiting = b.waiting;
  staffed = b.staffed;
  active = b.active;
  parallel = b.parallel;
}

after_move-IsBounded :
    (wire : Wire) (o : WsOptions) (enqueued : Bool) (jobs : List CommandPayload) (m : Move)
    (c : Connection)
    → length jobs ≤ o.command_queue_size
    → IsBounded o c
    → IsBounded o (after_move wire o enqueued (jobs, m) c)
unfolding after_move
after_move-IsBounded wire o enqueued jobs (push env) c few b = requeue o jobs c few b
after_move-IsBounded wire o enqueued jobs (hand env) c few b = requeue o jobs c few b
after_move-IsBounded wire o enqueued jobs fault c few b = requeue o jobs c few b

handle_command_envelope_few :
    (wire : Wire) (o : WsOptions) (now : ℕ) (stamp : Stamp) (env : Envelope)
    (jobs : List CommandPayload)
    → length jobs ≤ o.command_queue_size
    → length (handle_command_envelope wire o now stamp env jobs).0 ≤ o.command_queue_size
unfolding handle_command_envelope
handle_command_envelope_few wire o now stamp env jobs few =
    elim (Bool-cases (text_eq env.version envelope_version)) [
      | inr e ↦ rw (handle_command_envelope, e) few
      | inl e ↦ elim (Option-cases (wire.decode_command env.payload)) [
        | inl f ↦ rw (handle_command_envelope, e, f) few
        | inr (cmd, f) ↦ elim (Bool-cases (text_eq env.device_id o.device_id)) [
          | inr g ↦ rw (handle_command_envelope, e, f, g) few
          | inl g ↦ elim (Bool-cases (ltb (length jobs) o.command_queue_size)) [
            | inr q ↦ rw (handle_command_envelope, e, f, g, q) few
            | inl q ↦
                rw (handle_command_envelope, e, f, g, q)
                  (ground (arith, q, length-append jobs (cmd ∷ [])))
          ]
        ]
      ]
    ]

module _ (wire : Wire) (o : WsOptions) (describe : Rejection → Text)
    (runner : Request → ResultPayload) (h : Handler) where
  finish-IsBounded :
      (cmd : CommandPayload) (front back : List (Option CommandPayload)) (stamp : Stamp) (w : World)
      (answer : ResultPayload) (c : Connection)
      → c.workers ≡ front ++ some cmd ∷ back
      → IsBounded o c
      → IsBounded o (finish wire o stamp (w, answer) (record c { workers = front ++ none ∷ back }))
  unfolding finish
  finish-IsBounded cmd front back stamp w answer c e b =
      let counted = busy-some cmd front back in
      let same : busy c.workers ≡ busy (front ++ some cmd ∷ back) = rw e refl in
      let staff : length c.workers ≡ length (front ++ some cmd ∷ back) = rw e refl in
      record {
        queued = b.queued;
        waiting = b.waiting;
        staffed = omega (arith, staff, b.staffed, length_same none (some cmd) front back);
        active = omega (arith, counted, same, b.active);
        parallel = omega (arith, counted, same, b.parallel);
      }

  finish_late-IsBounded :
      (cmd : CommandPayload) (front back : List CommandPayload) (w : World) (answer : ResultPayload)
      (c : Connection)
      → c.lingering ≡ front ++ cmd ∷ back
      → IsBounded o c
      → IsBounded o (finish_late (w, answer) (record c { lingering = front ++ back }))
  unfolding finish_late
  finish_late-IsBounded cmd front back w answer c e b =
      let late : length c.lingering ≡ length (front ++ cmd ∷ back) = rw e refl in
      record {
        queued = b.queued;
        waiting = b.waiting;
        staffed = b.staffed;
        active =
            omega
              (arith, late, b.active, length-append front (cmd ∷ back), length-append front back);
        parallel = b.parallel;
      }

  pub Step-IsBounded :
      {k : ℕ} {c d : Connection}
      → Step wire o describe runner h c k d
      → IsBounded o c
      → IsBounded o d
  Step-IsBounded (greet env e a) b = b
  Step-IsBounded {c} (read env now stamp enqueued e p t) b =
      let moved = handle_command_envelope wire o now stamp env c.jobs in
      after_move-IsBounded wire o enqueued moved.0 moved.1 c
        (handle_command_envelope_few wire o now stamp env c.jobs b.queued) b
  Step-IsBounded (ignore env e p t) b = b
  Step-IsBounded (hang_up e p) b = b
  Step-IsBounded {c} (send env e room) b = queue_message o env c room b
  Step-IsBounded {c} (take cmd rest front back e f) b =
      let same : busy c.workers ≡ busy (front ++ none ∷ back) = rw f refl in
      let staff : length c.workers ≡ length (front ++ none ∷ back) = rw f refl in
      let line : length c.jobs ≡ suc (length rest) = rw e refl in
      let counted = busy-some cmd front back in
      let workers = front ++ some cmd ∷ back in
      let counts : suc c.active_jobs ≡ busy workers + length c.lingering =
        omega (arith, counted, same, b.active) in
      let sized : length workers ≡ o.max_parallel_jobs =
        omega (arith, staff, b.staffed, length_same none (some cmd) front back) in
      record {
        queued = omega (arith, line, b.queued);
        waiting = b.waiting;
        staffed = sized;
        active = counts;
        parallel = omega (arith, sized, busy_le workers);
      }
  Step-IsBounded {c} (complete cmd front back clock stamp e) b =
      let out = handle describe runner h cmd clock c.world in
      finish-IsBounded cmd front back stamp out.0 out.1 c e b
  Step-IsBounded {c} (linger cmd front back clock e) b =
      let out = handle describe runner h cmd clock c.world in
      finish_late-IsBounded cmd front back out.0 out.1 c e b
  Step-IsBounded {c} (beat stamp u p m env g e room) b = queue_message o env c room b
  Step-IsBounded {c} (offer env g room) b = queue_message o env c room b
  Step-IsBounded {c} (write env rest e) b =
      let line : length c.outbound ≡ suc (length rest) = rw e refl in
      record {
        queued = b.queued;
        waiting = omega (arith, line, b.waiting);
        staffed = b.staffed;
        active = b.active;
        parallel = b.parallel;
      }

  -- In every state of a connection the command queue and the outbound queue hold no more than their
  -- sizes, there are as many workers as jobs may run in parallel, and the count of the active jobs,
  -- which the heartbeats report, is that of the workers that handle a command, its own and those
  -- that earlier connections have left at work.
  pub Reach-IsBounded :
      {hello : Envelope} {client : WsClient} {w : World} {n : ℕ} {c : Connection}
      → 0 < o.outbound_size
      → Reach wire o describe runner h hello client w n c
      → IsBounded o c
  Reach-IsBounded room start = record {
    queued = omega arith;
    waiting = omega (arith, room);
    staffed = length-idle_workers o.max_parallel_jobs;
    active = omega (arith, busy-idle_workers o.max_parallel_jobs);
    parallel = omega (arith, busy-idle_workers o.max_parallel_jobs);
  }
  Reach-IsBounded room (later r s) = Step-IsBounded s (Reach-IsBounded room r)
