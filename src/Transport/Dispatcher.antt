-- ===== src/Transport/Dispatcher.antt =====
-- internal/transport/result_dispatcher.go: the results on their way from the outbox to a sender.
--
-- internal/app/app.go gives the dispatcher and the outbox one audit writer, so the dispatcher logs
-- through the store. A `Moment` is what the clock, the context, the operating system, the random
-- source and the other goroutines do in one pass of the loop: DispatchOnce holds no lock while a
-- sender has a record, so that results may be saved and senders set or taken away meanwhile.
pub mod Kept
pub mod Drained
pub mod Named
pub mod Rounds
use mgate_agent.Base.{
  ℕ, suc, Bool, true, false, Option, none, some, List, [], ◌∷◌, if◌then◌else◌, Result, ok, err,
}
use mgate_agent.Base.Text.{Text}
use mgate_agent.Protocol.{Envelope, ErrorCode, no_error, send_failed}
use mgate_agent.Audit.{
  Event, EventKind, Channel, blank, websocket, pull, send_started, send_succeeded,
}
use mgate_agent.Audit
use mgate_agent.Outbox.{Record, Codec}
use mgate_agent.Outbox.Store.{Os, Store, StoreError, log, pending_count}
use mgate_agent.Outbox.Store.Operations.{due, mark_failure, delete, save}

-- a ResultSender at a time: no error, or the text of one
abbrev pub Sender : Type 0
Sender = ℕ → Record → Option Text

pub record ResultDispatcher : Type 0 where
  pub store : Store
  pub ws_sender : Option Sender
  pub pull_sender : Option Sender
  pub sending : Bool

-- one pass of the loop; `others` is what other goroutines do to the dispatcher and its outbox
-- while the sender has the record
pub record Moment : Type 0 where
  pub now : ℕ
  pub cancelled : Bool
  pub os : Os
  pub draw : Option ℕ
  pub others : ResultDispatcher → ResultDispatcher

-- NewResultDispatcher
unfoldable pub new_result_dispatcher : Option Store → Option ResultDispatcher
new_result_dispatcher none = none
new_result_dispatcher (some store) =
    some (record { store = store; ws_sender = none; pull_sender = none; sending = false })

unfoldable pub set_web_socket_sender : Option Sender → ResultDispatcher → ResultDispatcher
set_web_socket_sender sender d = record d { ws_sender = sender }

unfoldable pub set_pull_sender : Option Sender → ResultDispatcher → ResultDispatcher
set_pull_sender sender d = record d { pull_sender = sender }

-- (*ResultDispatcher).sender
unfoldable pub sender_of : ResultDispatcher → Option (Sender × Channel)
sender_of d = elim d.ws_sender [
  | some send ↦ some (send, websocket)
  | none ↦ elim d.pull_sender [ some send ↦ some (send, pull) | none ↦ none ]
]

-- the event of a record that is sent
abbrev pub sent : EventKind → ErrorCode → Channel → Record → Event
sent kind code via r = record (blank kind) {
  record_id = r.record_id;
  command_id = r.command_id;
  attempts = r.attempts;
  transport = via;
  error_code = code;
}

-- the event of a send that failed, when the outbox has marked it
unfoldable pub log_failure :
    Moment → Channel → Store × Result StoreError Record → Store × Result StoreError (Unit {0})
unfolding log
log_failure m via (t, err e) = (t, err e)
log_failure m via (t, ok updated) =
    (log m.now (sent Audit.send_failed send_failed via updated) t, ok tt)

module _ (codec : Codec) where
  -- what DispatchOnce does with a record after the sender's answer
  unfoldable pub settle :
      Moment → Channel → Record → Option Text → Store → Store × Result StoreError (Unit {0})
  unfolding mark_failure delete log log_failure
  settle m via r none s =
      delete codec m.now m.os r.record_id (log m.now (sent send_succeeded no_error via r) s)
  settle m via r (some error) s =
      log_failure m via (mark_failure codec m.now m.os r.record_id (some error) m.draw s)

  -- the loop of DispatchOnce over the records that are due, with the moments of its passes
  unfoldable pub dispatch_records :
      (ℕ → Moment)
      → ℕ
      → List Record
      → ResultDispatcher
      → ResultDispatcher × Result StoreError (Unit {0})
  unfolding sender_of settle log
  dispatch_records at pass [] d = (d, ok tt)
  dispatch_records at pass (r ∷ rs) d = elim (at pass).cancelled [
    | true ↦ (d, ok tt)
    | false ↦ elim (sender_of d) [
      | none ↦ (d, ok tt)
      | some (send, via) ↦
          let m = at pass in
          let e =
            m.others (record d { store = log m.now (sent send_started no_error via r) d.store }) in
          let (t, settled) = settle m via r (send m.now r) e.store in
          elim settled [
            | err x ↦ (record e { store = t }, err x)
            | ok _ ↦ dispatch_records at (suc pass) rs (record e { store = t })
          ]
    ]
  ]

  -- (*ResultDispatcher).DispatchOnce; a round that runs already makes it return at once
  unfoldable pub dispatch_once :
      ℕ → Os → (ℕ → Moment) → ResultDispatcher → ResultDispatcher × Result StoreError (Unit {0})
  unfolding due dispatch_records
  dispatch_once now os at d = if d.sending then (d, ok tt) else elim (due codec now 16 os d.store) [
    | err e ↦ (d, err e)
    | ok rs ↦
        let (e, answer) = dispatch_records at 0 rs (record d { sending = true }) in
        (record e { sending = false }, answer)
  ]

  -- (*ResultDispatcher).Enqueue, with the rounds for the limits of the outbox
  unfoldable pub enqueue :
      ℕ
      → ℕ
      → Os
      → (ℕ → Moment)
      → Envelope
      → ResultDispatcher
      → Option (ResultDispatcher × Result StoreError (Unit {0}))
  unfolding save dispatch_once
  enqueue rounds now os at env d = elim (save codec rounds now os env d.store) [
    | none ↦ none
    | some (t, err e) ↦ some (record d { store = t }, err e)
    | some (t, ok _) ↦ some (dispatch_once now os at (record d { store = t }))
  ]

  -- (*ResultDispatcher).PendingCount
  unfoldable pub pending : Os → ResultDispatcher → ℕ
  unfolding pending_count
  pending os d = pending_count codec os d.store
