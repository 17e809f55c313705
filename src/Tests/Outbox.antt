-- ===== src/Tests/Outbox.antt =====
-- The outbox and the dispatcher on a folder with two records.
use mgate_agent.Base.{
  ℕ, List, All, zero, suc, ◌+◌, ◌*◌, ◌≡◌, refl, sym, ap, subst, is_some, true, false, Option, none,
  some, [], ◌∷◌, arith, ok, inl, inr, ◌⊎◌, take, filter, Bool-cases,
}
use mgate_agent.Base.Text.{Text, codes, text_eq, text_eq→eq, has_suffix}
use mgate_agent.Base.Maps.{lookup, insert, remove}
use mgate_agent.Protocol.{Envelope, result, second}
use mgate_agent.Audit.{Channel, websocket, pull}
use mgate_agent.Outbox.{Record, Codec, sanitize_record_id}
use mgate_agent.Outbox.RecordId.{IsFileName, sanitize_record_id-IsFileName}
use mgate_agent.Outbox.Store.{
  file, Os, Store, path, held_record, write_record_atomic, writing, put, rename, is_valid,
}
use mgate_agent.Outbox.Store.Operations.{
  is_due, collect_due, failed, enforce_limits, mark_failure, load, load,
}
use mgate_agent.Outbox.Store.Atomic.{Written, Untouched, write_record_atomic_all_or_nothing}
use mgate_agent.Outbox.Store.Queue.{collect_due-eq-take}
use mgate_agent.Outbox.Store.Limits.{IsNamed, Enforced, enforce_limits-Enforced}
use mgate_agent.Outbox.Store.Startup.{load-reads}
use mgate_agent.Outbox.Store.Failure.{failed_window, mark_failure_keeps}
use mgate_agent.Transport.Dispatcher.{
  ResultDispatcher, Sender, Moment, dispatch_once, sender_of, set_web_socket_sender,
}
use mgate_agent.Transport.Dispatcher.Drained.{IsLost, IsHarmless, dispatch_once-IsLost}
use mgate_agent.Outbox.Store.Operations.{due}
use mgate_agent.Transport.Dispatcher.Kept.{IsKept, ReadsBack}
use mgate_agent.Transport.Dispatcher.Rounds.{dispatch_once-keeps}
use mgate_agent.Outbox.Store.Named.{KeepsId}

abbrev pub envelope : Envelope
envelope = record {
  version = codes "1.0";
  type = result;
  message_id = codes "m1";
  correlation_id = codes "cmd-0001";
  device_id = codes "pi";
  timestamp = 1;
  payload = codes "{}";
}

-- the record of an id
abbrev pub named : Text → Record
named id = record {
  record_id = id;
  command_id = codes "cmd-0001";
  created_at = 7;
  updated_at = 7;
  attempts = 0;
  last_error = [];
  next_retry_at = 7;
  envelope = envelope;
}

-- a file holds the id of its record
abbrev pub by_id : Codec
by_id = record {
  parse_map = λ data'. none;
  print_map = λ fs. none;
  parse_command_id = λ data'. none;
  encode = λ r. some r.record_id;
  decode = λ data'. some (named data');
}

abbrev pub healthy : Os
healthy = record {
  makeable = true;
  listable = true;
  readable = λ name. true;
  fault = none;
  removable = λ name. true;
  folder_size = 0;
}

abbrev pub outbox : Store
unfolding path
outbox = record {
  max_records = 1;
  max_bytes = 100;
  audit = none;
  files = (path (codes "a"), file (codes "a")) ∷ (path (codes "b"), file (codes "b")) ∷ [];
}

sanitize_record_id-IsFileName_example : IsFileName (sanitize_record_id (codes "../cmd:1"))
sanitize_record_id-IsFileName_example = sanitize_record_id-IsFileName (codes "../cmd:1")

abbrev full_disk : Os
full_disk = record healthy { fault = some (writing 0) }

write_record_atomic_all_or_nothing_example :
    Written by_id
      (named (codes "a"))
      (codes "a.json")
      outbox
      (write_record_atomic by_id full_disk (named (codes "a")) outbox)
    ⊎ Untouched
        (codes "a.json")
        outbox
        (write_record_atomic by_id full_disk (named (codes "a")) outbox)
unfolding path text_eq
write_record_atomic_all_or_nothing_example =
    write_record_atomic_all_or_nothing by_id full_disk (named (codes "a")) outbox (codes "a.json")
      refl

collect_due-eq-take_example :
    collect_due 9 1 0 (named (codes "a") ∷ named (codes "b") ∷ [])
    ≡ take 1 (filter (is_due 9) (named (codes "a") ∷ named (codes "b") ∷ []))
collect_due-eq-take_example = collect_due-eq-take 9 1 (named (codes "a") ∷ named (codes "b") ∷ [])

pub outbox-IsNamed : IsNamed by_id outbox
unfolding held_record lookup path
outbox-IsNamed name r json h = elim (Bool-cases (text_eq (codes "a.json") name)) [
  | inl e ↦ ground (arith, e, h, text_eq→eq (codes "a.json") name e)
  | inr e ↦ elim (Bool-cases (text_eq (codes "b.json") name)) [
    | inl f ↦ ground (arith, e, f, h, text_eq→eq (codes "b.json") name f)
    | inr f ↦ absurd (ground (arith, e, f, h))
  ]
]

enforce_limits-Enforced_example : Enforced by_id healthy (enforce_limits by_id 3 9 healthy outbox)
unfolding outbox
enforce_limits-Enforced_example =
    enforce_limits-Enforced by_id 9 healthy outbox 3 outbox-IsNamed (omega arith)

failed_window_example :
    (is_due 8 (failed 7 none (some 5) (named (codes "a"))) ≡ false)
    × (is_due (7 + 72 * second) (failed 7 none (some 5) (named (codes "a"))) ≡ true)
failed_window_example = failed_window 7 none (some 5) (named (codes "a")) 8 (omega arith)

-- a file holds the number of attempts, and the record has failed at time 9 when there was one
abbrev decode_attempts : Text → Option Record
decode_attempts [] = none
decode_attempts (zero ∷ rest) = some (named (codes "a"))
decode_attempts (suc n ∷ rest) = some (failed 9 none none (named (codes "a")))

abbrev by_attempts : Codec
by_attempts = record by_id { encode = λ r. some (r.attempts ∷ []); decode = decode_attempts }

abbrev decode_some : Option Text → Option Record
decode_some none = none
decode_some (some data') = decode_attempts data'

abbrev fresh_box : Store
fresh_box = record outbox { files = (codes "a.json", file (0 ∷ [])) ∷ [] }

mark_failure_keeps_example :
    let once = failed 9 none none (named (codes "a")) in
    let t = (mark_failure by_attempts 9 healthy (codes "a") none none fresh_box).0 in
    (once ≡ once) × (held_record by_attempts (path (codes "a")) t ≡ ok once)
unfolding held_record lookup path text_eq mark_failure is_valid write_record_atomic rename put
    insert remove failed
mark_failure_keeps_example =
    mark_failure_keeps by_attempts 9 healthy (codes "a") none none fresh_box
      (mark_failure by_attempts 9 healthy (codes "a") none none fresh_box).0 (named (codes "a"))
      (failed 9 none none (named (codes "a"))) (λ data' e. ap decode_some (sym e)) refl refl refl

pub by_id-KeepsId : KeepsId by_id
by_id-KeepsId r q data' e d = cc

-- a sender without a connection, which another goroutine sets while a record is sent
abbrev offline : Sender
offline now r = some (codes "offline")

abbrev waiting : ResultDispatcher
waiting = record { store = outbox; ws_sender = none; pull_sender = some offline; sending = false }

abbrev late_moment : ℕ → Moment
late_moment i = record {
  now = 9 + i;
  cancelled = false;
  os = healthy;
  draw = none;
  others = set_web_socket_sender (some offline);
}

offline-refuses :
    (send : Sender) (via via' : Channel) (now : ℕ) (r : Record)
    → ◌≡◌ {A = Option (Sender × Channel)} (some (offline, via)) (some (send, via'))
    → is_some (send now r) ≡ true
offline-refuses send via via' now r e =
    let same : offline ≡ send = cc in subst (λ f. is_some (f now r) ≡ true) same refl

by_id-ReadsBack : ReadsBack by_id (named (codes "a"))
by_id-ReadsBack r data' (id, command, sealed) e =
    let same : data' ≡ codes "a" = cc in
    (named (codes "a"), ap (λ t. some (named t)) same, (refl, refl, refl))

dispatch_once-keeps_example :
    IsKept by_id
      (codes "a.json")
      (named (codes "a"))
      (dispatch_once by_id 9 healthy late_moment waiting).0
unfolding has_suffix text_eq lookup path held_record is_valid outbox sender_of set_web_socket_sender
dispatch_once-keeps_example =
    dispatch_once-keeps by_id by_id-KeepsId (codes "a.json") (named (codes "a")) by_id-ReadsBack
      refl late_moment
      (λ k e h. (h.0, h.1, λ send via f now r same. offline-refuses send websocket via now r f)) 9
      healthy waiting
      (
        outbox-IsNamed,
        (named (codes "a"), refl, (refl, refl, refl)),
        λ send via f now r same. offline-refuses send pull via now r f,
      )

load-reads_example :
    held_record by_id (codes "a.json") (load by_id 9 healthy outbox).0 ≡ ok (named (codes "a"))
unfolding has_suffix text_eq lookup path held_record is_valid outbox
load-reads_example =
    load-reads by_id 9 healthy outbox (codes "a.json") (named (codes "a")) refl refl refl

abbrev online : Sender
online now r = none

abbrev moment_at : ℕ → Moment
moment_at i = record {
  now = 9 + i;
  cancelled = false;
  os = healthy;
  draw = none;
  others = set_web_socket_sender (some online);
}

abbrev sending : ResultDispatcher
sending = record { store = outbox; ws_sender = some online; pull_sender = none; sending = false }

abbrev both : List Record
both = named (codes "a") ∷ named (codes "b") ∷ []

harmless : (r : Record) → IsHarmless moment_at r
unfolding sender_of set_web_socket_sender
harmless r = record { ready = λ k d h. (online, websocket, refl, λ now. refl); gone = λ k d h. h }

dispatch_once-IsLost_example :
    let out = dispatch_once by_id 9 healthy moment_at sending in
    (out.1 ≡ ok tt) × All (IsLost by_id out.0.store) both
unfolding due sender_of outbox collect_due is_due held_record lookup path has_suffix
    set_web_socket_sender
dispatch_once-IsLost_example =
    dispatch_once-IsLost by_id moment_at (λ k. (refl, λ name. refl)) 9 healthy sending both
      by_id-KeepsId outbox-IsNamed refl refl (λ k e named. named)
      (harmless (named (codes "a")), (harmless (named (codes "b")), tt))
      ((online, websocket, refl, λ now. refl), ((online, websocket, refl, λ now. refl), tt))
