-- ===== src/Audit.antt =====
-- internal/audit/audit.go: the audit events and the writer of the audit file.
pub mod Redact
use mgate_agent.Base.{
  ℕ, Bool, true, false, Option, none, some, List, [], ◌∷◌, ◌++◌, ◌==◌, if◌then◌else◌,
}
use mgate_agent.Base.Int.{ℤ, pos}
use mgate_agent.Base.Text.{Text, text_eq}
use mgate_agent.Protocol.{CommandState, ErrorCode, no_error}
use mgate_agent.Protocol.Json.{Fields}
use Redact.{redact_fields}

pub data EventKind : Type 0 where
  command_received command_rejected command_started command_finished : EventKind
  record_saved send_started send_succeeded send_failed : EventKind
  record_deleted record_dropped record_corrupted : EventKind

pub data Channel : Type 0 where
  no_channel websocket pull : Channel

pub record Event : Type 0 where
  pub time : ℕ
  pub kind : EventKind
  pub record_id : Text
  pub command_id : Text
  pub action : Text
  pub args : Option Fields
  pub state : Option CommandState
  pub exit_code : ℤ
  pub duration_ms : ℕ
  pub error_code : ErrorCode
  pub attempts : ℕ
  pub transport : Channel

-- the zero value of an event of a kind
abbrev pub blank : EventKind → Event
blank kind = record {
  time = 0;
  kind = kind;
  record_id = [];
  command_id = [];
  action = [];
  args = none;
  state = none;
  exit_code = pos 0;
  duration_ms = 0;
  error_code = no_error;
  attempts = 0;
  transport = no_channel;
}

-- `writable` says whether the operating system lets the file be opened and appended to;
-- `lines` is the file.
pub record Writer : Type 0 where
  pub path : Text
  pub writable : Bool
  pub lines : List Event

unfoldable pub redact_args : Option Fields → Option Fields
redact_args none = none
redact_args (some args) = some (redact_fields args)

-- what (*Writer).Write appends for an event
unfoldable pub audited : ℕ → Event → Event
unfolding redact_args
audited now e = record e { time = if e.time == 0 then now else e.time; args = redact_args e.args }

-- (*Writer).Write; its error is dropped by every caller
unfoldable pub write : ℕ → Event → Writer → Writer
write now e w =
    if text_eq w.path []
    then w
    else if w.writable
    then record w { lines = w.lines ++ audited now e ∷ [] }
    else w

-- writeAudit of the components: a nil writer drops the event
unfoldable pub write_audit : ℕ → Event → Option Writer → Option Writer
unfolding write
write_audit now e none = none
write_audit now e (some w) = some (write now e w)
