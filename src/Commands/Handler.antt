-- ===== src/Commands/Handler.antt =====
-- internal/commands/handler.go: the one entry to the execution of commands.
pub mod Timeout
pub mod Gates
pub mod Once
pub mod Safety
pub mod Trail
use mgate_agent.Base.{
  ℕ, suc, ◌+◌, ◌-◌, ◌*◌, ◌%◌, ◌^◌, Bool, true, false, not, Option, none, some, List, [], ◌∷◌, ◌++◌,
  ltb, leb, if◌then◌else◌, any, is_some, Result, ok, err, ◌>>=◌, ◌>>◌, reject_if,
}
use mgate_agent.Base.Int.{ℤ, pos, negsuc, ltb_ℤ}
use mgate_agent.Base.Text.{Text, text_eq}
use mgate_agent.Base.Maps.{lookup}
use mgate_agent.Protocol.{
  second, CommandPayload, ResultPayload, CommandState, ErrorCode, rejected, running, no_error,
  invalid_command_id, duplicate_command, action_not_allowed, invalid_args, timeout_exceeded,
}
use mgate_agent.Protocol
use mgate_agent.Protocol.Json.{Fields, end, field, string}
use mgate_agent.Audit.{Event, EventKind, blank, Writer, write_audit}
use mgate_agent.Actions.{Spec, ValidatedArgs, Pattern, class_run, redacted_args}
use mgate_agent.Actions.Registry.{Registry, get, AllowError, validate_allowed_actions}
use mgate_agent.Actions.Validators.{ArgError, match_string, validate_args}
use mgate_agent.Commands.Dedupe.{
  DedupeStore, reserve, new_dedupe_store, default_ttl, default_max_entries,
}
use mgate_agent.Runner.{Request}

pub record Handler : Type 0 where
  pub registry : Registry
  pub allow_actions : List Text
  pub mgate_path : Text
  pub work_dir : Text
  pub max_output_bytes : ℕ

-- what a handler changes: the dedupe store, the audit file, and the requests that the runner got
pub record World : Type 0 where
  pub dedupe : Option DedupeStore
  pub audit : Option Writer
  pub executed : List Request

pub data TimeoutError : Type 0 where
  not_positive too_long : TimeoutError

-- why a command is rejected
pub data Rejection : Type 0 where
  bad_command_id duplicate : Rejection
  no_such_action not_allowed : Text → Rejection
  bad_args : ArgError → Rejection
  bad_timeout : TimeoutError → Rejection

pub data SetupError : Type 0 where
  no_registry no_allow_actions : SetupError
  bad_allow_actions : AllowError → SetupError

-- NewHandler: the handler, and the dedupe store that it starts with
unfoldable pub new_handler :
    Option Registry
    → List Text
    → Option DedupeStore
    → Text
    → Text
    → ℕ
    → Result SetupError (Handler × DedupeStore)
new_handler none allow dedupe mgate_path work_dir max_output_bytes = err no_registry
new_handler (some r) [] dedupe mgate_path work_dir max_output_bytes = err no_allow_actions
new_handler (some r) (a ∷ allow) dedupe mgate_path work_dir max_output_bytes =
    elim (validate_allowed_actions (a ∷ allow) r) [
      | err e ↦ err (bad_allow_actions e)
      | ok _ ↦ ok (
        record {
          registry = r;
          allow_actions = a ∷ allow;
          mgate_path = mgate_path;
          work_dir = work_dir;
          max_output_bytes = max_output_bytes;
        },
        elim dedupe [ none ↦ new_dedupe_store default_ttl default_max_entries | some d ↦ d ],
      )
    ]

-- ^[A-Za-z0-9._:-]{6,128}$
abbrev pub command_id_pattern : Pattern
command_id_pattern =
    class_run
      ((b'A', b'Z') ∷ (b'a', b'z') ∷ (b'0', b'9') ∷ (46, 46) ∷ (95, 95) ∷ (58, 58) ∷ (45, 45) ∷ [])
      6 128

-- validateCommandID
unfoldable pub is_command_id : Text → Bool
is_command_id id = elim (match_string command_id_pattern id) [ none ↦ false | some b ↦ b ]

-- the int64 that a product of ℕ wraps to
unfoldable pub to_int64 : ℕ → ℤ
to_int64 n = let w = n % 2 ^ 64 in if ltb w (2 ^ 63) then pos w else negsuc (2 ^ 64 - w - 1)

-- resolveTimeout; time.Duration(*timeoutSec) * time.Second is an int64 product
unfoldable pub resolve_timeout : Spec → Option ℤ → Result TimeoutError ℤ
unfolding to_int64
resolve_timeout spec none = ok (pos spec.timeout)
resolve_timeout spec (some (negsuc n)) = err not_positive
resolve_timeout spec (some (pos n)) =
    if leb n 0
    then err not_positive
    else if ltb_ℤ (pos spec.timeout) (to_int64 (n * second))
    then err too_long
    else ok (to_int64 (n * second))

-- the error code of a rejection
unfoldable pub code_of : Rejection → ErrorCode
code_of bad_command_id = invalid_command_id
code_of duplicate = duplicate_command
code_of (no_such_action a) = ErrorCode.unknown_action
code_of (not_allowed a) = action_not_allowed
code_of (bad_args e) = invalid_args
code_of (bad_timeout e) = timeout_exceeded

-- the checks of Handle between the reservation and the start of the action
unfoldable pub admit : Handler → CommandPayload → Result Rejection (Spec × ValidatedArgs × ℤ)
unfolding resolve_timeout
admit h cmd = elim (get cmd.action h.registry) [
  | none ↦ err (no_such_action cmd.action)
  | some spec ↦
      if any (text_eq cmd.action) h.allow_actions
      then elim (validate_args spec cmd.args) [
        | err e ↦ err (bad_args e)
        | ok args ↦ elim (resolve_timeout spec cmd.timeout_sec) [
          | err e ↦ err (bad_timeout e)
          | ok limit ↦ ok (spec, args, limit)
        ]
      ]
      else err (not_allowed cmd.action)
]

-- validated arguments as map[string]any
unfoldable pub to_fields : ValidatedArgs → Fields
to_fields [] = end
to_fields ((k, v) ∷ args) = field k (string v) (to_fields args)

unfoldable pub request_of : Handler → CommandPayload → Spec → ValidatedArgs → ℤ → Request
request_of h cmd spec args limit = record {
  command_id = cmd.command_id;
  spec = spec;
  args = args;
  mgate_path = h.mgate_path;
  work_dir = h.work_dir;
  timeout = limit;
  max_output_bytes = h.max_output_bytes;
}

-- The texts of the errors and the runner are parameters. `clock i` is the i-th reading of the
-- clock while a command is handled: 0 and 2 to 5 date audit events and results, 1 is Reserve's.
module _ (describe : Rejection → Text) (runner : Request → ResultPayload) where
  -- (*Handler).writeAudit
  abbrev log : ℕ → Event → World → World
  log now e w = record w { audit = write_audit now e w.audit }

  -- reject
  unfoldable pub reject : CommandPayload → Rejection → (ℕ → ℕ) → World → World × ResultPayload
  unfolding code_of
  reject cmd why clock w = (
    log (clock 3)
        (record (blank EventKind.command_rejected) {
          command_id = cmd.command_id;
          action = cmd.action;
          args = cmd.args;
          state = some rejected;
          exit_code = negsuc 0;
          error_code = code_of why;
        })
        w,
    record {
      command_id = cmd.command_id;
      action = cmd.action;
      state = rejected;
      exit_code = negsuc 0;
      stdout = [];
      stderr = describe why;
      output_truncated = false;
      started_at = clock 2;
      ended_at = clock 2;
      duration_ms = 0;
      error_code = code_of why;
    },
  )

  -- the end of Handle, for an admitted command
  unfoldable pub execute :
      Handler → CommandPayload → Spec → ValidatedArgs → ℤ → (ℕ → ℕ) → World → World × ResultPayload
  unfolding to_fields request_of
  execute h cmd spec args limit clock w =
      let started =
        log (clock 4)
          (record (blank EventKind.command_started) {
            command_id = cmd.command_id;
            action = cmd.action;
            args = some (to_fields (redacted_args spec args));
            state = some running;
          })
          w in
      let req = request_of h cmd spec args limit in
      let result = runner req in
      (
        log (clock 5)
            (record (blank EventKind.command_finished) {
              command_id = result.command_id;
              action = result.action;
              state = some result.state;
              exit_code = result.exit_code;
              duration_ms = result.duration_ms;
              error_code = result.error_code;
            })
            (record started { executed = started.executed ++ req ∷ [] }),
        result,
      )

  -- the part of Handle after the reservation
  unfoldable pub dispatch : Handler → CommandPayload → (ℕ → ℕ) → World → World × ResultPayload
  unfolding admit reject execute
  dispatch h cmd clock w = elim (admit h cmd) [
    | err why ↦ reject cmd why clock w
    | ok (spec, args, limit) ↦ execute h cmd spec args limit clock w
  ]

  -- the audit event with which Handle begins
  unfoldable pub receive : CommandPayload → (ℕ → ℕ) → World → World
  receive cmd clock w =
      log (clock 0)
        (record (blank EventKind.command_received) {
          command_id = cmd.command_id;
          action = cmd.action;
          args = cmd.args;
        })
        w

  -- Handle
  unfoldable pub handle : Handler → CommandPayload → (ℕ → ℕ) → World → World × ResultPayload
  unfolding receive is_command_id dispatch
  handle h cmd clock w =
      let received = receive cmd clock w in
      if not (is_command_id cmd.command_id)
      then reject cmd bad_command_id clock received
      else let (store, fresh) = reserve (clock 1) cmd.command_id received.dedupe in
        let reserved = record received { dedupe = store } in
        if not fresh then reject cmd duplicate clock reserved else dispatch h cmd clock reserved
