-- ===== src/Runner.antt =====
-- internal/runner/runner.go: one process for one command. What the operating system does with the
-- process is the parameter `exec`; it is given the program, the argument vector and the time limit,
-- and no shell stands between.
pub mod Output
pub mod Laws
use mgate_agent.Base.{
  ℕ, ◌-◌, ◌*◌, ◌/◌, Bool, true, false, Option, none, some, List, [], ◌∷◌, leb, ltb, if◌then◌else◌,
  Result, ok, err,
}
use mgate_agent.Base.Int.{ℤ, pos, negsuc, ltb_ℤ}
use mgate_agent.Base.Text.{Text}
use mgate_agent.Audit.Redact.{redact_text}
use mgate_agent.Actions.{Spec, ValidatedArgs, argv}
use mgate_agent.Protocol.{
  second, ResultPayload, CommandState, running, rejected, timed_out, failed, succeeded, ErrorCode,
  no_error, invalid_action_spec, timeout, process_failed,
}
use Output.{Streams, Stream, new_output_streams, write_all}

-- a time limit of Go's int64 kind may be negative
pub record Request : Type 0 where
  pub command_id : Text
  pub spec : Spec
  pub args : ValidatedArgs
  pub mgate_path : Text
  pub work_dir : Text
  pub timeout : ℤ
  pub max_output_bytes : ℕ

-- what exec.CommandContext is given
pub record Invocation : Type 0 where
  pub path : Text
  pub words : List Text
  pub dir : Text
  pub limit : ℕ

-- how cmd.Run returned: no error, an *exec.ExitError with its code, any other error
pub data Ending : Type 0 where
  clean : Ending
  exit_error : ℤ → Ending
  other_error : Ending

-- what the process wrote to its two streams, in order, how it ended, and whether the deadline of
-- its context had passed then
pub record Process : Type 0 where
  pub writes : List (Stream × Text)
  pub ending : Ending
  pub deadline_exceeded : Bool
  pub ended_at : ℕ

-- the action's time limit, else thirty seconds
unfoldable pub spec_timeout : ℕ → ℕ
spec_timeout t = if leb t 0 then 30 * second else t

-- the time limit: the one asked for if it is positive, else the action's
unfoldable pub effective_timeout : ℤ → ℕ → ℕ
unfolding spec_timeout
effective_timeout (pos d) t = if leb d 0 then spec_timeout t else d
effective_timeout (negsuc _) t = spec_timeout t

-- finish
unfoldable pub finish :
    ResultPayload → CommandState → ℤ → Text → Text → Bool → ErrorCode → ℕ → ResultPayload
finish result state exit_code stdout stderr truncated error_code ended = record result {
  state = state;
  exit_code = exit_code;
  stdout = redact_text stdout;
  stderr = redact_text stderr;
  output_truncated = truncated;
  ended_at = ended;
  duration_ms = (ended - result.started_at) / 1_000_000;
  error_code = error_code;
}

abbrev pub started_result : Request → ℕ → ResultPayload
started_result req started = record {
  command_id = req.command_id;
  action = req.spec.name;
  state = running;
  exit_code = negsuc 0;
  stdout = [];
  stderr = [];
  output_truncated = false;
  started_at = started;
  ended_at = 0;
  duration_ms = 0;
  error_code = no_error;
}

-- the end of Run, from what the process did
unfoldable pub conclude : Request → ℕ → Process → ResultPayload
unfolding finish new_output_streams write_all
conclude req started p =
    let out = write_all p.writes (new_output_streams req.max_output_bytes) in
    let result = started_result req started in
    if p.deadline_exceeded
    then finish result timed_out (negsuc 0) out.stdout out.stderr out.truncated timeout p.ended_at
    else elim p.ending [
      | exit_error code ↦
          finish result failed code out.stdout out.stderr out.truncated process_failed p.ended_at
      | other_error ↦
          finish result failed (negsuc 0) out.stdout out.stderr out.truncated process_failed
            p.ended_at
      | clean ↦
          finish result succeeded (pos 0) out.stdout out.stderr out.truncated no_error p.ended_at
    ]

module _ (exec : Invocation → Process) where
  -- Run, with the readings of the clock at its start and at a rejection
  unfoldable pub run : ℕ → ℕ → Request → ResultPayload
  unfolding conclude effective_timeout
  run started rejected_at req = elim (argv req.spec req.args) [
    | err _ ↦
        finish (started_result req started) rejected (negsuc 0) [] [] false invalid_action_spec
          rejected_at
    | ok words ↦ conclude req started (
        exec (record {
          path = req.mgate_path;
          words = words;
          dir = req.work_dir;
          limit = effective_timeout req.timeout req.spec.timeout;
        }))
  ]
