-- ===== src/Tests/Commands.antt =====
-- The command handler on the built-in actions.
use mgate_agent.Base.{
  ℕ, ◌+◌, ◌*◌, ◌%◌, ◌^◌, ◌-◌, ◌≤◌, ◌<◌, ◌≡◌, refl, true, false, some, List, [], ◌∷◌, arith, All, ok,
  err, all,
}
use mgate_agent.Base.Int.{pos, negsuc}
use mgate_agent.Base.Text.{Text, codes, text_eq}
use mgate_agent.Base.Maps.{lookup, insert, keep}
use mgate_agent.Protocol.{
  CommandPayload, ResultPayload, second, running, no_error, duplicate_command,
}
use mgate_agent.Protocol.Json.{end, field, string}
use mgate_agent.Audit.{Writer}
use mgate_agent.Actions.{gateway_start}
use mgate_agent.Actions.Registry.{Registry, new_default_registry}
use mgate_agent.Actions.Validators.{match_string}
use mgate_agent.Runner.{Request, effective_timeout}
use mgate_agent.Commands.Dedupe.{DedupeStore, reserve, reserve_in}
use mgate_agent.Commands.Dedupe.Invariant.{IsValid, reserve_in-IsValid}
use mgate_agent.Commands.Dedupe.Window.{reserves, reserves_refuse, count_from}
use mgate_agent.Commands.Handler.{Handler, World, Rejection, is_command_id, handle, resolve_timeout}
use mgate_agent.Commands.Handler.Gates.{fresh_in, Outcome, handle-Outcome}
use mgate_agent.Commands.Handler.Safety.{
  handle_all, IsAuthorised, has_harmless_argv, executed-IsAuthorised, executed_harmless,
}
use mgate_agent.Commands.Handler.Once.{handle_once}
use mgate_agent.Commands.Handler.Trail.{Grew, kinds_of, runs, handle-Grew}
use mgate_agent.Commands.Handler.Timeout.{effective_timeout_bounds, resolve_timeout_overflow}

abbrev pub table : Registry
unfolding new_default_registry
table = elim new_default_registry [ ok r ↦ r | err _ ↦ [] ]

abbrev pub device : Handler
device = record {
  registry = table;
  allow_actions = codes "gateway.start" ∷ [];
  mgate_path = codes "/usr/local/bin/mgate.sh";
  work_dir = codes "/var/lib/mgate-agent";
  max_output_bytes = 32768;
}

abbrev pub start_command : CommandPayload
start_command = record {
  command_id = codes "cmd-0001";
  action = codes "gateway.start";
  args = some (field (codes "country") (string (codes "CN")) end);
  timeout_sec = some (pos 30);
  async = true;
  requested_by = codes "ops";
  issued_at = 1;
}

abbrev pub audit_file : Writer
audit_file = record { path = codes "audit.jsonl"; writable = true; lines = [] }

abbrev pub small_store : DedupeStore
small_store = record { ttl = 1000; max_entries = 4; seen = [] }

small_store-IsValid : IsValid small_store
small_store-IsValid = record {
  roomy = omega arith;
  lasting = omega arith;
  distinct = tt;
  bounded = omega arith;
}

abbrev pub idle : World
idle = record { dedupe = some small_store; audit = some audit_file; executed = [] }

abbrev pub silent : Rejection → Text
silent why = []

abbrev pub answer : Request → ResultPayload
answer req = record {
  command_id = req.command_id;
  action = req.spec.name;
  state = running;
  exit_code = pos 0;
  stdout = [];
  stderr = [];
  output_truncated = false;
  started_at = 1;
  ended_at = 2;
  duration_ms = 0;
  error_code = no_error;
}

abbrev pub clock_at : ℕ → ℕ → ℕ
clock_at t i = t + i

abbrev script : List (CommandPayload × (ℕ → ℕ))
script = (start_command, clock_at 10) ∷ (start_command, clock_at 20) ∷ []

executed_harmless_example :
    All (λ req. has_harmless_argv req ≡ true) (handle_all silent answer device script idle).executed
unfolding new_default_registry text_eq lookup insert
executed_harmless_example = executed_harmless silent answer device script idle refl refl

executed-IsAuthorised_example :
    All (IsAuthorised device) (handle_all silent answer device script idle).executed
executed-IsAuthorised_example = executed-IsAuthorised silent answer device script idle refl

handle-Outcome_example : Outcome silent answer device start_command (clock_at 10) idle
handle-Outcome_example = handle-Outcome silent answer device start_command (clock_at 10) idle

start_is_fresh : fresh_in start_command (clock_at 10) idle ≡ true
unfolding reserve lookup keep
start_is_fresh = refl

start_is_command_id : is_command_id (codes "cmd-0001") ≡ true
unfolding is_command_id match_string all
start_is_command_id = refl

handle_once_example :
    let w' =
      handle_all silent answer device
        ((start_command, clock_at 20) ∷ [])
        (handle silent answer device start_command (clock_at 10) idle).0 in
    let out = handle silent answer device start_command (clock_at 30) w' in
    (out.0.executed ≡ w'.executed) × (out.1.error_code ≡ duplicate_command)
unfolding count_from
handle_once_example =
    handle_once silent answer device start_command start_command (clock_at 10) (clock_at 30)
      ((start_command, clock_at 20) ∷ []) idle small_store refl small_store-IsValid refl
      start_is_command_id start_is_fresh (omega arith) (omega arith) (omega arith)

handle-Grew_example :
    Grew audit_file
      (kinds_of (runs device start_command (clock_at 10) idle))
      (handle silent answer device start_command (clock_at 10) idle).0.audit
unfolding text_eq
handle-Grew_example =
    handle-Grew audit_file refl refl silent answer device start_command (clock_at 10) idle refl

reserves_refuse_example :
    (reserve_in 40
      (codes "cmd-0001")
      (reserves ((20, codes "cmd-0002") ∷ []) (reserve_in 10 (codes "cmd-0001") small_store).0)).1
    ≡ false
unfolding count_from reserve_in lookup keep
reserves_refuse_example =
    reserves_refuse small_store 10 40 (codes "cmd-0001") ((20, codes "cmd-0002") ∷ [])
      small_store-IsValid refl (omega arith) (omega arith) (omega arith)

reserve_in-IsValid_example : IsValid (reserve_in 10 (codes "cmd-0001") small_store).0
reserve_in-IsValid_example =
    reserve_in-IsValid 10 (codes "cmd-0001") small_store small_store-IsValid

effective_timeout_bounds_example :
    (0 < effective_timeout (pos (30 * second)) (60 * second))
    × (effective_timeout (pos (30 * second)) (60 * second) ≤ 60 * second)
unfolding resolve_timeout
effective_timeout_bounds_example =
    effective_timeout_bounds gateway_start (some (pos 30)) (pos (30 * second)) (omega arith) refl

resolve_timeout_overflow_example :
    resolve_timeout gateway_start (some (pos 18446744073))
    ≡ ok (negsuc (2 ^ 64 - 18446744073 * second % 2 ^ 64 - 1))
resolve_timeout_overflow_example =
    resolve_timeout_overflow gateway_start 18446744073 (omega arith) (omega arith)
