-- ===== src/Tests/Runner.antt =====
-- The output limit at concrete inputs.
use mgate_agent.Base.{◌+◌, ◌≡◌, false, List, [], ◌∷◌, ◌++◌, arith, ltb, length, ◌↔◌, ok, ◌*◌}
use mgate_agent.Base.Text.{Text, codes}
use mgate_agent.Base.Int.{pos}
use mgate_agent.Protocol.{second, succeeded}
use mgate_agent.Actions.{gateway_start, argv}
use mgate_agent.Runner.{Request, Invocation, Process, clean, run}
use mgate_agent.Runner.Laws.{
  HasInsensitiveOutput, IsGood, invocation, run-HasInsensitiveOutput, run_succeeds_iff,
}
use mgate_agent.Runner.Output.{Stream, stdout, stderr, new_output_streams, write_all}
use mgate_agent.Runner.Output.Laws.{
  sent, total, buffer, limit_of, write_all_bounded, truncated_exactly,
}

abbrev chatter : List (Stream × Text)
chatter = (stdout, codes "abc") ∷ (stderr, codes "de") ∷ (stdout, codes "fgh") ∷ []

write_all_bounded_example :
    let s = write_all chatter (new_output_streams 6) in
    (length s.stdout + length s.stderr + s.remaining ≡ limit_of 6)
    × ((rest : Text) × (buffer stdout s ++ rest ≡ sent stdout chatter))
write_all_bounded_example = write_all_bounded 6 chatter stdout

truncated_exactly_example :
    (write_all chatter (new_output_streams 6)).truncated ≡ ltb (limit_of 6) (total chatter)
truncated_exactly_example = truncated_exactly 6 chatter (omega arith)

abbrev start_request : Request
start_request = record {
  command_id = codes "cmd-0001";
  spec = gateway_start;
  args = (codes "country", codes "CN") ∷ [];
  mgate_path = codes "/usr/local/bin/mgate.sh";
  work_dir = codes "/";
  timeout = pos (10 * second);
  max_output_bytes = 100;
}

abbrev leaky : Invocation → Process
leaky call = record {
  writes = (stdout, codes "token=abc") ∷ [];
  ending = clean;
  deadline_exceeded = false;
  ended_at = 9;
}

run-HasInsensitiveOutput_example : HasInsensitiveOutput (run leaky 1 2 start_request)
run-HasInsensitiveOutput_example = run-HasInsensitiveOutput leaky 1 2 start_request

run_succeeds_iff_example : ((run leaky 1 2 start_request).state ≡ succeeded) ↔ (
    (words : List Text) × (argv gateway_start start_request.args ≡ ok words)
    × IsGood (leaky (invocation start_request words)))
run_succeeds_iff_example = run_succeeds_iff leaky 1 2 start_request
