-- ===== src/Tests/Transport.antt =====
-- The delays of the loops of the transports.
use mgate_agent.Base.{arith, ◌*◌, ◌^◌, ◌≡◌, [], ◌∷◌, min}
use mgate_agent.Base.Int.{pos, negsuc}
use mgate_agent.Protocol.{second}
use mgate_agent.Transport.Loops.{loop_backoff, pull_turns, failing, succeeding, pull_turns_doubling}

pull_turns_doubling_example :
    let b = loop_backoff second (60 * second) in
    (pull_turns
      (10 * second)
      (succeeding ∷ failing (pos 1) ∷ failing (negsuc 3) ∷ failing (pos 0) ∷ [])
      (pull_turns (10 * second) (failing (pos 5) ∷ []) b)).following
    ≡ min (b.shortest * 2 ^ 2) b.longest
unfolding loop_backoff
pull_turns_doubling_example =
    pull_turns_doubling (10 * second) second (60 * second) (failing (pos 5) ∷ []) (pos 1)
      (negsuc 3 ∷ pos 0 ∷ []) (omega arith)
