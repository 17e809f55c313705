-- ===== src/Commands/Handler/Timeout.antt =====
-- The time limit of a command, from the request of the cloud to the context of the process.
use mgate_agent.Base.{ℕ, ◌-◌, ◌*◌, ◌%◌, ◌^◌, ◌≤◌, ◌<◌, ◌≡◌, ◌↔◌, Option, none, some, arith, ok}
use mgate_agent.Base.Int.{ℤ, pos, negsuc}
use mgate_agent.Protocol.{second}
use mgate_agent.Actions.{Spec}
use mgate_agent.Runner.{effective_timeout}
use mgate_agent.Commands.Handler.{resolve_timeout, to_int64}

-- Whatever time limit the cloud asks for, also one whose nanoseconds overflow an int64: if the
-- handler accepts it and the action has a positive limit, the process runs under a positive limit
-- that is at most the action's.
pub effective_timeout_bounds :
    (spec : Spec) (asked : Option ℤ) (limit : ℤ)
    → 0 < spec.timeout
    → resolve_timeout spec asked ≡ ok limit
    → (0 < effective_timeout limit spec.timeout)
      × (effective_timeout limit spec.timeout ≤ spec.timeout)
unfolding resolve_timeout effective_timeout
effective_timeout_bounds spec none limit h e = ground arith
effective_timeout_bounds spec (some (negsuc n)) limit h e = absurd (ground arith)
effective_timeout_bounds spec (some (pos n)) (pos d) h e = ground arith
effective_timeout_bounds spec (some (pos n)) (negsuc d) h e = ground arith

-- A positive number of seconds that fits an int64 of nanoseconds is accepted exactly when it does
-- not exceed the action's limit, and is then the limit.
pub resolve_timeout_exact :
    (spec : Spec) (n : ℕ)
    → 0 < n
    → n * second < 2 ^ 63
    → (resolve_timeout spec (some (pos n)) ≡ ok (pos (n * second))) ↔ (n * second ≤ spec.timeout)
unfolding resolve_timeout to_int64
resolve_timeout_exact spec n h fits = (λ e. ground arith, λ le. ground arith)

-- A number of seconds whose nanoseconds wrap to a negative int64 is accepted by every action, however
-- far it exceeds the action's limit.
pub resolve_timeout_overflow :
    (spec : Spec) (n : ℕ)
    → 0 < n
    → 2 ^ 63 ≤ n * second % 2 ^ 64
    → resolve_timeout spec (some (pos n)) ≡ ok (negsuc (2 ^ 64 - n * second % 2 ^ 64 - 1))
unfolding resolve_timeout to_int64
resolve_timeout_overflow spec n h wraps = ground arith
