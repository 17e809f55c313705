-- ===== src/Transport/Loops.antt =====
-- internal/transport/pull_client.go and ws_client.go: the loops of Run of the two clients, as the
-- state of their backoff and the time they sleep after each turn; `none` says that Run returns.
use mgate_agent.Base.{
  ◌<◌, ℕ, ◌*◌, ◌/◌, ◌^◌, ◌≡◌, refl, ◌∙◌, ap, Bool, true, false, not, Option, none, some, List, [],
  ◌∷◌, if◌then◌else◌, min, length, arith, map, leb,
}
use mgate_agent.Base.Int.{ℤ}
use mgate_agent.Protocol.{second}
use mgate_agent.Transport.Backoff.{
  Backoff, new_backoff, next, reset, after, reset_doubling_from, limits_ordered, step,
}

-- what a turn of the pull client finds: whether the context is done, whether it may poll, whether
-- the poll failed, and whether the context is done after that; and the offset of a jitter
pub record PullTurn : Type 0 where
  pub cancelled : Bool
  pub polls : Bool
  pub failed : Bool
  pub stopped : Bool
  pub offset : ℤ

-- the backoff that both loops start with; a delay of 0 stands for one that is not positive
unfoldable pub loop_backoff : ℕ → ℕ → Backoff
unfolding new_backoff
loop_backoff min_delay max_delay =
    new_backoff (if leb min_delay 0 then second else min_delay)
      (if leb max_delay 0 then 60 * second else max_delay) true

-- a turn of (*PullClient).Run
unfoldable pub pull_turn : ℕ → PullTurn → Backoff → Backoff × Option ℕ
unfolding next reset
pull_turn interval t b =
    if t.cancelled
    then (b, none)
    else if not t.polls
    then (b, some (second / 5))
    else if t.failed
    then if t.stopped then (b, none) else ((next t.offset b).0, some (next t.offset b).1)
    else (reset b, some interval)

-- a turn of (*WSClient).Run
unfoldable pub ws_turn : Bool → Bool → ℤ → Backoff → Backoff × Option ℕ
unfolding next reset
ws_turn connected cancelled offset b =
    if cancelled
    then (b, none)
    else let (c, delay) = next offset (if connected then reset b else b) in (c, some delay)

-- the backoff after turns of the pull client
unfoldable pub pull_turns : ℕ → List PullTurn → Backoff → Backoff
unfolding pull_turn
pull_turns interval [] b = b
pull_turns interval (t ∷ ts) b = pull_turns interval ts (pull_turn interval t b).0

-- a turn in which a poll fails
abbrev pub failing : ℤ → PullTurn
failing offset = record {
  cancelled = false;
  polls = true;
  failed = true;
  stopped = false;
  offset = offset;
}

abbrev pub succeeding : PullTurn
succeeding = record {
  cancelled = false;
  polls = true;
  failed = false;
  stopped = false;
  offset = ℤ.pos 0;
}

-- a turn never changes the limits of the backoff
abbrev SameLimits : Backoff → Backoff → Type 0
SameLimits b c = (c.shortest ≡ b.shortest) × (c.longest ≡ b.longest)

pull_turn-SameLimits :
    (interval : ℕ) (t : PullTurn) (b : Backoff) → SameLimits b (pull_turn interval t b).0
unfolding pull_turn next step reset
pull_turn-SameLimits interval t b = ground arith

pull_turns-SameLimits :
    (interval : ℕ) (ts : List PullTurn) (b : Backoff) → SameLimits b (pull_turns interval ts b)
unfolding pull_turns
pull_turns-SameLimits interval [] b = (refl, refl)
pull_turns-SameLimits interval (t ∷ ts) b =
    let (s, l) = pull_turns-SameLimits interval ts (pull_turn interval t b).0 in
    let (s', l') = pull_turn-SameLimits interval t b in (s ∙ s', l ∙ l')

succeeding-reset : (interval : ℕ) (b : Backoff) → (pull_turn interval succeeding b).0 ≡ reset b
unfolding pull_turn reset
succeeding-reset interval b = refl

failing-after :
    (interval : ℕ) (os : List ℤ) (b : Backoff) → pull_turns interval (map failing os) b ≡ after os b
unfolding pull_turns pull_turn after next
failing-after interval [] b = refl
failing-after interval (o ∷ os) b = failing-after interval os (next o b).0

-- Where the longest delay is below 2 ^ 62 nanoseconds, whatever the pull client has gone through,
-- after a poll that succeeded and polls that failed, the last delay before jitter is the shortest
-- one doubled for each failed poll but the first, up to the longest.
pub pull_turns_doubling :
    (interval min_delay max_delay : ℕ) (before : List PullTurn) (o : ℤ) (os : List ℤ)
    → (loop_backoff min_delay max_delay).longest < 2 ^ 62
    → let b = loop_backoff min_delay max_delay in
      let c = pull_turns interval before b in
      (pull_turns interval (succeeding ∷ failing o ∷ map failing os) c).following
      ≡ min (b.shortest * 2 ^ length os) b.longest
unfolding pull_turns loop_backoff
pull_turns_doubling interval min_delay max_delay before o os small =
    let b = loop_backoff min_delay max_delay in
    let c = pull_turns interval before b in
    let (h, g) =
      limits_ordered (if leb min_delay 0 then second else min_delay)
        (if leb max_delay 0 then 60 * second else max_delay) true in
    let (s, l) = pull_turns-SameLimits interval before b in
    let success : pull_turns interval (succeeding ∷ map failing (o ∷ os)) c
        ≡ pull_turns interval (map failing (o ∷ os)) (reset c) =
      ap (pull_turns interval (map failing (o ∷ os))) (succeeding-reset interval c) in
    ap (λ d. d.following) (success ∙ failing-after interval (o ∷ os) (reset c))
    ∙ reset_doubling_from b c o os h g small s l
