-- ===== src/Outbox/Retry.antt =====
-- internal/outbox/store.go: the delays between attempts to send a record.
use mgate_agent.Base.{
  ℕ, zero, suc, ◌+◌, ◌-◌, ◌*◌, ◌/◌, ◌%◌, ◌^◌, ◌≤◌, ◌<◌, ◌≡◌, ap, sym, ◌∙◌, leb→le, [], min, inl,
  inr, Option, none, some, leb, if◌then◌else◌, arith, Bool-cases, take,
}
use native.Mathlib.Nat.{pow-suc}
use mgate_agent.Base.Text.{Text}
use mgate_agent.Protocol.{second}

abbrev pub minute : ℕ
minute = 60 * second

-- the loop of retryDelay over the rounds left
unfoldable pub double_delay : ℕ → ℕ → ℕ
double_delay zero delay = delay
double_delay (suc rounds) delay =
    let rest = double_delay rounds (delay * 2) in if leb minute (delay * 2) then minute else rest

-- retryDelay
unfoldable pub retry_delay : ℕ → ℕ
unfolding double_delay
retry_delay zero = 5 * second
retry_delay (suc n) = double_delay n (5 * second)

-- delay + retryJitter(delay): the drawn number lies in 0 … 2 * spread, and the spread is taken off;
-- no draw stands for a failing random source
unfoldable pub jittered : ℕ → Option ℕ → ℕ
jittered delay none = delay
jittered delay (some draw) =
    let spread = delay / 5 in
    if leb spread 0 then delay else delay + draw % (spread * 2 + 1) - spread

-- shortError; no error gives no text
unfoldable pub short_error : Option Text → Text
short_error none = []
short_error (some message) = take 200 message

pub pow_pos : (k : ℕ) → 1 ≤ 2 ^ k
pow_pos zero = omega arith
pow_pos (suc k) = rw pow-suc (omega (arith, pow_pos k))

double_delay-eq-min : (k d : ℕ) → d < minute → double_delay k d ≡ min (d * 2 ^ k) minute
unfolding double_delay
double_delay-eq-min zero d h = omega arith
double_delay-eq-min (suc k) d h =
    let twice : d * 2 ^ suc k ≡ d * 2 * 2 ^ k = rw pow-suc (omega arith) in
    elim (Bool-cases (leb minute (d * 2))) [
      | inl e ↦
          let low : d * 2 ≤ d * 2 * 2 ^ k = grind (arith, pow_pos k) in
          rw e (omega (arith, leb→le minute (d * 2) e))
      | inr e ↦
          rw e (double_delay-eq-min k (d * 2) (ground arith) ∙ ap (λ t. min t minute) (sym twice))
    ]

-- The delay before the next attempt doubles from five seconds with each failed attempt, up to a
-- minute.
pub retry_delay-eq-min : (n : ℕ) → retry_delay (suc n) ≡ min (5 * second * 2 ^ n) minute
unfolding retry_delay
retry_delay-eq-min n = double_delay-eq-min n (5 * second) (omega arith)

-- With jitter a delay of at least five nanoseconds moves by at most a fifth of it, either way.
pub jittered_bounds :
    (delay : ℕ) (draw : Option ℕ)
    → (delay ≤ jittered delay draw + delay / 5) × (jittered delay draw ≤ delay + delay / 5)
unfolding jittered
jittered_bounds delay none = omega arith
jittered_bounds delay (some draw) = ground arith
