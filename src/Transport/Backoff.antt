-- ===== src/Transport/Backoff.antt =====
-- internal/transport/backoff.go: the delays between attempts to connect. The product of a delay with
-- the jitter and a random number is floating-point, so the offset it gives is a parameter; a jitter
-- is whether there is one.
use mgate_agent.Base.{
  ◌%◌, not, ◌&&◌, ℕ, subst, length, suc, ◌+◌, ◌-◌, ◌*◌, ◌^◌, ◌≤◌, ◌<◌, ◌≡◌, refl, ◌∙◌, Bool, inl,
  inr, List, [], ◌∷◌, leb, ltb, ◌==◌, if◌then◌else◌, min, arith, Bool-cases,
}
use mgate_agent.Base.Int.{ℤ, pos, negsuc}
use mgate_agent.Outbox.Retry.{pow_pos}
use mgate_agent.Protocol.{second}
use native.Mathlib.Nat.{pow-suc}

pub record Backoff : Type 0 where
  pub shortest : ℕ
  pub longest : ℕ
  pub has_jitter : Bool
  pub following : ℕ

-- NewBackoff; a delay of 0 stands for one that is not positive
unfoldable pub new_backoff : ℕ → ℕ → Bool → Backoff
new_backoff min_delay max_delay has_jitter =
    let shortest = if leb min_delay 0 then second else min_delay in
    record {
      shortest = shortest;
      longest = if ltb max_delay shortest then shortest else max_delay;
      has_jitter = has_jitter;
      following = 0;
    }

-- an int64 that is negative, as a word
abbrev pub is_negative : ℕ → Bool
is_negative word = leb (2 ^ 63) word

-- the field `next` after a call of Next, an int64 as a word: doubling wraps, and a negative delay is
-- below the longest one
unfoldable pub step : Backoff → Backoff
step b =
    let twice = b.following * 2 % 2 ^ 64 in
    if b.following == 0
    then record b { following = b.shortest }
    else if not (is_negative twice) && ltb b.longest twice
    then record b { following = b.longest }
    else record b { following = twice }

-- a delay with an offset, not below zero
unfoldable pub shifted : ℕ → ℤ → ℕ
shifted delay (pos n) = if is_negative delay then 0 else delay + n
shifted delay (negsuc n) = if is_negative delay then 0 else delay - suc n

-- (*Backoff).Next; a negative delay, which is no time to wait, is 0
unfoldable pub next : ℤ → Backoff → Backoff × ℕ
unfolding step shifted
next offset b =
    let b' = step b in
    (
      b',
      if b'.has_jitter
          then shifted b'.following offset
          else if is_negative b'.following
          then 0
          else b'.following,
    )

-- (*Backoff).Reset
unfoldable pub reset : Backoff → Backoff
reset b = record b { following = 0 }

-- the state after calls of Next, with the offset of each
unfoldable pub after : List ℤ → Backoff → Backoff
unfolding next
after [] b = b
after (o ∷ os) b = after os (next o b).0

-- n calls after the first one, with the limits of b
abbrev Reached : ℕ → Backoff → Backoff → Type 0
Reached n b c =
    (c.shortest ≡ b.shortest)
    × (c.longest ≡ b.longest)
    × (c.following ≡ min (b.shortest * 2 ^ n) b.longest)

step-Reached :
    (n : ℕ) (b c : Backoff)
    → 0 < b.shortest
    → b.shortest ≤ b.longest
    → b.longest < 2 ^ 62
    → Reached n b c
    → Reached (suc n) b (step c)
unfolding step
step-Reached n b c h g small (s, l, f) =
    let positive : 0 < b.shortest * 2 ^ n = grind (arith, pow_pos n) in
    let twice : b.shortest * 2 ^ suc n ≡ b.shortest * 2 ^ n * 2 = rw pow-suc (omega arith) in
    elim (Bool-cases (c.following == 0)) [
      | inl e ↦ absurd (ground arith)
      | inr e ↦
          let fits : c.following * 2 % 2 ^ 64 ≡ c.following * 2 = omega (arith, f, l, small) in
          elim (Bool-cases (
            not (is_negative (c.following * 2 % 2 ^ 64))
            && ltb c.longest (c.following * 2 % 2 ^ 64))) [
              | inl o ↦ rw (e, o) (s, l, ground (arith, twice, fits, o, f, l, small))
              | inr o ↦ rw (e, o) (s, l, ground (arith, twice, fits, o, f, l, small))
            ]
    ]

after-Reached :
    (n : ℕ) (os : List ℤ) (b c : Backoff)
    → 0 < b.shortest
    → b.shortest ≤ b.longest
    → b.longest < 2 ^ 62
    → Reached n b c
    → Reached (n + length os) b (after os c)
unfolding after next
after-Reached n [] b c h g small r = subst (λ k. Reached k b c) (omega arith) r
after-Reached n (o ∷ os) b c h g small r =
    subst (λ k. Reached k b (after os (step c))) (omega arith)
      (after-Reached (suc n) os b (step c) h g small (step-Reached n b c h g small r))

first_step :
    (b c : Backoff) (o : ℤ)
    → c.shortest ≡ b.shortest
    → c.longest ≡ b.longest
    → b.shortest ≤ b.longest
    → Reached 0 b (next o (reset c)).0
unfolding next step reset
first_step b c o s l g = (s, l, omega (arith, s, g))

-- Next never changes the limits
pub after_keeps :
    (os : List ℤ) (b : Backoff)
    → ((after os b).shortest ≡ b.shortest) × ((after os b).longest ≡ b.longest)
unfolding after next
after_keeps [] b = (refl, refl)
after_keeps (o ∷ os) b =
    let (s, l) = after_keeps os (step b) in let (s', l') = step_keeps b in (s ∙ s', l ∙ l')
  where
    step_keeps : (b : Backoff) → ((step b).shortest ≡ b.shortest) × ((step b).longest ≡ b.longest)
    step_keeps b = ground arith

pub limits_ordered :
    (min_delay max_delay : ℕ) (has_jitter : Bool)
    → (0 < (new_backoff min_delay max_delay has_jitter).shortest)
      × ((new_backoff min_delay max_delay has_jitter).shortest
          ≤ (new_backoff min_delay max_delay has_jitter).longest)
unfolding new_backoff
limits_ordered min_delay max_delay has_jitter = ground arith

-- the calls of Next that follow a Reset, from any state with the limits of b
pub reset_doubling_from :
    (b c : Backoff) (o : ℤ) (os : List ℤ)
    → 0 < b.shortest
    → b.shortest ≤ b.longest
    → b.longest < 2 ^ 62
    → c.shortest ≡ b.shortest
    → c.longest ≡ b.longest
    → (after (o ∷ os) (reset c)).following ≡ min (b.shortest * 2 ^ length os) b.longest
unfolding after
reset_doubling_from b c o os h g small s l =
    let count : 0 + length os ≡ length os = omega arith in
    let reached = after-Reached 0 os b (next o (reset c)).0 h g small (first_step b c o s l g) in
    (subst (λ k. Reached k b (after (o ∷ os) (reset c))) count reached).2
