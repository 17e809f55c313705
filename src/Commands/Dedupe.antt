-- ===== src/Commands/Dedupe.antt =====
-- internal/commands/dedupe.go: the command ids that were seen lately. The clock reading is an
-- argument; a nil store is `none`.
pub mod Invariant
pub mod Window
use mgate_agent.Base.{
  ℕ, zero, suc, ◌+◌, ◌-◌, ◌*◌, Bool, true, false, not, Option, none, some, List, [], ◌∷◌, ltb, leb,
  if◌then◌else◌, length,
}
use mgate_agent.Base.Text.{Text}
use mgate_agent.Base.Maps.{Map, lookup, insert, remove, keep, has_key}
use mgate_agent.Protocol.{second}

pub record DedupeStore : Type 0 where
  pub ttl : ℕ
  pub max_entries : ℕ
  pub seen : Map ℕ

abbrev pub default_ttl : ℕ
default_ttl = 24 * 3600 * second

abbrev pub default_max_entries : ℕ
default_max_entries = 1024

-- NewDedupeStore; an argument of 0 stands for any that is not positive
unfoldable pub new_dedupe_store : ℕ → ℕ → DedupeStore
new_dedupe_store ttl max_entries = record {
  ttl = if leb ttl 0 then default_ttl else ttl;
  max_entries = if leb max_entries 0 then default_max_entries else max_entries;
  seen = [];
}

-- now.Sub(seenAt) > s.ttl: with a lifetime that is not negative the truncated difference serves
abbrev pub expired : ℕ → ℕ → ℕ → Bool
expired ttl now seen_at = ltb ttl (now - seen_at)

-- pruneLocked
unfoldable pub prune_locked : ℕ → DedupeStore → DedupeStore
prune_locked now s = record s { seen = keep (λ at. not (expired s.ttl now at)) s.seen }

-- the scan for the oldest entry; of equally old ones the first that the iteration meets
unfoldable pub oldest_from : Text → ℕ → Map ℕ → Text
oldest_from id at [] = id
oldest_from id at ((k, t) ∷ m) =
    oldest_from (if ltb t at then k else id) (if ltb t at then t else at) m

unfoldable pub oldest : Map ℕ → Text
unfolding oldest_from
oldest [] = []
oldest ((k, t) ∷ m) = oldest_from k t m

-- the loop of trimLocked, with fuel for its rounds
unfoldable pub trim : ℕ → ℕ → Map ℕ → Map ℕ
unfolding oldest
trim zero max_entries m = m
trim (suc fuel) max_entries m =
    let rest = trim fuel max_entries (remove (oldest m) m) in
    if ltb max_entries (length m) then rest else m

-- trimLocked; a round removes an entry, so the number of entries is fuel enough
unfoldable pub trim_locked : DedupeStore → DedupeStore
unfolding trim
trim_locked s = record s { seen = trim (length s.seen) s.max_entries s.seen }

-- Seen
unfoldable pub seen_before : ℕ → Text → Option DedupeStore → Option DedupeStore × Bool
seen_before now id none = (none, false)
seen_before now id (some s) = elim (lookup id s.seen) [
  | none ↦ (some s, false)
  | some at ↦
      if expired s.ttl now at
      then (some (record s { seen = remove id s.seen }), false)
      else (some s, true)
]

-- Mark; `later` is the second reading of the clock
unfoldable pub mark : ℕ → ℕ → Text → Option DedupeStore → Option DedupeStore
unfolding prune_locked trim_locked
mark now later id none = none
mark now later id (some s) =
    let s' = prune_locked now s in some (trim_locked (record s' { seen = insert id later s'.seen }))

-- Prune
unfoldable pub prune : ℕ → Option DedupeStore → Option DedupeStore
unfolding prune_locked
prune now none = none
prune now (some s) = some (prune_locked now s)

-- Reserve of a store that is not nil
unfoldable pub reserve_in : ℕ → Text → DedupeStore → DedupeStore × Bool
unfolding prune_locked trim_locked
reserve_in now id s =
    let s' = prune_locked now s in
    if has_key id s'.seen
    then (s', false)
    else (trim_locked (record s' { seen = insert id now s'.seen }), true)

-- Reserve
unfoldable pub reserve : ℕ → Text → Option DedupeStore → Option DedupeStore × Bool
unfolding reserve_in
reserve now id none = (none, true)
reserve now id (some s) = let (s', fresh) = reserve_in now id s in (some s', fresh)
